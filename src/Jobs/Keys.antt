-- ===== src/Jobs/Keys.antt =====
-- The primary key of processing_jobs, and what the conditional UPDATE of a claim finds by it.
use vendorops_ai.Base.{
  ℕ, String, ◌≡◌, ◌≢◌, refl, sym, ap, ◌∙◌, inl, inr, Bool, true, false, Option, some, List, [], ◌∷◌,
  arith, str_eq, eq_iff, if◌then◌else◌, count_if, update_if, find_if, All, Has, Bool-cases,
}
use vendorops_ai.Db.{ProcessingJob}
use vendorops_ai.Jobs.Lease.{eligible, lease, claimable, has_id}

-- No two rows have one id.
abbrev pub PrimaryKey : List ProcessingJob → Type 0
PrimaryKey [] = Unit
PrimaryKey (x ∷ xs) = All (λ r. r.id ≢ x.id) xs × PrimaryKey xs

-- Two lists of rows with the same ids in the same order.
abbrev pub SameIds : List ProcessingJob → List ProcessingJob → Type 0
SameIds [] [] = Unit
SameIds (x ∷ xs) (y ∷ ys) = (x.id ≡ y.id) × SameIds xs ys
SameIds _ _ = ⊥

SameIds-fresh :
    (k : String) (xs ys : List ProcessingJob)
    → SameIds xs ys
    → All (λ r. r.id ≢ k) xs
    → All (λ r. r.id ≢ k) ys
SameIds-fresh k [] [] s h = tt
SameIds-fresh k [] (y ∷ ys) s h = elim s [ ]
SameIds-fresh k (x ∷ xs) [] s h = elim s [ ]
SameIds-fresh k (x ∷ xs) (y ∷ ys) s h = ((λ e. h.0 (s.0 ∙ e)), SameIds-fresh k xs ys s.1 h.1)

pub PrimaryKey-SameIds :
    (xs ys : List ProcessingJob) → SameIds xs ys → PrimaryKey xs → PrimaryKey ys
PrimaryKey-SameIds [] [] s h = tt
PrimaryKey-SameIds [] (y ∷ ys) s h = elim s [ ]
PrimaryKey-SameIds (x ∷ xs) [] s h = elim s [ ]
PrimaryKey-SameIds (x ∷ xs) (y ∷ ys) s h =
    (rw (← s.0) (SameIds-fresh x.id xs ys s.1 h.0), PrimaryKey-SameIds xs ys s.1 h.1)

pub SameIds-refl : (xs : List ProcessingJob) → SameIds xs xs
SameIds-refl [] = tt
SameIds-refl (x ∷ xs) = (refl, SameIds-refl xs)

pub SameIds-update_if :
    (p : ProcessingJob → Bool) (f : ProcessingJob → ProcessingJob)
    → ((x : ProcessingJob) → x.id ≡ (f x).id)
    → (xs : List ProcessingJob) → SameIds xs (update_if p f xs)
SameIds-update_if p f h [] = tt
SameIds-update_if p f h (x ∷ xs) = (one (p x), SameIds-update_if p f h xs)
  where
    one : (b : Bool) → x.id ≡ (if b then f x else x).id
    one true = h x
    one false = refl

pub differs :
    (c x : ProcessingJob) (ys : List ProcessingJob)
    → All (λ r. r.id ≢ x.id) ys
    → Has c ys
    → c.id ≢ x.id
differs c x [] a m = elim m [ ]
differs c x (y ∷ ys) a (inl e) = λ q. a.0 (ap (λ (r : ProcessingJob). r.id) e ∙ q)
differs c x (y ∷ ys) a (inr m) = differs c x ys a.1 m

-- The row that has the id of a row of the table is that row.
pub Has-only :
    (c : ProcessingJob) (xs : List ProcessingJob)
    → PrimaryKey xs
    → Has c xs
    → All (λ r. r.id ≡ c.id → r ≡ c) xs
Has-only c [] k h = tt
Has-only c (x ∷ xs) k (inl e) =
    ((λ _. e), All-absurd xs (rw (ap (λ (r : ProcessingJob). r.id) e) at k.0))
  where
    All-absurd :
        (ys : List ProcessingJob) → All (λ r. r.id ≢ c.id) ys → All (λ r. r.id ≡ c.id → r ≡ c) ys
    All-absurd [] a = tt
    All-absurd (y ∷ ys) a = ((λ e'. absurd (a.0 e')), All-absurd ys a.1)
Has-only c (x ∷ xs) k (inr h) = ((λ e. absurd (differs c x xs k.0 h (sym e))), Has-only c xs k.1 h)

module _ (c : ProcessingJob) (now : ℕ) (w e : String) (ls : ℕ) (el : eligible now c ≡ true) where
  found_here :
      (x : ProcessingJob) (rest : Option ProcessingJob)
      → x ≡ c
      → (if str_eq (if claimable now c.id x then lease c now w e ls x else x).id c.id
          then some (if claimable now c.id x then lease c now w e ls x else x)
          else rest)
        ≡ some (lease c now w e ls c)
  unfolding claimable lease
  found_here x rest q = rw q (ground (arith, eq_iff c.id c.id))

  passed_by :
      (x : ProcessingJob) (rest : Option ProcessingJob)
      → x.id ≢ c.id
      → (if str_eq (if claimable now c.id x then lease c now w e ls x else x).id c.id
          then some (if claimable now c.id x then lease c now w e ls x else x)
          else rest)
        ≡ rest
  unfolding claimable lease
  passed_by x rest q = ground (arith, eq_iff x.id c.id)

  -- The row of the table that has the id of `c` after the update.
  pub claim_finds :
      (xs : List ProcessingJob)
      → PrimaryKey xs
      → Has c xs
      → find_if (has_id c.id) (update_if (claimable now c.id) (lease c now w e ls) xs)
        ≡ some (lease c now w e ls c)
  claim_finds [] k h = elim h [ ]
  claim_finds (x ∷ xs) k (inl q) = found_here x _ q
  claim_finds (x ∷ xs) k (inr h) =
      passed_by x _ (λ q. differs c x xs k.0 h (sym q)) ∙ claim_finds xs k.1 h

pub count_claimable :
    (c : ProcessingJob) (now : ℕ) (xs : List ProcessingJob)
    → All (λ r. r.id ≡ c.id → r ≡ c) xs
    → eligible now c ≡ false
    → count_if (claimable now c.id) xs ≡ 0
unfolding claimable
count_claimable c now [] a el = refl
count_claimable c now (x ∷ xs) a el = elim (Bool-cases (str_eq x.id c.id)) [
  | inl q ↦
      rw (q, ap (eligible now) (a.0 ((eq_iff x.id c.id).0 q)), el)
        (omega (arith, count_claimable c now xs a.1 el))
  | inr q ↦ rw q (omega (arith, count_claimable c now xs a.1 el))
]
