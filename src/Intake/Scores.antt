-- ===== src/Intake/Scores.antt =====
-- What the sorting of the scores of app/intake/classification.py keeps.
use vendorops_ai.Base.{
  ℕ, ◌≤◌, ◌<◌, ◌≡◌, ◌≢◌, sym, true, false, inl, inr, ◌⊎◌, List, [], ◌∷◌, leb, ◌==◌, All, All-map,
  Has, arith, Bool-cases,
}
use vendorops_ai.Intake.{Score, insert_score, sort_scores}

-- Each score is at least those after it.
abbrev pub Descends : List Score → Type 0
Descends [] = Unit
Descends (x ∷ xs) = All (λ (y : Score). y.score ≤ x.score) xs × Descends xs

leb_le : (m n : ℕ) → leb m n ≡ true → m ≤ n
leb_le m n h = ground arith

leb-false-le : (m n : ℕ) → leb m n ≡ false → n ≤ m
leb-false-le m n h = ground arith

le_trans : (k m n : ℕ) → k ≤ m → m ≤ n → k ≤ n
le_trans k m n h i = omega arith

pub not_zero : (n : ℕ) → n == 0 ≡ true → 0 < n → ⊥
not_zero n h p = ground arith

pub zero_below : (n m : ℕ) → n == 0 ≡ true → 0 < m → n < m
zero_below n m h p = ground arith

pub zero_least : (n m : ℕ) → n == 0 ≡ true → n ≤ m
zero_least n m h = ground arith

pub equal : (m n : ℕ) → m == n ≡ true → n ≡ m
equal m n h = ground arith

pub below_both : (k m n : ℕ) → k ≤ m → m ≤ n → n == m ≡ false → k < n
below_both k m n h i e = ground arith

pub at_most : (k m n : ℕ) → k ≤ m → m ≤ n → k ≤ n
at_most k m n h i = omega arith

pub refl_le : (n : ℕ) → n ≤ n
refl_le n = omega arith

pub none_of : (n : ℕ) → n == 0 ≡ true → n ≡ 0
none_of n h = ground arith

pub positive : (n : ℕ) → n == 0 ≡ false → 0 < n
positive n h = ground arith

module _ (P : Score → Type 0) where
  All-insert : (x : Score) (ys : List Score) → P x → All P ys → All P (insert_score x ys)
  unfolding insert_score
  All-insert x [] p h = (p, tt)
  All-insert x (y ∷ ys) p h = elim (Bool-cases (leb y.score x.score)) [
    | inl e ↦ rw e (p, h)
    | inr e ↦ rw e (h.0, All-insert x ys p h.1)
  ]

  All-uninsert : (x : Score) (ys : List Score) → All P (insert_score x ys) → P x × All P ys
  unfolding insert_score
  All-uninsert x [] h = h
  All-uninsert x (y ∷ ys) h = elim (Bool-cases (leb y.score x.score)) [
    | inl e ↦ rw e at h
    | inr e ↦ let h' = rw e at h in let (p, rest) = All-uninsert x ys h'.1 in (p, (h'.0, rest))
  ]

  pub All-unsort : (xs : List Score) → All P (sort_scores xs) → All P xs
  unfolding sort_scores
  All-unsort [] h = tt
  All-unsort (x ∷ xs) h =
      let (p, rest) = All-uninsert x (sort_scores xs) h in (p, All-unsort xs rest)

insert-Descends : (x : Score) (ys : List Score) → Descends ys → Descends (insert_score x ys)
unfolding insert_score
insert-Descends x [] d = (tt, tt)
insert-Descends x (y ∷ ys) d = elim (Bool-cases (leb y.score x.score)) [
  | inl e ↦ rw e (
    (
      leb_le y.score x.score e,
      All-map (λ z. z.score ≤ y.score) (λ z. z.score ≤ x.score)
          (λ z h. le_trans z.score y.score x.score h (leb_le y.score x.score e)) ys d.0,
    ),
    d,
  )
  | inr e ↦ rw e (
    All-insert (λ z. z.score ≤ y.score) x ys (leb-false-le y.score x.score e) d.0,
    insert-Descends x ys d.1,
  )
]

pub sort-Descends : (xs : List Score) → Descends (sort_scores xs)
unfolding sort_scores
sort-Descends [] = tt
sort-Descends (x ∷ xs) = insert-Descends x (sort_scores xs) (sort-Descends xs)

Has-uninsert : (z x : Score) (ys : List Score) → Has z (insert_score x ys) → (x ≡ z) ⊎ Has z ys
unfolding insert_score
Has-uninsert z x [] h = h
Has-uninsert z x (y ∷ ys) h = elim (Bool-cases (leb y.score x.score)) [
  | inl e ↦ rw e at h
  | inr e ↦
      let h' : (y ≡ z) ⊎ Has z (insert_score x ys) = rw e at h in
      elim h' [
        | inl q ↦ inr (inl q)
        | inr k ↦ elim (Has-uninsert z x ys k) [ inl q ↦ inl q | inr g ↦ inr (inr g) ]
      ]
]

pub Has-unsort : (z : Score) (xs : List Score) → Has z (sort_scores xs) → Has z xs
unfolding sort_scores
Has-unsort z [] h = h
Has-unsort z (x ∷ xs) h = elim (Has-uninsert z x (sort_scores xs) h) [
  | inl q ↦ inl q
  | inr k ↦ inr (Has-unsort z xs k)
]

-- No two scores are of one class.
abbrev pub Distinct : List Score → Type 0
Distinct [] = Unit
Distinct (x ∷ xs) = All (λ (y : Score). y.document_class ≢ x.document_class) xs × Distinct xs

insert-Distinct :
    (x : Score) (ys : List Score)
    → All (λ (y : Score). y.document_class ≢ x.document_class) ys
    → Distinct ys
    → Distinct (insert_score x ys)
unfolding insert_score
insert-Distinct x [] h d = (tt, tt)
insert-Distinct x (y ∷ ys) h d = elim (Bool-cases (leb y.score x.score)) [
  | inl e ↦ rw e (h, d)
  | inr e ↦ rw e (
    All-insert (λ z. z.document_class ≢ y.document_class) x ys (λ q. h.0 (sym q)) d.0,
    insert-Distinct x ys h.1 d.1,
  )
]

All-sort : (P : Score → Type 0) (xs : List Score) → All P xs → All P (sort_scores xs)
unfolding sort_scores
All-sort P [] h = tt
All-sort P (x ∷ xs) h = All-insert P x (sort_scores xs) h.0 (All-sort P xs h.1)

pub sort-Distinct : (xs : List Score) → Distinct xs → Distinct (sort_scores xs)
unfolding sort_scores
sort-Distinct [] d = tt
sort-Distinct (x ∷ xs) d =
    insert-Distinct x (sort_scores xs) (All-sort (λ y. y.document_class ≢ x.document_class) xs d.0)
      (sort-Distinct xs d.1)
