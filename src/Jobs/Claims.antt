-- ===== src/Jobs/Claims.antt =====
-- What claim_next_job does with its candidate: the row that it wins, and the claim that it loses.
use vendorops_ai.Base.{
  ℕ, String, ◌≡◌, ◌≢◌, refl, ◌+◌, sym, ◌∙◌, str_eq, All-map, Option, Bool, ◌&&◌, ap, subst, true,
  false, eq_refl, All-update_if, none, some, List, [], ◌∷◌, arith, eq_iff, inl, inr, All, Has,
  Bool-cases, count_if, update_if, find_if,
}
use vendorops_ai.Db.{running, ProcessingJob, Database}
use vendorops_ai.Jobs.Lease.{
  eligible, lease, has_id, claimable, claim_update, candidate, claim_next_job, claim_candidate,
}
use vendorops_ai.Jobs.Finish.{owned}
use vendorops_ai.Jobs.Order.{IsNext, candidate-first, candidate-least}
use vendorops_ai.Jobs.Keys.{differs, PrimaryKey, Has-only, claim_finds, count_claimable}

module _ (c : ProcessingJob) (now : ℕ) (w e : String) (ls : ℕ) (db : Database) where
  -- A claim that returns a job has leased the candidate's row, which was eligible.
  pub claim_won :
      (j : ProcessingJob)
      → Has c db.jobs
      → PrimaryKey db.jobs
      → (claim_update c now w e ls db).0 ≡ some j
      → (eligible now c ≡ true)
        × (j ≡ lease c now w e ls c)
        × ((claim_update c now w e ls db).1
            ≡ record db { jobs = update_if (claimable now c.id) (lease c now w e ls) db.jobs })
  unfolding claim_update
  claim_won j has key h = elim (Bool-cases (eligible now c)) [
    | inl able ↦ ground (arith, claim_finds c now w e ls able db.jobs key has)
    | inr unable ↦
        absurd (ground (arith, count_claimable c now db.jobs (Has-only c db.jobs key has) unable))
  ]

  not-found :
      (xs : List ProcessingJob)
      → find_if (has_id c.id) (update_if (claimable now c.id) (lease c now w e ls) xs) ≡ none
      → count_if (claimable now c.id) xs ≡ 0
  unfolding claimable lease
  not-found [] h = refl
  not-found (x ∷ xs) h = ground (arith, not-found xs)

  -- A claim that returns nothing has changed nothing, whatever row its candidate was read from.
  pub claim_lost_unchanged :
      (claim_update c now w e ls db).0 ≡ none → (claim_update c now w e ls db).1 ≡ db
  unfolding claim_update
  claim_lost_unchanged h = ground (arith, not-found db.jobs)

none_other :
    (c x : ProcessingJob) (now : ℕ) (xs : List ProcessingJob)
    → x ≡ c
    → All (λ r. r.id ≢ x.id) xs
    → count_if (claimable now c.id) xs ≡ 0
unfolding claimable
none_other c x now [] e a = refl
none_other c x now (y ∷ ys) e a =
    ground (arith, none_other c x now ys e, eq_iff y.id c.id, ap (λ (r : ProcessingJob). r.id) e)

count_one :
    (c : ProcessingJob) (now : ℕ) (xs : List ProcessingJob)
    → PrimaryKey xs
    → Has c xs
    → eligible now c ≡ true
    → count_if (claimable now c.id) xs ≡ 1
unfolding claimable
count_one c now [] k h e = elim h [ ]
count_one c now (x ∷ xs) k (inl q) e =
    rw (ap (claimable now c.id) q) (ground (arith, none_other c x now xs q, eq_iff c.id c.id))
count_one c now (x ∷ xs) k (inr h) e =
    ground (arith, count_one c now xs k.1 h e, eq_iff x.id c.id, differs c x xs k.0 h)

pub claim_next_job_leases :
    (now : ℕ) (w e : String) (ls : ℕ) (c : ProcessingJob) (db : Database)
    → PrimaryKey db.jobs
    → candidate now db.jobs ≡ some c
    → claim_next_job now w e ls db ≡ (
      some (lease c now w e ls c),
      record db { jobs = update_if (claimable now c.id) (lease c now w e ls) db.jobs },
    )
unfolding claim_next_job claim_update
claim_next_job_leases now w e ls c db key h =
    let (has, able, least) = candidate-least now db.jobs c h in
    rw (h, claim_candidate)
      (rw (count_one c now db.jobs key has able, claim_finds c now w e ls able db.jobs key has))

-- The claim leaves the rows of its job owned by the worker.
pub lease-owned :
    (now : ℕ) (w e : String) (ls : ℕ) (c : ProcessingJob) (xs : List ProcessingJob)
    → PrimaryKey xs
    → Has c xs
    → eligible now c ≡ true
    → All
        (λ row. row.id ≡ c.id → owned (lease c now w e ls c) w row ≡ true)
        (update_if (claimable now c.id) (lease c now w e ls) xs)
unfolding claimable lease owned
lease-owned now w e ls c xs key has able =
    All-update_if (λ row. row.id ≡ c.id → row ≡ c)
      (λ row. row.id ≡ c.id → owned (lease c now w e ls c) w row ≡ true) (claimable now c.id)
      (lease c now w e ls) (λ x b f q. simp ((eq_iff x.id c.id).1 q, eq_refl w, eq_refl e))
      (λ x b f q. absurd (missed x b (f q))) xs (Has-only c xs key has)
  where
    missed : (x : ProcessingJob) → claimable now c.id x ≡ false → x ≡ c → ⊥
    missed x b q =
        ground (arith, eq_iff c.id c.id, able, subst (λ z. claimable now c.id z ≡ false) q b)

-- Two updates agree on a table if they agree on each row.
update_if-same :
    (p q : ProcessingJob → Bool) (f g : ProcessingJob → ProcessingJob) (xs : List ProcessingJob)
    → All (λ x. (p x ≡ q x) × (p x ≡ true → f x ≡ g x)) xs
    → update_if p f xs ≡ update_if q g xs
update_if-same p q f g [] h = refl
update_if-same p q f g (x ∷ xs) h = elim (Bool-cases (p x)) [
  | inl e ↦ rw (e, sym h.0.0 ∙ e, h.0.1 e, update_if-same p q f g xs h.1) refl
  | inr e ↦ rw (e, sym h.0.0 ∙ e, update_if-same p q f g xs h.1) refl
]

-- What a claim leaves: nothing is eligible and nothing changes; or the next row `c` is returned
-- running, with one attempt more, owned by the worker under the new execution id until the lease ends,
-- and that is the row that the table now has in its place.
abbrev pub IsClaim : ℕ → String → String → ℕ → Database → Option ProcessingJob × Database → Type 0
IsClaim now w e ls db (none, db') = IsNext now db.jobs none × (db' ≡ db)
IsClaim now w e ls db (some j, db') =
    (c : ProcessingJob) × IsNext now db.jobs (some c)
    × (j ≡ record c {
      status = running;
      attempts = c.attempts + 1;
      started_at = some now;
      lease_owner = some w;
      lease_expires_at = some (now + ls);
      execution_id = some e;
      error_message = none;
      updated_at = now;
    })
    × (db' ≡ record db { jobs = update_if (λ row. str_eq row.id c.id) (λ row. j) db.jobs })

and_of : (a b : Bool) → (a ≡ true → b ≡ true) → a && b ≡ a
and_of true b h = h refl
and_of false b h = refl

and_left : (a b : Bool) → a && b ≡ true → a ≡ true
and_left a b h = ground arith

leased_rows :
    (now : ℕ) (w e : String) (ls : ℕ) (c : ProcessingJob) (xs : List ProcessingJob)
    → PrimaryKey xs
    → Has c xs
    → eligible now c ≡ true
    → update_if (claimable now c.id) (lease c now w e ls) xs
      ≡ update_if (λ row. str_eq row.id c.id) (λ row. lease c now w e ls c) xs
unfolding claimable eligible
leased_rows now w e ls c xs key has able =
    update_if-same (claimable now c.id) (λ row. str_eq row.id c.id) (lease c now w e ls)
      (λ row. lease c now w e ls c) xs
      (All-map (λ row. row.id ≡ c.id → row ≡ c)
        (λ x.
          (claimable now c.id x ≡ str_eq x.id c.id)
          × (claimable now c.id x ≡ true → lease c now w e ls x ≡ lease c now w e ls c))
        (λ x f. (
          and_of (str_eq x.id c.id) (eligible now x)
              (λ h. ap (eligible now) (f ((eq_iff x.id c.id).0 h)) ∙ able),
          λ h.
              ap (lease c now w e ls)
                (f ((eq_iff x.id c.id).0 (and_left (str_eq x.id c.id) (eligible now x) h))),
        ))
        xs (Has-only c xs key has))

-- When ids are unique, claim_next_job does not lose against itself: if a row is queued, due and not
-- under a lease that still runs, it returns the first such row in the order of next_run_at and then
-- created_at, running, with one attempt more, owned by the worker under the new execution id until the
-- lease ends, and writes it to the table; if no row is such, it returns nothing and changes nothing.
pub claim_next_job_wins :
    (now : ℕ) (w e : String) (ls : ℕ) (db : Database)
    → PrimaryKey db.jobs
    → IsClaim now w e ls db (claim_next_job now w e ls db)
unfolding lease
claim_next_job_wins now w e ls db key = by_candidate (candidate now db.jobs) refl
  where
    by_candidate :
        (o : Option ProcessingJob)
        → candidate now db.jobs ≡ o
        → IsClaim now w e ls db (claim_next_job now w e ls db)
    by_candidate none q =
        let idle : claim_next_job now w e ls db ≡ (none, db) =
          unfold claim_next_job in rw (q, claim_candidate) refl in
        rw idle (subst (IsNext now db.jobs) q (candidate-first now db.jobs), refl)
    by_candidate (some c) q =
        let (has, able, least) = candidate-least now db.jobs c q in
        rw (claim_next_job_leases now w e ls c db key q) (
          c,
          subst (IsNext now db.jobs) q (candidate-first now db.jobs),
          refl,
          ap (λ (js : List ProcessingJob). record db { jobs = js })
              (leased_rows now w e ls c db.jobs key has able),
        )
