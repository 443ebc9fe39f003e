-- ===== src/Jobs/Order.antt =====
-- Which job claim_next_job reads, and the retry delay.
use native.Mathlib.Nat.{pow-suc, mul_comm}
use vendorops_ai.Base.{
  ℕ, zero, suc, ◌+◌, ◌-◌, ◌*◌, ◌^◌, ◌≤◌, ◌<◌, subst, leb, ltb, ap, ◌⊎◌, ◌&&◌, min, ◌≡◌, refl, ◌∙◌,
  Bool, true, false, Option, none, some, List, [], ◌∷◌, arith, inl, inr, All, All-map, Has,
  Bool-cases, keep_if, Has-keep_if, if◌then◌else◌,
}
use vendorops_ai.Db.{JobStatus, queued, running, completed, failed, other, ProcessingJob}
use vendorops_ai.Jobs.Status.{is_queued, retry_delay}
use vendorops_ai.Jobs.Lease.{eligible, runs_before, first_run, candidate}

-- `c` is a row, and no other row comes before it.
abbrev pub IsFirst : List ProcessingJob → Option ProcessingJob → Type 0
IsFirst js none = js ≡ []
IsFirst js (some c) = Has c js × All (λ r. runs_before r c ≡ false) js

before_trans :
    (a b c : ProcessingJob)
    → runs_before a b ≡ false
    → runs_before c b ≡ true
    → runs_before a c ≡ false
unfolding runs_before
before_trans a b c h k = ground arith

before_weak :
    (a b c : ProcessingJob)
    → runs_before a b ≡ false
    → runs_before b c ≡ false
    → runs_before a c ≡ false
unfolding runs_before
before_weak a b c h k = ground arith

before_self : (a : ProcessingJob) → runs_before a a ≡ false
unfolding runs_before
before_self a = ground arith

before_asym : (a b : ProcessingJob) → runs_before a b ≡ true → runs_before b a ≡ false
unfolding runs_before
before_asym a b h = ground arith

first_run-IsFirst : (js : List ProcessingJob) → IsFirst js (first_run js)
unfolding first_run
first_run-IsFirst [] = refl
first_run-IsFirst (j ∷ js) = choose (first_run js) (first_run-IsFirst js)
  where
    choose :
        (o : Option ProcessingJob)
        → IsFirst js o
        → IsFirst
            (j ∷ js)
            (elim o [ none ↦ some j | some k ↦ (if runs_before k j then some k else some j) ])
    choose none e = (inl refl, (before_self j, rw e tt))
    choose (some k) h = elim (Bool-cases (runs_before k j)) [
      | inl b ↦ rw b (inr h.0, (before_asym k j b, h.1))
      | inr b ↦ rw b (
        inl refl,
        (
          before_self j,
          All-map (λ r. runs_before r k ≡ false) (λ r. runs_before r j ≡ false)
              (λ r x. before_weak r k j x b) js h.1,
        ),
      )
    ]

All-keep_if :
    (P : ProcessingJob → Type 0) (p : ProcessingJob → Bool) (js : List ProcessingJob)
    → All P (keep_if p js)
    → All (λ r. p r ≡ true → P r) js
All-keep_if P p [] h = tt
All-keep_if P p (j ∷ js) h = elim (Bool-cases (p j)) [
  | inl e ↦ ((λ _. (rw e at h).0), All-keep_if P p js (rw e at h).1)
  | inr e ↦ ((λ t. absurd (cc)), All-keep_if P p js (rw e at h))
]

pub candidate-least :
    (now : ℕ) (jobs : List ProcessingJob) (c : ProcessingJob)
    → candidate now jobs ≡ some c
    → Has c jobs
      × (eligible now c ≡ true)
      × All (λ r. eligible now r ≡ true → runs_before r c ≡ false) jobs
unfolding candidate
candidate-least now jobs c h =
    let first = first_run-IsFirst (keep_if (eligible now) jobs) in
    let (has, least) = rw h at first in
    let (row, able) = (Has-keep_if (eligible now) c jobs).0 has in
    (row, able, All-keep_if (λ r. runs_before r c ≡ false) (eligible now) jobs least)

-- A job that may be claimed: queued, due, and with no lease that still runs.
pub record IsEligible (now : ℕ) (job : ProcessingJob) : Type 0 where
  pub waiting : job.status ≡ queued
  pub due : job.next_run_at ≤ now
  pub unleased :
      (job.lease_expires_at ≡ none) ⊎ ((t : ℕ) × (job.lease_expires_at ≡ some t) × (t < now))

is_queued-queued : (s : JobStatus) → is_queued s ≡ true → s ≡ queued
is_queued-queued queued h = refl
is_queued-queued running h = cc
is_queued-queued completed h = cc
is_queued-queued failed h = cc
is_queued-queued (other s) h = cc

lease_test : ℕ → Option ℕ → Bool
lease_test now o = elim o [ none ↦ true | some t ↦ ltb t now ]

lease_test-over :
    (now : ℕ) (o : Option ℕ)
    → lease_test now o ≡ true
    → (o ≡ none) ⊎ ((t : ℕ) × (o ≡ some t) × (t < now))
unfolding lease_test
lease_test-over now none h = inl refl
lease_test-over now (some t) h = inr (t, refl, ground arith)

over-lease_test :
    (now : ℕ) (o : Option ℕ)
    → (o ≡ none) ⊎ ((t : ℕ) × (o ≡ some t) × (t < now))
    → lease_test now o ≡ true
unfolding lease_test
over-lease_test now o (inl e) = rw e refl
over-lease_test now o (inr (t, e, h)) = rw e (ground arith)

three : (a b c : Bool) → a && b && c ≡ true → (a ≡ true) × (b ≡ true) × (c ≡ true)
three a b c h = ground arith

leb_le : (m n : ℕ) → leb m n ≡ true → m ≤ n
leb_le m n h = ground arith

le_leb : (m n : ℕ) → m ≤ n → leb m n ≡ true
le_leb m n h = ground arith

pub eligible-IsEligible :
    (now : ℕ) (job : ProcessingJob) → eligible now job ≡ true → IsEligible now job
unfolding eligible lease_test
eligible-IsEligible now job h =
    let (q, d, l) =
      three (is_queued job.status) (leb job.next_run_at now) (lease_test now job.lease_expires_at)
        h in
    record {
      waiting = is_queued-queued job.status q;
      due = leb_le job.next_run_at now d;
      unleased = lease_test-over now job.lease_expires_at l;
    }

pub IsEligible-eligible :
    (now : ℕ) (job : ProcessingJob) → IsEligible now job → eligible now job ≡ true
unfolding eligible lease_test
IsEligible-eligible now job i =
    rw
      (
        ap is_queued i.waiting,
        le_leb job.next_run_at now i.due,
        over-lease_test now job.lease_expires_at i.unleased,
      )
      refl

-- `c` is not after `r` in the order of next_run_at and then created_at.
abbrev pub NotAfter : ProcessingJob → ProcessingJob → Type 0
NotAfter c r =
    (c.next_run_at < r.next_run_at)
    ⊎ ((c.next_run_at ≡ r.next_run_at) × (c.created_at ≤ r.created_at))

-- What is next to be claimed: nothing, if no row is eligible, and else an eligible row that is not
-- after any other.
abbrev pub IsNext : ℕ → List ProcessingJob → Option ProcessingJob → Type 0
IsNext now jobs none = All (λ r. ¬ IsEligible now r) jobs
IsNext now jobs (some c) =
    Has c jobs × IsEligible now c × All (λ r. IsEligible now r → NotAfter c r) jobs

not_before : (c r : ProcessingJob) → runs_before r c ≡ false → NotAfter c r
unfolding runs_before
not_before c r h = ground arith

none_kept :
    (now : ℕ) (jobs : List ProcessingJob)
    → keep_if (eligible now) jobs ≡ []
    → All (λ r. ¬ IsEligible now r) jobs
none_kept now [] h = tt
none_kept now (r ∷ rs) h = elim (Bool-cases (eligible now r)) [
  | inl e ↦ absurd (cc (rw e at h))
  | inr e ↦ ((λ i. cc (IsEligible-eligible now r i, e)), none_kept now rs (rw e at h))
]

no_candidate :
    (now : ℕ) (jobs : List ProcessingJob)
    → candidate now jobs ≡ none
    → keep_if (eligible now) jobs ≡ []
unfolding candidate
no_candidate now jobs q =
    subst (IsFirst (keep_if (eligible now) jobs)) q
      (first_run-IsFirst (keep_if (eligible now) jobs))

-- The job that claim_next_job reads as its candidate is a row that is queued, due and not under a
-- lease that still runs, and no such row comes before it in the order of next_run_at and then
-- created_at; if it reads none, no row is such.
pub candidate-first : (now : ℕ) (jobs : List ProcessingJob) → IsNext now jobs (candidate now jobs)
candidate-first now jobs = by_candidate (candidate now jobs) refl
  where
    by_candidate : (o : Option ProcessingJob) → candidate now jobs ≡ o → IsNext now jobs o
    by_candidate none q = none_kept now jobs (no_candidate now jobs q)
    by_candidate (some c) q =
        let (has, able, least) = candidate-least now jobs c q in
        (
          has,
          eligible-IsEligible now c able,
          All-map (λ r. eligible now r ≡ true → runs_before r c ≡ false)
              (λ r. IsEligible now r → NotAfter c r)
              (λ r f i. not_before c r (f (IsEligible-eligible now r i))) jobs least,
        )

doubled : (n : ℕ) → 2 ^ suc n ≡ 2 * 2 ^ n
doubled n = pow-suc 2 n ∙ mul_comm (2 ^ n) 2

exponents : (n : ℕ) → (n + 1 - 1 ≡ n) × (n + 2 - 1 ≡ suc n) × (suc n - 1 ≡ n)
exponents n = omega arith

-- The retry delay never exceeds the maximum, never falls as the attempts grow, and below the maximum
-- each further attempt doubles it.
pub retry_delay_backoff :
    (attempt base maximum : ℕ)
    → (retry_delay attempt base maximum ≤ maximum)
      × (retry_delay attempt base maximum ≤ retry_delay (attempt + 1) base maximum)
      × (retry_delay (attempt + 2) base maximum
          ≡ min maximum (2 * retry_delay (attempt + 1) base maximum))
unfolding retry_delay
retry_delay_backoff zero base maximum = omega arith
retry_delay_backoff (suc n) base maximum =
    rw ((exponents (suc n)).0, (exponents (suc n)).1, (exponents n).2, doubled (suc n), doubled n)
      (omega arith)
