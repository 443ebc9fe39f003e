-- ===== src/Jobs/Preserved.antt =====
-- Each operation of durable.py keeps the invariant of the table and the handles.
use vendorops_ai.Base.{
  ℕ, String, ◌≡◌, ◌≢◌, refl, ap, Bool, true, false, none, some, List, ◌∷◌, arith, eq_iff, All,
  All-map, All-update_if, All-Has, All-zip, Has, update_if, Option,
}
use vendorops_ai.Db.{ProcessingJob}
use vendorops_ai.Jobs.Status.{is_running}
use vendorops_ai.Jobs.Lease.{
  eligible, lease, claimable, beats, prolong, recoverable, exhausted, requeue, give_up,
}
use vendorops_ai.Jobs.Finish.{
  RetrySettings, requested, accepted, flush_request, owned, complete, is_terminal, fail_values,
}
use vendorops_ai.Jobs.Rows.{
  lease-IsSound, prolong-IsSound, requeue-IsSound, give_up-IsSound, complete-IsSound,
  fail_values-IsSound, flush_request-IsSound,
}
use vendorops_ai.Jobs.Keys.{Has-only}
use vendorops_ai.Jobs.Interleaving.{Handle}
use vendorops_ai.Jobs.Lease.{has_id}
use vendorops_ai.Jobs.Finish.{null_safe_eq}
use vendorops_ai.Jobs.Invariant.{
  Agrees, Inv, lease-Agrees, prolong-Agrees, requeue-Agrees, give_up-Agrees, complete-Agrees,
  fail_values-Agrees, update-Inv, every, trivial,
}

pub heartbeat-Inv :
    (jobs : List ProcessingJob) (held : List Handle) (now : ℕ) (id w e : String) (ls : ℕ)
    → Inv jobs held
    → Inv (update_if (beats now id w e) (prolong now ls) jobs) held
heartbeat-Inv jobs held now id w e ls i =
    update-Inv (λ x. Unit) (beats now id w e) (prolong now ls) (λ x. unfold prolong in refl)
      (λ x b u. prolong-IsSound now id w e ls x b) jobs held
      (every _ (λ h x b u. prolong-Agrees h now ls x) held) (trivial jobs) i

pub recover-Inv :
    (jobs : List ProcessingJob) (held : List Handle) (now : ℕ)
    → Inv jobs held
    → Inv
        (update_if (exhausted now) (give_up now) (update_if (recoverable now) (requeue now) jobs))
        held
recover-Inv jobs held now i =
    let requeued = update_if (recoverable now) (requeue now) jobs in
    update-Inv (λ x. Unit) (exhausted now) (give_up now) (λ x. unfold give_up in refl)
      (λ x b u. give_up-IsSound now x b) requeued held
      (every _ (λ h x b u a. give_up-Agrees h now x) held) (trivial requeued)
      (update-Inv (λ x. Unit) (recoverable now) (requeue now) (λ x. unfold requeue in refl)
        (λ x b u. requeue-IsSound now x b) jobs held
        (every _ (λ h x b u a. requeue-Agrees h now x) held) (trivial jobs) i)

pub finish-Inv :
    (jobs : List ProcessingJob) (held : List Handle) (now : ℕ) (h : Handle)
    → Inv jobs held
    → Inv (update_if (owned h.job h.worker) (complete now) jobs) held
finish-Inv jobs held now h i =
    update-Inv (λ x. Unit) (owned h.job h.worker) (complete now) (λ x. unfold complete in refl)
      (λ x b u. complete-IsSound now h.job h.worker x b) jobs held
      (every _ (λ k x b u a. complete-Agrees k now x) held) (trivial jobs) i

pub null_safe_eq-eq : (a b : Option String) → null_safe_eq a b ≡ true → a ≡ b
null_safe_eq-eq none none h = refl
null_safe_eq-eq none (some t) h = cc
null_safe_eq-eq (some s) none h = cc
null_safe_eq-eq (some s) (some t) h = ap some ((eq_iff s t).0 h)

pub owned-agrees :
    (h : Handle) (row : ProcessingJob)
    → owned h.job h.worker row ≡ true
    → (is_running row.status ≡ true) × (row.execution_id ≡ h.job.execution_id)
unfolding owned
owned-agrees h row o =
    (ground arith, null_safe_eq-eq row.execution_id h.job.execution_id (ground arith))

fail_values_id :
    (now : ℕ) (settings : RetrySettings) (job : ProcessingJob) (m : String) (t : Bool)
    (x : ProcessingJob)
    → x.id ≡ (fail_values now settings job m t x).id
unfolding fail_values
fail_values_id now settings job m true x = refl
fail_values_id now settings job m false x = refl

pub error-Inv :
    (jobs : List ProcessingJob) (held : List Handle) (now : ℕ) (settings : RetrySettings)
    (h : Handle) (m : String) (r : Bool)
    → Has h held
    → Inv jobs held
    → Inv
        (update_if
          (owned h.job h.worker)
          (fail_values now settings h.job m (is_terminal h.job r))
          jobs)
        held
error-Inv jobs held now settings h m r has i =
    update-Inv (Agrees h) (owned h.job h.worker)
      (fail_values now settings h.job m (is_terminal h.job r))
      (λ x. fail_values_id now settings h.job m (is_terminal h.job r) x)
      (λ x b a.
        let (run, same) = owned-agrees h x b in
        let facts = a.agree run same in
        fail_values-IsSound now settings h.job m r x facts.1 facts.2)
      jobs held
      (every _ (λ k x b u a. fail_values-Agrees k now settings h.job m (is_terminal h.job r) x)
        held)
      (All-Has (λ k. All (Agrees k) jobs) h held i.agrees has) i

flush_request_id : (now : ℕ) (c x : ProcessingJob) → x.id ≡ (flush_request c.status now c x).id
unfolding flush_request
flush_request_id now c x = ground arith

flush_request-Agrees :
    (h : Handle) (now : ℕ) (c j : ProcessingJob)
    → requested now c ≡ accepted j
    → Agrees h (flush_request c.status now c c)
unfolding requested flush_request
flush_request-Agrees h now c j q = record { agree = λ r e. ground arith }

pub request-Inv :
    (jobs : List ProcessingJob) (held : List Handle) (now : ℕ) (c j : ProcessingJob)
    → Has c jobs
    → requested now c ≡ accepted j
    → Inv jobs held
    → Inv (update_if (has_id c.id) (flush_request c.status now c) jobs) held
request-Inv jobs held now c j has q i =
    update-Inv (λ x. x.id ≡ c.id → x ≡ c) (has_id c.id) (flush_request c.status now c)
      (flush_request_id now c)
      (λ x b f s.
        let e : x ≡ c = f ((eq_iff x.id c.id).0 b) in
        let (same, sound) = flush_request-IsSound now c j q (rw (← e) s) in rw (e, same) sound)
      jobs held
      (every _
        (λ h x b f a.
          let e : x ≡ c = f ((eq_iff x.id c.id).0 b) in rw e (flush_request-Agrees h now c j q))
        held)
      (Has-only c jobs i.key has) i

claimable-parts :
    (now : ℕ) (id : String) (x : ProcessingJob)
    → claimable now id x ≡ true
    → (x.id ≡ id) × (eligible now x ≡ true)
unfolding claimable
claimable-parts now id x h = (ground (arith, eq_iff x.id id), ground arith)

-- The handle that a claim adds agrees with the table that the claim leaves.
claimed-Agrees :
    (now : ℕ) (w e : String) (ls : ℕ) (c : ProcessingJob) (jobs : List ProcessingJob)
    → All (λ (r : ProcessingJob). r.execution_id ≢ some e) jobs
    → All (λ r. r.id ≡ c.id → r ≡ c) jobs
    → All
        (Agrees (record { worker = w; job = lease c now w e ls c }))
        (update_if (claimable now c.id) (lease c now w e ls) jobs)
unfolding lease
claimed-Agrees now w e ls c jobs fresh only =
    let handle : Handle = record { worker = w; job = lease c now w e ls c } in
    All-update_if (λ x. (x.execution_id ≢ some e) × (x.id ≡ c.id → x ≡ c)) (Agrees handle)
      (claimable now c.id) (lease c now w e ls)
      (λ x b h.
        let q : x ≡ c = h.1 (claimable-parts now c.id x b).0 in
        rw q (record { agree = λ r s. (refl, refl, refl, refl) }))
      (λ x b h. record { agree = λ r s. absurd (h.0 s) }) jobs (All-zip _ _ jobs fresh only)

pub claim-Inv :
    (jobs : List ProcessingJob) (held : List Handle) (c : ProcessingJob) (now : ℕ) (w e : String)
    (ls : ℕ)
    → Has c jobs
    → All (λ (r : ProcessingJob). r.execution_id ≢ some e) jobs
    → All (λ (h : Handle). h.job.execution_id ≢ some e) held
    → Inv jobs held
    → Inv
        (update_if (claimable now c.id) (lease c now w e ls) jobs)
        (record { worker = w; job = lease c now w e ls c } ∷ held)
claim-Inv jobs held c now w e ls has fresh unheld i =
    let only = Has-only c jobs i.key has in
    let kept =
      update-Inv (λ x. x.id ≡ c.id → x ≡ c) (claimable now c.id) (lease c now w e ls)
        (λ x. unfold lease in refl)
        (λ x b f s.
          let (same, able) = claimable-parts now c.id x b in
          let q : x ≡ c = f same in rw q (lease-IsSound now w e ls c (rw (← q) able) (rw (← q) s)))
        jobs held
        (All-map (λ (h : Handle). h.job.execution_id ≢ some e) _
          (λ h n x b f a. lease-Agrees h now w e ls c x n) held unheld)
        only i in
    record {
      key = kept.key;
      sound = kept.sound;
      agrees = (claimed-Agrees now w e ls c jobs fresh only, kept.agrees);
    }
