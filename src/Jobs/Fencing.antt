-- ===== src/Jobs/Fencing.antt =====
-- A worker that lost its lease can never write the job again.
use vendorops_ai.Base.{
  ℕ, String, ◌≡◌, ◌≢◌, refl, sym, Bool, true, false, some, List, [], ◌∷◌, arith, eq_iff, All,
  All-update_if, All-zip, All-Has, Has, inr, count_if, update_if, update_if-none,
}
use vendorops_ai.Db.{queued, ProcessingJob, Database, create_audit_log}
use vendorops_ai.Jobs.Lease.{
  has_id, claimable, lease, heartbeat_job, recover_expired_jobs, beats, prolong, recoverable,
  exhausted, requeue, give_up,
}
use vendorops_ai.Jobs.Finish.{
  RetrySettings, Requested, accepted, refused, requested, owned, complete, request_job_run,
  complete_job, fail_job, save_requested, save_status, flush_request, fail_values, is_terminal,
  null_safe_eq,
}
use vendorops_ai.Jobs.Keys.{Has-only, PrimaryKey}
use vendorops_ai.Jobs.Claims.{claim_won, claim_lost_unchanged}
use vendorops_ai.Jobs.Interleaving.{
  Handle, System, IsNew, Step, claim, claim_lost, heartbeat, recover, request, finish, error,
  created-IsNew, create, Reach, here, next,
}
use vendorops_ai.Jobs.Preserved.{null_safe_eq-eq}
use vendorops_ai.Repositories.Creates.{job_row, create_processing_job}
use vendorops_ai.Jobs.Safety.{SystemInv, Step-Inv, save_status-jobs}
use vendorops_ai.Jobs.Invariant.{trivial}

-- No row can be completed or failed through the handle.
abbrev pub Lost : Handle → List ProcessingJob → Type 0
Lost h = All (λ row. owned h.job h.worker row ≡ false)

false_of_not : (b : Bool) → (b ≡ true → ⊥) → b ≡ false
false_of_not true n = absurd (n refl)
false_of_not false n = refl

module _ (h : Handle) where
  lease-lost :
      (c : ProcessingJob) (now : ℕ) (w e : String) (ls : ℕ) (row : ProcessingJob)
      → h.job.execution_id ≢ some e
      → owned h.job h.worker (lease c now w e ls row) ≡ false
  unfolding owned lease
  lease-lost c now w e ls row n =
      let other =
        false_of_not (null_safe_eq (some e) h.job.execution_id)
          (λ q. n (sym (null_safe_eq-eq (some e) h.job.execution_id q))) in
      ground (arith, other)

  prolong-lost :
      (now ls : ℕ) (row : ProcessingJob)
      → owned h.job h.worker row ≡ false
      → owned h.job h.worker (prolong now ls row) ≡ false
  unfolding owned prolong
  prolong-lost now ls row o = o

  pub requeue-lost :
      (now : ℕ) (row : ProcessingJob) → owned h.job h.worker (requeue now row) ≡ false
  unfolding owned requeue
  requeue-lost now row = ground arith

  pub give_up-lost :
      (now : ℕ) (row : ProcessingJob) → owned h.job h.worker (give_up now row) ≡ false
  unfolding owned give_up
  give_up-lost now row = ground arith

  complete-lost : (now : ℕ) (row : ProcessingJob) → owned h.job h.worker (complete now row) ≡ false
  unfolding owned complete
  complete-lost now row = ground arith

  fail_values-lost :
      (now : ℕ) (settings : RetrySettings) (job : ProcessingJob) (m : String) (t : Bool)
      (row : ProcessingJob)
      → owned h.job h.worker (fail_values now settings job m t row) ≡ false
  unfolding owned fail_values
  fail_values-lost now settings job m t row = ground arith

  flush_request-lost :
      (now : ℕ) (c j : ProcessingJob)
      → requested now c ≡ accepted j
      → owned h.job h.worker (flush_request c.status now c c) ≡ false
  unfolding owned flush_request requested
  flush_request-lost now c j q = ground arith

  -- An update whose result the handle does not own.
  pub update-Lost :
      (F : ProcessingJob → Type 0) (p : ProcessingJob → Bool) (f : ProcessingJob → ProcessingJob)
      → ((x : ProcessingJob)
          → p x ≡ true
          → F x
          → owned h.job h.worker x ≡ false
          → owned h.job h.worker (f x) ≡ false)
      → (jobs : List ProcessingJob) → All F jobs
      → Lost h jobs
      → Lost h (update_if p f jobs)
  update-Lost F p f hit jobs facts lost =
      All-update_if (λ x. F x × (owned h.job h.worker x ≡ false))
        (λ x. owned h.job h.worker x ≡ false) p f (λ x b g. hit x b g.0 g.1) (λ x b g. g.1) jobs
        (All-zip F _ jobs facts lost)

  request-Lost :
      (now : ℕ) (a : String) (c : ProcessingJob) (r : Requested) (db : Database)
      → requested now c ≡ r
      → Has c db.jobs
      → PrimaryKey db.jobs
      → Lost h db.jobs
      → Lost h (save_requested r now a c db).1.jobs
  unfolding save_requested create_audit_log
  request-Lost now a c (refused e) db q has key lost = lost
  request-Lost now a c (accepted j) db q has key lost =
      update-Lost (λ x. x.id ≡ c.id → x ≡ c) (has_id c.id) (flush_request c.status now c)
        (λ x b f o. rw (f ((eq_iff x.id c.id).0 b)) (flush_request-lost now c j q)) db.jobs
        (Has-only c db.jobs key has) lost

  new-lost : (s : System) (j : ProcessingJob) → IsNew j s → owned h.job h.worker j ≡ false
  unfolding owned
  new-lost s j n = ground (arith, n.status)

  -- Once lost, a handle stays lost, whatever the workers, the recovery and the API do.
  pub Step-Lost :
      {s t : System} → Step s t → SystemInv s → Has h s.held → Lost h s.db.jobs → Lost h t.db.jobs
  Step-Lost (claim s c j now w e ls has fresh won) i held lost =
      let (able, same, after) = claim_won c now w e ls s.db j has i.key won in
      let unheld =
        All-Has (λ (k : Handle). k.job.execution_id ≢ some e) h s.held fresh.handles held in
      rw after (
        update-Lost (λ x. Unit) (claimable now c.id) (lease c now w e ls)
          (λ x b u o. lease-lost c now w e ls x unheld) s.db.jobs (trivial s.db.jobs) lost)
  Step-Lost (claim_lost s c now w e ls nothing) i held lost =
      rw (claim_lost_unchanged c now w e ls s.db nothing) lost
  Step-Lost (heartbeat s now id w e ls) i held lost =
      unfold heartbeat_job in
      update-Lost (λ x. Unit) (beats now id w e) (prolong now ls)
        (λ x b u o. prolong-lost now ls x o) s.db.jobs (trivial s.db.jobs) lost
  Step-Lost (recover s now) i held lost =
      unfold recover_expired_jobs in
      update-Lost (λ x. Unit) (exhausted now) (give_up now) (λ x b u o. give_up-lost now x)
        (update_if (recoverable now) (requeue now) s.db.jobs)
        (trivial (update_if (recoverable now) (requeue now) s.db.jobs))
        (update-Lost (λ x. Unit) (recoverable now) (requeue now) (λ x b u o. requeue-lost now x)
          s.db.jobs (trivial s.db.jobs) lost)
  Step-Lost (request s now a c has) i held lost =
      unfold request_job_run in request-Lost now a c (requested now c) s.db refl has i.key lost
  Step-Lost (finish s now a k has) i held lost =
      unfold complete_job in
      rw save_status-jobs (
        update-Lost (λ x. Unit) (owned k.job k.worker) (complete now)
          (λ x b u o. complete-lost now x) s.db.jobs (trivial s.db.jobs) lost)
  Step-Lost (error s now a settings k m r has) i held lost =
      unfold fail_job in
      rw save_status-jobs (
        update-Lost (λ x. Unit) (owned k.job k.worker)
          (fail_values now settings k.job m (is_terminal k.job r))
          (λ x b u o. fail_values-lost now settings k.job m (is_terminal k.job r) x) s.db.jobs
          (trivial s.db.jobs) lost)
  Step-Lost (create s now a e p fresh) i held lost =
      unfold create_processing_job in
      unfold create_audit_log in (new-lost s (job_row now e) (created-IsNew now e s p fresh), lost)

  Step-held : {s t : System} → Step s t → Has h s.held → Has h t.held
  Step-held (claim s c j now w e ls has fresh won) held = inr held
  Step-held (claim_lost s c now w e ls nothing) held = held
  Step-held (heartbeat s now id w e ls) held = held
  Step-held (recover s now) held = held
  Step-held (request s now a c has) held = held
  Step-held (finish s now a k has) held = held
  Step-held (error s now a settings k m r has) held = held
  Step-held (create s now a e p fresh) held = held

  pub Reach-Lost :
      {s t : System}
      → SystemInv s
      → Has h s.held
      → Lost h s.db.jobs
      → Reach s t
      → SystemInv t × Has h t.held × Lost h t.db.jobs
  Reach-Lost i held lost here = (i, held, lost)
  Reach-Lost i held lost (next r st) =
      let (i', held', lost') = Reach-Lost i held lost r in
      (Step-Inv st i', Step-held st held', Step-Lost st i' held' lost')

  count-Lost : (jobs : List ProcessingJob) → Lost h jobs → count_if (owned h.job h.worker) jobs ≡ 0
  count-Lost [] l = refl
  count-Lost (x ∷ xs) l = rw l.0 (omega (arith, count-Lost xs l.1))

  pub complete-Lost :
      (now : ℕ) (a : String) (db : Database)
      → Lost h db.jobs
      → complete_job now a h.job h.worker db ≡ (false, db)
  unfolding complete_job save_status
  complete-Lost now a db l = rw (
    count-Lost db.jobs l,
    update_if-none (owned h.job h.worker) (complete now) db.jobs (count-Lost db.jobs l),
  )

  pub fail-Lost :
      (now : ℕ) (a : String) (settings : RetrySettings) (m : String) (r : Bool) (db : Database)
      → Lost h db.jobs
      → fail_job now a settings h.job h.worker m r db ≡ (queued, db)
  unfolding fail_job save_status
  fail-Lost now a settings m r db l =
      rw
        (
          count-Lost db.jobs l,
          update_if-none (owned h.job h.worker)
              (fail_values now settings h.job m (is_terminal h.job r)) db.jobs
              (count-Lost db.jobs l),
        )
        (ground arith)
