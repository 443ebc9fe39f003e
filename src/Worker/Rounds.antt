-- ===== src/Worker/Rounds.antt =====
-- What one round of the worker does to the job that it claims.
use vendorops_ai.Base.{
  String, ◌≡◌, refl, true, false, none, some, All, Bool-cases, inl, inr, update_if,
}
use vendorops_ai.Db.{JobStatus, ProcessingJob, Database, create_extraction_error}
use vendorops_ai.Jobs.{
  candidate, lease, claimable, claim_next_job, recover_expired_jobs, owned, claim_candidate,
}
use vendorops_ai.Jobs.Keys.{PrimaryKey}
use vendorops_ai.Jobs.Claims.{claim_next_job_leases}
use vendorops_ai.Jobs.Outcomes.{IsSettled, fail_job_settles}
use vendorops_ai.Worker.{
  Raised, message, is_retryable, is_pipeline_error, Handler, WorkerSettings, Draws, record_error,
  settle, run_once,
}

record_error-jobs :
    (exc : Raised) (st : JobStatus) (w : String) (d : Draws) (job : ProcessingJob) (db : Database)
    → (record_error exc st w d job db).jobs ≡ db.jobs
unfolding record_error create_extraction_error
record_error-jobs exc st w d job db = refl

-- When the handler raises and the worker still owns the row of its job, the round leaves that row
-- settled: failed for good if the exception is a PipelineError or a ValueError or if the attempts are
-- used up, and else queued to run again after the delay; the message is that of the exception.
pub settle_settles :
    (s : WorkerSettings) (w : String) (d : Draws) (job : ProcessingJob) (exc : Raised)
    (db : Database)
    → All (λ row. row.id ≡ job.id → owned job w row ≡ true) db.jobs
    → All
        (λ row.
          row.id ≡ job.id → IsSettled d.finish_now s.retry job (message exc) (is_retryable exc) row)
        (settle s w d job (some exc) db).jobs
unfolding settle
settle_settles s w d job exc db h = elim (Bool-cases (is_pipeline_error exc)) [
  | inl p ↦
      rw p (
        fail_job_settles d.finish_now d.audit_id s.retry job w (message exc) (is_retryable exc) db
          h)
  | inr p ↦
      rw (p, record_error-jobs)
        (fail_job_settles d.finish_now d.audit_id s.retry job w (message exc) (is_retryable exc) db
          h)
]

-- When ids are unique, a round that finds an eligible job after the recovery claims the first one: it
-- hands the leased job to the handler, settles what the handler leaves, and returns True.
pub run_once_claims :
    (s : WorkerSettings) (w : String) (handler : Handler) (d : Draws) (db : Database)
    (c : ProcessingJob)
    → PrimaryKey (recover_expired_jobs d.recover_now db).1.jobs
    → candidate d.claim_now (recover_expired_jobs d.recover_now db).1.jobs ≡ some c
    → let recovered = (recover_expired_jobs d.recover_now db).1 in
      let job = lease c d.claim_now w d.execution_id s.lease_duration c in
      let claimed = record recovered {
        jobs =
            update_if
              (claimable d.claim_now c.id)
              (lease c d.claim_now w d.execution_id s.lease_duration)
              recovered.jobs;
      } in
      run_once s w handler d db
      ≡ (true, settle s w d job (handler job claimed).0 (handler job claimed).1)
unfolding run_once
run_once_claims s w handler d db c key h = rw (
    claim_next_job_leases d.claim_now w d.execution_id s.lease_duration c
      (recover_expired_jobs d.recover_now db).1 key h)

-- A round that finds no eligible job after the recovery returns False, runs no handler and leaves the
-- recovered tables.
pub run_once_idle :
    (s : WorkerSettings) (w : String) (handler : Handler) (d : Draws) (db : Database)
    → candidate d.claim_now (recover_expired_jobs d.recover_now db).1.jobs ≡ none
    → run_once s w handler d db ≡ (false, (recover_expired_jobs d.recover_now db).1)
unfolding run_once claim_next_job
run_once_idle s w handler d db h = rw (h, claim_candidate)
