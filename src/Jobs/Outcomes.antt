-- ===== src/Jobs/Outcomes.antt =====
-- What fail_job, complete_job and request_job_run do to the row of their job.
use vendorops_ai.Base.{
  ℕ, ◌+◌, String, ◌≡◌, refl, Bool, true, none, some, arith, All, All-update_if, if◌then◌else◌, not,
  ◌||◌, leb,
}
use vendorops_ai.Db.{queued, completed, failed, ProcessingJob, Database}
use vendorops_ai.Jobs.Status.{retry_delay}
use vendorops_ai.Jobs.Finish.{
  RetrySettings, owned, is_terminal, fail_values, fail_job, complete, complete_job,
}
use vendorops_ai.Jobs.Safety.{save_status-jobs}

-- The row that a failure leaves: failed for good, or queued again after the delay.
pub record IsSettled (now : ℕ) (settings : RetrySettings) (job : ProcessingJob) (error : String)
    (retryable : Bool) (row : ProcessingJob) : Type 0 where
  pub status :
      row.status ≡ (if not retryable || leb job.max_attempts job.attempts then failed else queued)
  pub message : row.error_message ≡ some error
  pub released : (row.lease_owner ≡ none) × (row.lease_expires_at ≡ none)
  pub delayed :
      row.status ≡ queued
      → row.next_run_at
        ≡ now + retry_delay job.attempts settings.retry_base_seconds settings.retry_max_seconds
  pub stamped : row.status ≡ failed → row.failed_at ≡ some now

fail_values-IsSettled :
    (now : ℕ) (settings : RetrySettings) (job : ProcessingJob) (error : String) (retryable : Bool)
    (row : ProcessingJob)
    → IsSettled now settings job error retryable
        (fail_values now settings job error (is_terminal job retryable) row)
unfolding fail_values is_terminal
fail_values-IsSettled now settings job error retryable row = ground arith

-- When every row with the id of the job is owned by the worker, fail_job leaves that row released and
-- with the error message: failed when the error is not retryable or the attempts are used up, and
-- queued otherwise, to run again after the retry delay of the job's attempts.
pub fail_job_settles :
    (now : ℕ) (a : String) (settings : RetrySettings) (job : ProcessingJob) (w error : String)
    (retryable : Bool) (db : Database)
    → All (λ row. row.id ≡ job.id → owned job w row ≡ true) db.jobs
    → All
        (λ row. row.id ≡ job.id → IsSettled now settings job error retryable row)
        (fail_job now a settings job w error retryable db).1.jobs
unfolding fail_job
fail_job_settles now a settings job w error retryable db h = rw save_status-jobs (
    All-update_if (λ row. row.id ≡ job.id → owned job w row ≡ true)
      (λ row. row.id ≡ job.id → IsSettled now settings job error retryable row) (owned job w)
      (fail_values now settings job error (is_terminal job retryable))
      (λ x b f e. fail_values-IsSettled now settings job error retryable x)
      (λ x b f e. absurd (cc (f e))) db.jobs h)

-- The row that a completion leaves.
pub record IsCompleted (now : ℕ) (row : ProcessingJob) : Type 0 where
  pub status : row.status ≡ completed
  pub released : (row.lease_owner ≡ none) × (row.lease_expires_at ≡ none)
  pub stamped : row.completed_at ≡ some now

pub complete_job_completes :
    (now : ℕ) (a : String) (job : ProcessingJob) (w : String) (db : Database)
    → All (λ row. row.id ≡ job.id → owned job w row ≡ true) db.jobs
    → All (λ row. row.id ≡ job.id → IsCompleted now row) (complete_job now a job w db).1.jobs
unfolding complete_job complete
complete_job_completes now a job w db h = rw save_status-jobs (
    All-update_if (λ row. row.id ≡ job.id → owned job w row ≡ true)
      (λ row. row.id ≡ job.id → IsCompleted now row) (owned job w) (complete now)
      (λ x b f e. record { status = refl; released = (refl, refl); stamped = refl })
      (λ x b f e. absurd (cc (f e))) db.jobs h)
