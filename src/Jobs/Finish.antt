-- ===== src/Jobs/Finish.antt =====
-- app/workers/durable.py: request_job_run, complete_job and fail_job.
use vendorops_ai.Base.{
  ℕ, zero, suc, ◌+◌, String, Bool, true, false, not, ◌&&◌, ◌||◌, Option, none, some, [], ◌∷◌, ltb,
  leb, ◌==◌, opt_eq, str_eq, if◌then◌else◌, count_if, update_if,
}
use vendorops_ai.Db.{
  null, text, Details, JobStatus, queued, running, completed, failed, other, ProcessingJob,
  Database, create_audit_log,
}
use vendorops_ai.Jobs.Lease.{has_id}
use vendorops_ai.Jobs.Status.{is_running, status_text, retry_delay}

pub data RunRequestError : Type 0 where
  already_completed already_running cannot_queue : RunRequestError

pub data Requested : Type 0 where
  accepted : ProcessingJob → Requested
  refused : RunRequestError → Requested

-- What request_job_run makes of the job object.
reset_lease : ℕ → ProcessingJob → ProcessingJob
reset_lease now job = record job {
  next_run_at = now;
  error_message = none;
  lease_owner = none;
  lease_expires_at = none;
  execution_id = none;
  updated_at = now;
}

reopen : ProcessingJob → ProcessingJob
reopen job = record job { status = queued; failed_at = none; attempts = 0 }

requested_on : JobStatus → ℕ → ProcessingJob → Requested
requested_on completed now job = refused already_completed
requested_on running now job = refused already_running
requested_on failed now job = accepted (reset_lease now (reopen job))
requested_on queued now job = accepted (reset_lease now job)
requested_on (other s) now job = refused cannot_queue

unfoldable pub requested : ℕ → ProcessingJob → Requested
unfolding requested_on reset_lease reopen
requested now job = requested_on job.status now job

-- The flush writes a column of the row only where the assigned value differs from the loaded one.
assigned : ℕ → ℕ → ℕ → ℕ
assigned loaded value current = if loaded == value then current else value

unfoldable pub cleared : {A : Type 0} → Option A → Option A → Option A
cleared none current = current
cleared (some a) current = none

-- The row after the flush of the reset; `job` is the object as it was loaded.
flush_reset : ℕ → ProcessingJob → ProcessingJob → ProcessingJob
unfolding assigned cleared
flush_reset now job row = record row {
  next_run_at = assigned job.next_run_at now row.next_run_at;
  error_message = cleared job.error_message row.error_message;
  lease_owner = cleared job.lease_owner row.lease_owner;
  lease_expires_at = cleared job.lease_expires_at row.lease_expires_at;
  execution_id = cleared job.execution_id row.execution_id;
  updated_at = assigned job.updated_at now row.updated_at;
}

flush_reopen : ProcessingJob → ProcessingJob → ProcessingJob
unfolding assigned cleared
flush_reopen job row = record row {
  status = queued;
  failed_at = cleared job.failed_at row.failed_at;
  attempts = assigned job.attempts 0 row.attempts;
}

unfoldable pub flush_request : JobStatus → ℕ → ProcessingJob → ProcessingJob → ProcessingJob
unfolding flush_reset flush_reopen
flush_request failed now job row = flush_reset now job (flush_reopen job row)
flush_request _ now job row = flush_reset now job row

unfoldable pub save_requested :
    Requested → ℕ → String → ProcessingJob → Database → Requested × Database
unfolding flush_request create_audit_log
save_requested (refused e) now audit_id job db = (refused e, db)
save_requested (accepted j) now audit_id job db = (
  accepted j,
  create_audit_log now audit_id "system" "job.run_requested" "processing_job" (some job.id) none
      none (some (("status", text (status_text queued)) ∷ []))
      (record db { jobs = update_if (has_id job.id) (flush_request job.status now job) db.jobs }),
)

unfoldable pub request_job_run : ℕ → String → ProcessingJob → Database → Requested × Database
unfolding save_requested requested
request_job_run now audit_id job db = save_requested (requested now job) now audit_id job db

-- `column == value`, which SQLAlchemy writes as IS NULL where the value is None.
abbrev pub null_safe_eq : Option String → Option String → Bool
null_safe_eq none none = true
null_safe_eq (some s) (some t) = str_eq s t
null_safe_eq _ _ = false

-- The WHERE clause of complete_job and fail_job.
unfoldable pub owned : ProcessingJob → String → ProcessingJob → Bool
owned job worker_id row =
    str_eq row.id job.id
    && is_running row.status
    && opt_eq row.lease_owner worker_id
    && null_safe_eq row.execution_id job.execution_id

unfoldable pub complete : ℕ → ProcessingJob → ProcessingJob
complete now row = record row {
  status = completed;
  completed_at = some now;
  lease_owner = none;
  lease_expires_at = none;
  updated_at = now;
}

status_details : JobStatus → ProcessingJob → Details
status_details s job =
    ("status", text (status_text s))
    ∷ ("execution_id", elim job.execution_id [ none ↦ null | some e ↦ text e ])
    ∷ []

audit_status : ℕ → String → JobStatus → ProcessingJob → Database → Database
unfolding create_audit_log status_details
audit_status now audit_id s job db =
    create_audit_log now audit_id "system" "job.status_updated" "processing_job" (some job.id) none
      none (some (status_details s job)) db

-- `if result.rowcount`, and then the commit.
unfoldable pub save_status : ℕ → ℕ → String → JobStatus → ProcessingJob → Database → Database
unfolding audit_status
save_status zero now audit_id s job db = db
save_status (suc n) now audit_id s job db = audit_status now audit_id s job db

unfoldable pub complete_job : ℕ → String → ProcessingJob → String → Database → Bool × Database
unfolding owned complete save_status
complete_job now audit_id job worker_id db =
    let rowcount = count_if (owned job worker_id) db.jobs in
    (
      rowcount == 1,
      save_status rowcount now audit_id completed job
          (record db { jobs = update_if (owned job worker_id) (complete now) db.jobs }),
    )

unfoldable pub is_terminal : ProcessingJob → Bool → Bool
is_terminal job retryable = not retryable || leb job.max_attempts job.attempts

-- The retry settings of the worker.
pub record RetrySettings : Type 0 where
  pub retry_base_seconds : ℕ
  pub retry_max_seconds : ℕ

unfoldable pub fail_values :
    ℕ → RetrySettings → ProcessingJob → String → Bool → ProcessingJob → ProcessingJob
unfolding retry_delay
fail_values now settings job error terminal row =
    let released = record row {
      error_message = some error;
      lease_owner = none;
      lease_expires_at = none;
      updated_at = now;
    } in
    if terminal
    then record released { status = failed; failed_at = some now }
    else record released {
      status = queued;
      next_run_at =
          now + retry_delay job.attempts settings.retry_base_seconds settings.retry_max_seconds;
    }

fail_status : Bool → JobStatus
fail_status true = failed
fail_status false = queued

unfoldable pub fail_job :
    ℕ
    → String
    → RetrySettings
    → ProcessingJob
    → String
    → String
    → Bool
    → Database
    → JobStatus × Database
unfolding is_terminal owned fail_values fail_status save_status
fail_job now audit_id settings job worker_id error retryable db =
    let terminal = is_terminal job retryable in
    let rowcount = count_if (owned job worker_id) db.jobs in
    (
      fail_status (terminal && ltb 0 rowcount),
      save_status rowcount now audit_id (fail_status terminal) job (record db {
        jobs =
            update_if (owned job worker_id) (fail_values now settings job error terminal) db.jobs;
      }),
    )
