-- ===== src/Worker.antt =====
-- app/workers/document_jobs.py: one round of the polling worker.
pub mod Rounds
mod Examples
use vendorops_ai.Base.{
  ℕ, String, Bool, true, false, not, ◌||◌, Option, none, some, [], ◌∷◌, if◌then◌else◌,
}
use vendorops_ai.Db.{
  text, null, flag, JobStatus, queued, running, completed, failed, other, ProcessingJob, Database,
  create_extraction_error,
}
use vendorops_ai.Jobs.{
  claim_next_job, recover_expired_jobs, RetrySettings, complete_job, fail_job, is_running,
}

-- What a handler can raise, by the classes that run_once tells apart, with `str(exc)`. PipelineInputError
-- is a PipelineError; of any other class the name is kept.
pub data Raised : Type 0 where
  pipeline_error pipeline_input_error : String → Raised
  value_error other_error : String → String → Raised

unfoldable pub message : Raised → String
message (pipeline_error m) = m
message (pipeline_input_error m) = m
message (value_error t m) = m
message (other_error t m) = m

-- `type(exc).__name__`
type_name : Raised → String
type_name (pipeline_error m) = "PipelineError"
type_name (pipeline_input_error m) = "PipelineInputError"
type_name (value_error t m) = t
type_name (other_error t m) = t

is_pipeline_error : Raised → Bool
is_pipeline_error (pipeline_error m) = true
is_pipeline_error (pipeline_input_error m) = true
is_pipeline_error (value_error t m) = false
is_pipeline_error (other_error t m) = false

-- `not isinstance(exc, (PipelineError, PipelineInputError, ValueError))`
unfoldable pub is_retryable : Raised → Bool
is_retryable (pipeline_error m) = false
is_retryable (pipeline_input_error m) = false
is_retryable (value_error t m) = false
is_retryable (other_error t m) = true

-- The handler, with all that other sessions and the heartbeat of this worker commit while it runs.
abbrev pub Handler : Type 0
Handler = ProcessingJob → Database → Option Raised × Database

pub record WorkerSettings : Type 0 where
  pub lease_duration : ℕ
  pub retry : RetrySettings

-- The instants that a round reads and the ids that it draws.
pub record Draws : Type 0 where
  pub recover_now : ℕ
  pub claim_now : ℕ
  pub finish_now : ℕ
  pub execution_id : String
  pub audit_id : String
  pub error_id : String
  pub error_audit_id : String

is_failed : JobStatus → Bool
is_failed failed = true
is_failed _ = false

-- The row that a worker error adds; a PipelineError was recorded by the pipeline.
record_error : Raised → JobStatus → String → Draws → ProcessingJob → Database → Database
unfolding type_name message is_failed
record_error exc outcome worker_id d job db =
    create_extraction_error d.finish_now d.error_id d.error_audit_id
      (record {
        stage = "worker";
        error_type = type_name exc;
        message = message exc;
        retryable = not (is_failed outcome);
        attempt = job.attempts;
        organization_id = none;
        workspace_id = none;
        job_id = some job.id;
        file_id = some job.file_id;
        details = some (
            ("worker_id", text worker_id)
            ∷ ("execution_id", elim job.execution_id [ none ↦ null | some e ↦ text e ])
            ∷ ("terminal", flag (is_failed outcome))
            ∷ []);
      })
      db

-- The `except` and the `else` branch of run_once.
unfoldable pub settle :
    WorkerSettings → String → Draws → ProcessingJob → Option Raised → Database → Database
unfolding record_error is_pipeline_error message is_retryable
settle s worker_id d job none db = (complete_job d.finish_now d.audit_id job worker_id db).1
settle s worker_id d job (some exc) db =
    let (outcome, failed_db) =
      fail_job d.finish_now d.audit_id s.retry job worker_id (message exc) (is_retryable exc) db in
    if is_pipeline_error exc then failed_db else record_error exc outcome worker_id d job failed_db

unfoldable pub handle_claim :
    WorkerSettings → String → Handler → Draws → Option ProcessingJob × Database → Bool × Database
unfolding settle
handle_claim s worker_id handler d (none, db) = (false, db)
handle_claim s worker_id handler d (some job, db) =
    let (raised, handled) = handler job db in (true, settle s worker_id d job raised handled)

unfoldable pub run_once : WorkerSettings → String → Handler → Draws → Database → Bool × Database
unfolding handle_claim
run_once s worker_id handler d db = handle_claim s worker_id handler d (
    claim_next_job d.claim_now worker_id d.execution_id s.lease_duration
      (recover_expired_jobs d.recover_now db).1)
