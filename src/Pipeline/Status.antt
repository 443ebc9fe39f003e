-- ===== src/Pipeline/Status.antt =====
-- update_processing_job_status of app/db/repositories.py. The session writes the columns that differ
-- from the object that it holds, by the object's id, and then reads the row again.
use vendorops_ai.Base.{
  ℕ, String, ◌&&◌, Option, none, some, [], ◌∷◌, str_eq, find_if, update_if, if◌then◌else◌,
}
use vendorops_ai.Db.{text, JobStatus, ProcessingJob, Database, text_or_null, create_audit_log}
use vendorops_ai.Jobs.{status_text, null_safe_eq}
use vendorops_ai.Retry.{Outcome, returned, raised}
use vendorops_ai.Pipeline.Errors.{StageError, other}

-- The columns of the UPDATE.
unfoldable pub assign :
    ℕ → ProcessingJob → JobStatus → Option String → ProcessingJob → ProcessingJob
unfolding status_text
assign now job status error row =
    let same_status = str_eq (status_text job.status) (status_text status) in
    let same_error = null_safe_eq job.error_message error in
    record row {
      status = if same_status then row.status else status;
      error_message = if same_error then row.error_message else error;
      updated_at = if same_status && same_error then row.updated_at else now;
    }

-- session.refresh; with no row to write or to read the session raises and rolls back to `db`.
refreshed : Option ProcessingJob → Database → Database → Outcome ProcessingJob StageError × Database
refreshed none db written = (
  raised (
      other "StaleDataError"
        "UPDATE statement on table 'processing_jobs' expected to update 1 row(s); 0 were matched."),
  db,
)
refreshed (some row) db written = (returned row, written)

unfoldable pub update_processing_job_status :
    ℕ
    → String
    → ProcessingJob
    → JobStatus
    → Option String
    → Database
    → Outcome ProcessingJob StageError × Database
unfolding assign refreshed create_audit_log
update_processing_job_status now audit_id job status error db =
    let written =
      create_audit_log now audit_id "system" "job.status_updated" "processing_job" (some job.id)
        job.organization_id job.workspace_id
        (some (("status", text (status_text status)) ∷ ("error_message", text_or_null error) ∷ []))
        (record db {
          jobs =
              update_if (λ (row : ProcessingJob). str_eq row.id job.id)
                (assign now job status error) db.jobs;
        }) in
    refreshed (find_if (λ (row : ProcessingJob). str_eq row.id job.id) written.jobs) db written
