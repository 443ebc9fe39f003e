-- ===== src/Pipeline.antt =====
-- app/pipeline/document_pipeline.py: run_document_pipeline over the parser and the extractor, which
-- act on a world of their own. The parser's and the extractor's stage, the writes after them and the
-- `except` branch are functions of their own. The log entries are not modelled.
pub mod Errors
pub mod Status
pub mod Stages
pub mod Stored
pub mod Failed
pub mod Rounds
pub mod Again
pub mod Whole
mod Examples
use vendorops_ai.Base.{
  ℕ, String, Bool, true, false, not, Option, none, some, List, [], ◌∷◌, str_eq, str_append,
  if◌then◌else◌,
}
use vendorops_ai.Db.{
  text, JobStatus, running, completed, failed, UploadedFile, ProcessingJob, Database, ErrorEntry,
  str_or_none, create_extraction_error,
}
use vendorops_ai.Retry.{Outcome, returned, raised}
use vendorops_ai.Worker.{Raised, pipeline_error, pipeline_input_error, other_error}
use vendorops_ai.Repositories.Reads.{get_uploaded_file}
use vendorops_ai.Repositories.Creates.{create_processing_job}
use vendorops_ai.Pipeline.Errors.{
  StageError, error_text, is_caught, stage_of, cause_type, cause_text, attempts_of, uncaught,
}
use vendorops_ai.Pipeline.Status.{update_processing_job_status}
use vendorops_ai.Pipeline.Stages.{
  Environment, PipelineSettings, PipelineDraws, Run, DocumentPipelineResult, try_parse,
}

-- `a or b` of two optional ids
unfoldable pub or_else : Option String → Option String → Option String
or_else a b = elim (str_or_none a) [ none ↦ str_or_none b | some s ↦ some s ]

-- The row that the `except` branch adds.
unfoldable pub failure_entry : Run → StageError → ErrorEntry
unfolding stage_of cause_type cause_text attempts_of
failure_entry r e = record {
  stage = stage_of e;
  error_type = cause_type e;
  message = cause_text e;
  retryable = false;
  attempt = attempts_of e;
  organization_id = r.organization_id;
  workspace_id = r.workspace_id;
  job_id = some r.job.id;
  file_id = some r.file_id;
  details = some (("pipeline", text r.job.pipeline) ∷ []);
}

unfoldable pub record_failure : PipelineDraws → Run → StageError → Database → Database
unfolding failure_entry create_extraction_error
record_failure d r e db =
    create_extraction_error d.failed_now d.failure_id d.failure_audit_id (failure_entry r e) db

-- update_processing_job_status(..., status="failed"), which may itself raise.
unfoldable pub failed_status :
    StageError → Outcome ProcessingJob StageError × Database → Raised × Database
unfolding error_text uncaught
failed_status e (returned job, db) = (pipeline_error (error_text e), db)
failed_status e (raised e', db) = (uncaught e', db)

unfoldable pub mark_failed : Bool → PipelineDraws → Run → StageError → Database → Raised × Database
unfolding failed_status update_processing_job_status
mark_failed false d r e db = (pipeline_error (error_text e), db)
mark_failed true d r e db = failed_status e (
    update_processing_job_status d.failed_now d.failed_status_audit_id r.job failed
      (some (error_text e)) db)

-- The `except` branch; what it does not name is raised on.
unfoldable pub handle_error : Bool → PipelineDraws → Run → StageError → Database → Raised × Database
unfolding record_failure is_caught mark_failed uncaught
handle_error manage d r e db =
    if is_caught e then mark_failed manage d r e (record_failure d r e db) else (uncaught e, db)

module _ {W : Type 0} (env : Environment W) (settings : PipelineSettings) where
  -- From the end of the `try` on.
  unfoldable pub concluded :
      Bool
      → PipelineDraws
      → Run
      → Outcome DocumentPipelineResult StageError × Database × W
      → Outcome DocumentPipelineResult Raised × Database × W
  unfolding handle_error
  concluded manage d r (returned x, db, w) = (returned x, db, w)
  concluded manage d r (raised e, db, w) =
      let (exc, db') = handle_error manage d r e db in (raised exc, db', w)

  -- From `job_id = UUID(job.id)` on.
  unfoldable pub try_run :
      Bool
      → PipelineDraws
      → Run
      → UploadedFile
      → Database
      → W
      → Outcome DocumentPipelineResult Raised × Database × W
  unfolding concluded try_parse
  try_run manage d r file db w = concluded manage d r (try_parse env settings manage d r file db w)

  unfoldable pub started :
      PipelineDraws
      → Run
      → UploadedFile
      → Outcome ProcessingJob StageError × Database
      → W
      → Outcome DocumentPipelineResult Raised × Database × W
  unfolding try_run uncaught
  started d r file (returned job, db) w = try_run true d (record r { job = job }) file db w
  started d r file (raised e, db) w = (raised (uncaught e), db, w)

  -- `if manage_job_status`
  unfoldable pub mark_running :
      Bool
      → PipelineDraws
      → Run
      → UploadedFile
      → Database
      → W
      → Outcome DocumentPipelineResult Raised × Database × W
  unfolding try_run started update_processing_job_status
  mark_running false d r file db w = try_run false d r file db w
  mark_running true d r file db w =
      started d r file
        (update_processing_job_status d.running_now d.running_audit_id r.job running none db) w

  -- The job that is given, or a new one with the default of three attempts.
  unfoldable pub with_job :
      Bool
      → PipelineDraws
      → Option ProcessingJob
      → String
      → Option String
      → Option String
      → UploadedFile
      → Database
      → W
      → Outcome DocumentPipelineResult Raised × Database × W
  unfolding mark_running or_else create_processing_job
  with_job manage d none file_id o w' file db w =
      let (job, db') =
        create_processing_job d.created_now d.created_audit_id
          (record {
            job_id = d.job_id;
            file_id = file_id;
            pipeline = "document_extraction";
            organization_id = or_else o file.organization_id;
            workspace_id = or_else w' file.workspace_id;
            max_attempts = 3;
          })
          db in
      mark_running manage d
        (record {
          job = job;
          file_id = file_id;
          organization_id = or_else o file.organization_id;
          workspace_id = or_else w' file.workspace_id;
        })
        file db' w
  with_job manage d (some job) file_id o w' file db w =
      if not (str_eq job.pipeline "document_extraction")
      then (
        raised (
            pipeline_input_error
              (str_append "Unsupported pipeline '" (str_append job.pipeline "'."))),
        db,
        w,
      )
      else mark_running manage d
          (record { job = job; file_id = file_id; organization_id = o; workspace_id = w' }) file db
          w

  unfoldable pub with_file :
      Bool
      → PipelineDraws
      → Option ProcessingJob
      → String
      → Option String
      → Option String
      → Option UploadedFile
      → Database
      → W
      → Outcome DocumentPipelineResult Raised × Database × W
  unfolding with_job
  with_file manage d job file_id o w' none db w = (
    raised (pipeline_input_error (str_append "File '" (str_append file_id "' was not found."))),
    db,
    w,
  )
  with_file manage d job file_id o w' (some file) db w =
      with_job manage d job file_id o w' file db w

  unfoldable pub job_organization : Option ProcessingJob → Option String → Option String
  unfolding or_else
  job_organization none o = o
  job_organization (some job) o = or_else o job.organization_id

  unfoldable pub job_workspace : Option ProcessingJob → Option String → Option String
  unfolding or_else
  job_workspace none w' = w'
  job_workspace (some job) w' = or_else w' job.workspace_id

  unfoldable pub run_document_pipeline :
      Bool
      → PipelineDraws
      → Option ProcessingJob
      → String
      → Option String
      → Option String
      → Database
      → W
      → Outcome DocumentPipelineResult Raised × Database × W
  unfolding with_file get_uploaded_file job_organization job_workspace
  run_document_pipeline manage d job file_id organization workspace db w =
      let o = job_organization job organization in
      let w' = job_workspace job workspace in
      with_file manage d job file_id o w' (get_uploaded_file o w' file_id db) db w
