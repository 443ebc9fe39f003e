-- ===== src/Api/Jobs.antt =====
-- app/api/routes/jobs.py, and the extraction request of app/api/routes/files.py, behind the permission
-- "pipeline:write". A status that is none of the four makes pydantic raise, which is a code 500.
use vendorops_ai.Base.{ℕ, String, Option, none, some, str_append}
use vendorops_ai.Db.{
  JobStatus, queued, running, completed, failed, other, UploadedFile, ProcessingJob, Database,
}
use vendorops_ai.Auth.{Tables, AuthContext}
use vendorops_ai.Jobs.{
  Requested, accepted, refused, RunRequestError, already_completed, already_running, cannot_queue,
  request_job_run, status_text,
}
use vendorops_ai.Repositories.Reads.{get_uploaded_file, get_processing_job}
use vendorops_ai.Repositories.Creates.{create_processing_job}
use vendorops_ai.Api.Guard.{
  Reply, replies, http_error, Admission, require_permission_dependency, guarded, on_db,
  organization_id, workspace_id,
}

pub record ProcessingJobResponse : Type 0 where
  pub job_id : String
  pub file_id : String
  pub pipeline : String
  pub status : JobStatus
  pub created_at : ℕ
  pub updated_at : ℕ
  pub error_message : Option String
  pub attempts : ℕ
  pub max_attempts : ℕ
  pub next_run_at : ℕ
  pub started_at : Option ℕ
  pub completed_at : Option ℕ
  pub failed_at : Option ℕ

unfoldable pub to_processing_job_response : ProcessingJob → ProcessingJobResponse
to_processing_job_response job = record {
  job_id = job.id;
  file_id = job.file_id;
  pipeline = job.pipeline;
  status = job.status;
  created_at = job.created_at;
  updated_at = job.updated_at;
  error_message = job.error_message;
  attempts = job.attempts;
  max_attempts = job.max_attempts;
  next_run_at = job.next_run_at;
  started_at = job.started_at;
  completed_at = job.completed_at;
  failed_at = job.failed_at;
}

checked_reply : JobStatus → ℕ → ProcessingJob → Reply ProcessingJobResponse
unfolding to_processing_job_response
checked_reply (other s) code job = http_error 500 "Internal Server Error"
checked_reply queued code job = replies code (to_processing_job_response job)
checked_reply running code job = replies code (to_processing_job_response job)
checked_reply completed code job = replies code (to_processing_job_response job)
checked_reply failed code job = replies code (to_processing_job_response job)

unfoldable pub job_reply : ℕ → ProcessingJob → Reply ProcessingJobResponse
unfolding checked_reply
job_reply code job = checked_reply job.status code job

-- "... was not found."
unfoldable pub not_found : {A : Type 0} → String → String → Reply A
not_found what id =
    http_error 404 (str_append what (str_append " '" (str_append id "' was not found.")))

-- What a job that is created draws, and settings.worker_max_attempts.
pub record NewJob : Type 0 where
  pub job_id : String
  pub audit_id : String
  pub now : ℕ
  pub max_attempts : ℕ

-- From the lookup of the file on.
job_for_file :
    ℕ
    → NewJob
    → String
    → String
    → AuthContext
    → Option UploadedFile
    → Database
    → Reply ProcessingJobResponse × Database
unfolding not_found job_reply create_processing_job organization_id workspace_id
job_for_file code n file_id pipeline c none db = (not_found "File" file_id, db)
job_for_file code n file_id pipeline c (some file) db =
    let (job, db') =
      create_processing_job n.now n.audit_id
        (record {
          job_id = n.job_id;
          file_id = file_id;
          pipeline = pipeline;
          organization_id = organization_id c;
          workspace_id = workspace_id c;
          max_attempts = n.max_attempts;
        })
        db in
    (job_reply code job, db')

request_error : String → JobStatus → RunRequestError → String
unfolding status_text
request_error id status already_completed =
    str_append "Job '" (str_append id "' has already completed.")
request_error id status already_running = str_append "Job '" (str_append id "' is already running.")
request_error id status cannot_queue =
    str_append "Cannot queue job "
      (str_append id (str_append " from " (str_append (status_text status) ".")))

run_reply : ProcessingJob → Requested × Database → Reply ProcessingJobResponse × Database
unfolding job_reply request_error
run_reply job (accepted j, db) = (job_reply 202 j, db)
run_reply job (refused e, db) = (http_error 409 (request_error job.id job.status e), db)

run_found :
    ℕ → String → String → Option ProcessingJob → Database → Reply ProcessingJobResponse × Database
unfolding run_reply not_found request_job_run
run_found now audit_id job_id none db = (not_found "Job" job_id, db)
run_found now audit_id job_id (some job) db = run_reply job (request_job_run now audit_id job db)

unfoldable pub found_reply : String → Option ProcessingJob → Reply ProcessingJobResponse
unfolding not_found job_reply
found_reply job_id none = not_found "Job" job_id
found_reply job_id (some job) = job_reply 200 job

module _ (hash_token : String → String) (request_now : ℕ) (header : Option String) where
  admission : String → Tables → Admission
  unfolding require_permission_dependency
  admission permission t = require_permission_dependency hash_token permission request_now header t

  job_body :
      ℕ → NewJob → String → String → AuthContext → Tables → Reply ProcessingJobResponse × Tables
  unfolding job_for_file on_db organization_id workspace_id get_uploaded_file
  job_body code n file_id pipeline c t =
      on_db
        (job_for_file code n file_id pipeline c
          (get_uploaded_file (organization_id c) (workspace_id c) file_id t.db) t.db)
        t

  -- POST /jobs
  unfoldable pub create_job :
      NewJob → String → String → Tables → Reply ProcessingJobResponse × Tables
  unfolding guarded admission job_body
  create_job n file_id pipeline t =
      guarded (admission "pipeline:write" t) (job_body 201 n file_id pipeline) t

  -- POST /files/{file_id}/extract
  unfoldable pub extract_uploaded_file :
      NewJob → String → Tables → Reply ProcessingJobResponse × Tables
  unfolding guarded admission job_body
  extract_uploaded_file n file_id t =
      guarded (admission "pipeline:write" t) (job_body 202 n file_id "document_extraction") t

  get_body : String → AuthContext → Tables → Reply ProcessingJobResponse × Tables
  unfolding found_reply get_processing_job organization_id workspace_id
  get_body job_id c t =
      (found_reply job_id (get_processing_job (organization_id c) (workspace_id c) job_id t.db), t)

  -- GET /jobs/{job_id}
  unfoldable pub get_job : String → Tables → Reply ProcessingJobResponse × Tables
  unfolding guarded admission get_body
  get_job job_id t = guarded (admission "pipeline:write" t) (get_body job_id) t

  run_body : ℕ → String → String → AuthContext → Tables → Reply ProcessingJobResponse × Tables
  unfolding run_found on_db get_processing_job organization_id workspace_id
  run_body now audit_id job_id c t =
      on_db
        (run_found now audit_id job_id
          (get_processing_job (organization_id c) (workspace_id c) job_id t.db) t.db)
        t

  -- POST /jobs/{job_id}/run
  unfoldable pub run_job : ℕ → String → String → Tables → Reply ProcessingJobResponse × Tables
  unfolding guarded admission run_body
  run_job now audit_id job_id t =
      guarded (admission "pipeline:write" t) (run_body now audit_id job_id) t
