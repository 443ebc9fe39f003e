-- ===== src/Repositories/Creates.antt =====
-- The create_ functions of app/db/repositories.py for uploads, jobs and findings, and the update of a
-- job's status. Each adds its row and an audit log in one commit. The ids that the columns default to
-- and the instant are arguments.
use vendorops_ai.Base.{
  ℕ, String, Option, none, some, List, [], ◌∷◌, ◌++◌, map, length, count_if, str_eq,
}
use vendorops_ai.Db.{
  text, number, queued, UploadedFile, ProcessingJob, ValidationError, Database, str_or_none,
  text_or_null, create_audit_log,
}
use vendorops_ai.Validation.{ValidationSeverity, info, warning, error, ValidationFinding}

-- The keyword arguments of create_uploaded_file.
pub record FileEntry : Type 0 where
  pub file_id : String
  pub organization_id : Option String
  pub workspace_id : Option String
  pub original_filename : String
  pub content_type : String
  pub file_type : String
  pub size_bytes : ℕ
  pub sha256_hash : String
  pub storage_path : String

unfoldable pub file_row : ℕ → FileEntry → UploadedFile
file_row now f = record {
  id = f.file_id;
  organization_id = str_or_none f.organization_id;
  workspace_id = str_or_none f.workspace_id;
  original_filename = f.original_filename;
  content_type = f.content_type;
  file_type = f.file_type;
  size_bytes = f.size_bytes;
  sha256_hash = f.sha256_hash;
  storage_path = f.storage_path;
  status = "uploaded";
  created_at = now;
  updated_at = now;
}

unfoldable pub create_uploaded_file : ℕ → String → FileEntry → Database → UploadedFile × Database
unfolding file_row create_audit_log
create_uploaded_file now audit_id f db = (
  file_row now f,
  create_audit_log now audit_id "system" "file.uploaded" "uploaded_file" (some f.file_id)
      f.organization_id f.workspace_id
      (some (
        ("original_filename", text f.original_filename)
        ∷ ("content_type", text f.content_type)
        ∷ ("size_bytes", number f.size_bytes)
        ∷ ("sha256_hash", text f.sha256_hash)
        ∷ []))
      (record db { uploaded_files = db.uploaded_files ++ file_row now f ∷ [] }),
)

-- The keyword arguments of create_processing_job.
pub record JobEntry : Type 0 where
  pub job_id : String
  pub file_id : String
  pub pipeline : String
  pub organization_id : Option String
  pub workspace_id : Option String
  pub max_attempts : ℕ

unfoldable pub job_row : ℕ → JobEntry → ProcessingJob
job_row now e = record {
  id = e.job_id;
  organization_id = str_or_none e.organization_id;
  workspace_id = str_or_none e.workspace_id;
  file_id = e.file_id;
  pipeline = e.pipeline;
  status = queued;
  error_message = none;
  attempts = 0;
  max_attempts = e.max_attempts;
  next_run_at = now;
  started_at = none;
  completed_at = none;
  failed_at = none;
  lease_owner = none;
  lease_expires_at = none;
  execution_id = none;
  execution_metadata = none;
  created_at = now;
  updated_at = now;
}

unfoldable pub create_processing_job : ℕ → String → JobEntry → Database → ProcessingJob × Database
unfolding job_row create_audit_log
create_processing_job now audit_id e db = (
  job_row now e,
  create_audit_log now audit_id "system" "job.created" "processing_job" (some e.job_id)
      e.organization_id e.workspace_id
      (some (("file_id", text e.file_id) ∷ ("pipeline", text e.pipeline) ∷ []))
      (record db { jobs = job_row now e ∷ db.jobs }),
)

unfoldable pub severity_value : ValidationSeverity → String
severity_value info = "info"
severity_value warning = "warning"
severity_value error = "error"

-- The arguments of create_validation_errors but the findings.
pub record FindingsEntry : Type 0 where
  pub record_id : String
  pub job_id : Option String
  pub organization_id : Option String
  pub workspace_id : Option String

unfoldable pub finding_row : ℕ → FindingsEntry → String × ValidationFinding → ValidationError
unfolding severity_value
finding_row now e (id, f) = record {
  id = id;
  organization_id = str_or_none e.organization_id;
  workspace_id = str_or_none e.workspace_id;
  record_id = some e.record_id;
  job_id = str_or_none e.job_id;
  field_name = f.field_name;
  error_type = f.error_type;
  message = f.message;
  severity = severity_value f.severity;
  created_at = now;
}

-- Each finding comes with the id that its row draws.
unfoldable pub create_validation_errors :
    ℕ
    → String
    → FindingsEntry
    → List (String × ValidationFinding)
    → Database
    → List ValidationError × Database
unfolding finding_row create_audit_log severity_value
create_validation_errors now audit_id e findings db = (
  map (finding_row now e) findings,
  create_audit_log now audit_id "system" "record.validated" "extracted_record" (some e.record_id)
      e.organization_id e.workspace_id
      (some (
        ("job_id", text_or_null (str_or_none e.job_id))
        ∷ ("finding_count", number (length findings))
        ∷ (
          "error_count",
          number (count_if (λ p. str_eq (severity_value p.1.severity) "error") findings),
        )
        ∷ []))
      (record db { validation_errors = db.validation_errors ++ map (finding_row now e) findings }),
)
