-- ===== src/Repositories/Reads.antt =====
-- The get_ and list_ functions of app/db/repositories.py.
use vendorops_ai.Base.{ℕ, zero, suc, String, Option, List, [], ◌∷◌, opt_eq, keep_if}
use vendorops_ai.Db.{
  UploadedFile, ProcessingJob, ExtractedRecord, ValidationError, GeneratedReport, AuditLog,
  ExtractionErrorLog, Database,
}
use vendorops_ai.Repositories.Tenant.{Scoped, list_rows, get_row}

abbrev pub uploaded_files : Scoped UploadedFile
uploaded_files = record {
  id = λ r. r.id;
  organization_id = λ r. r.organization_id;
  workspace_id = λ r. r.workspace_id;
  created_at = λ r. r.created_at;
}

abbrev pub processing_jobs : Scoped ProcessingJob
processing_jobs = record {
  id = λ r. r.id;
  organization_id = λ r. r.organization_id;
  workspace_id = λ r. r.workspace_id;
  created_at = λ r. r.created_at;
}

abbrev pub extracted_records : Scoped ExtractedRecord
extracted_records = record {
  id = λ r. r.id;
  organization_id = λ r. r.organization_id;
  workspace_id = λ r. r.workspace_id;
  created_at = λ r. r.created_at;
}

abbrev pub validation_errors : Scoped ValidationError
validation_errors = record {
  id = λ r. r.id;
  organization_id = λ r. r.organization_id;
  workspace_id = λ r. r.workspace_id;
  created_at = λ r. r.created_at;
}

abbrev pub generated_reports : Scoped GeneratedReport
generated_reports = record {
  id = λ r. r.id;
  organization_id = λ r. r.organization_id;
  workspace_id = λ r. r.workspace_id;
  created_at = λ r. r.created_at;
}

abbrev pub audit_logs : Scoped AuditLog
audit_logs = record {
  id = λ r. r.id;
  organization_id = λ r. r.organization_id;
  workspace_id = λ r. r.workspace_id;
  created_at = λ r. r.created_at;
}

abbrev pub extraction_errors : Scoped ExtractionErrorLog
extraction_errors = record {
  id = λ r. r.id;
  organization_id = λ r. r.organization_id;
  workspace_id = λ r. r.workspace_id;
  created_at = λ r. r.created_at;
}

-- limit(n)
unfoldable pub take : {A : Type 0} → ℕ → List A → List A
take zero xs = []
take (suc n) [] = []
take (suc n) (x ∷ xs) = x ∷ take n xs

module _ (organization workspace : Option String) where
  unfoldable pub get_uploaded_file : String → Database → Option UploadedFile
  unfolding get_row
  get_uploaded_file file_id db =
      get_row uploaded_files file_id organization workspace db.uploaded_files

  unfoldable pub get_processing_job : String → Database → Option ProcessingJob
  unfolding get_row
  get_processing_job job_id db = get_row processing_jobs job_id organization workspace db.jobs

  unfoldable pub get_extracted_record : String → Database → Option ExtractedRecord
  unfolding get_row
  get_extracted_record record_id db =
      get_row extracted_records record_id organization workspace db.extracted_records

  unfoldable pub get_generated_report : String → Database → Option GeneratedReport
  unfolding get_row
  get_generated_report report_id db =
      get_row generated_reports report_id organization workspace db.generated_reports

  unfoldable pub list_extracted_records : Database → List ExtractedRecord
  unfolding list_rows
  list_extracted_records db =
      list_rows extracted_records organization workspace db.extracted_records

  unfoldable pub list_validation_errors : Database → List ValidationError
  unfolding list_rows
  list_validation_errors db =
      list_rows validation_errors organization workspace db.validation_errors

  unfoldable pub list_validation_errors_for_record : String → Database → List ValidationError
  unfolding list_rows
  list_validation_errors_for_record record_id db =
      list_rows validation_errors organization workspace
        (keep_if (λ (r : ValidationError). opt_eq r.record_id record_id) db.validation_errors)

  unfoldable pub list_generated_reports : Database → List GeneratedReport
  unfolding list_rows
  list_generated_reports db =
      list_rows generated_reports organization workspace db.generated_reports

  unfoldable pub list_audit_logs : ℕ → Database → List AuditLog
  unfolding list_rows take
  list_audit_logs limit db = take limit (list_rows audit_logs organization workspace db.audit_logs)

  unfoldable pub list_extraction_errors : ℕ → Database → List ExtractionErrorLog
  unfolding list_rows take
  list_extraction_errors limit db =
      take limit (list_rows extraction_errors organization workspace db.extraction_errors)
