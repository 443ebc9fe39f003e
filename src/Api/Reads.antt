-- ===== src/Api/Reads.antt =====
-- The routes that read: app/api/routes/records.py, validation.py, observability.py, the listing and
-- the lookup of reports.py, and the login of auth.py. FastAPI checks that a limit is from 1 to 200.
use vendorops_ai.Base.{ℕ, String, Bool, Option, none, some, List, map}
use vendorops_ai.Db.{
  Details, ExtractedRecord, ValidationError, GeneratedReport, AuditLog, ExtractionErrorLog,
}
use vendorops_ai.Auth.{Tables, AuthContext}
use vendorops_ai.Repositories.Reads.{
  get_extracted_record, get_generated_report, list_extracted_records, list_validation_errors,
  list_validation_errors_for_record, list_generated_reports, list_audit_logs,
  list_extraction_errors,
}
use vendorops_ai.Api.Guard.{
  Reply, replies, require_permission_dependency, guarded, organization_id, workspace_id,
}
use vendorops_ai.Api.Jobs.{not_found}

pub record ExtractedRecordResponse : Type 0 where
  pub record_id : String
  pub file_id : String
  pub job_id : Option String
  pub record_type : String
  pub vendor_name : Option String
  pub external_reference : Option String
  pub confidence : Option ℕ
  pub normalized_payload : Details
  pub raw_payload : Option Details
  pub created_at : ℕ

to_record_response : ExtractedRecord → ExtractedRecordResponse
to_record_response r = record {
  record_id = r.id;
  file_id = r.file_id;
  job_id = r.job_id;
  record_type = r.record_type;
  vendor_name = r.vendor_name;
  external_reference = r.external_reference;
  confidence = r.confidence;
  normalized_payload = r.normalized_payload;
  raw_payload = r.raw_payload;
  created_at = r.created_at;
}

pub record ValidationErrorResponse : Type 0 where
  pub validation_error_id : String
  pub record_id : Option String
  pub job_id : Option String
  pub field_name : Option String
  pub error_type : String
  pub message : String
  pub severity : String
  pub created_at : ℕ

to_validation_error_response : ValidationError → ValidationErrorResponse
to_validation_error_response e = record {
  validation_error_id = e.id;
  record_id = e.record_id;
  job_id = e.job_id;
  field_name = e.field_name;
  error_type = e.error_type;
  message = e.message;
  severity = e.severity;
  created_at = e.created_at;
}

pub record GeneratedReportResponse : Type 0 where
  pub report_id : String
  pub report_type : String
  pub status : String
  pub parameters : Details
  pub storage_path : Option String
  pub created_at : ℕ

to_report_response : GeneratedReport → GeneratedReportResponse
to_report_response r = record {
  report_id = r.id;
  report_type = r.report_type;
  status = r.status;
  parameters = r.parameters;
  storage_path = r.storage_path;
  created_at = r.created_at;
}

pub record AuditLogResponse : Type 0 where
  pub audit_log_id : String
  pub actor : String
  pub action : String
  pub entity_type : String
  pub entity_id : Option String
  pub details : Option Details
  pub created_at : ℕ

to_audit_log_response : AuditLog → AuditLogResponse
to_audit_log_response a = record {
  audit_log_id = a.id;
  actor = a.actor;
  action = a.action;
  entity_type = a.entity_type;
  entity_id = a.entity_id;
  details = a.details;
  created_at = a.created_at;
}

pub record ExtractionErrorResponse : Type 0 where
  pub error_id : String
  pub job_id : Option String
  pub file_id : Option String
  pub stage : String
  pub error_type : String
  pub message : String
  pub retryable : Bool
  pub attempt : ℕ
  pub details : Option Details
  pub created_at : ℕ

to_extraction_error_response : ExtractionErrorLog → ExtractionErrorResponse
to_extraction_error_response e = record {
  error_id = e.id;
  job_id = e.job_id;
  file_id = e.file_id;
  stage = e.stage;
  error_type = e.error_type;
  message = e.message;
  retryable = e.retryable;
  attempt = e.attempt;
  details = e.details;
  created_at = e.created_at;
}

record_reply : String → Option ExtractedRecord → Reply ExtractedRecordResponse
unfolding to_record_response not_found
record_reply id none = not_found "Record" id
record_reply id (some r) = replies 200 (to_record_response r)

report_reply : String → Option GeneratedReport → Reply GeneratedReportResponse
unfolding to_report_response not_found
report_reply id none = not_found "Report" id
report_reply id (some r) = replies 200 (to_report_response r)

module _ (hash_token : String → String) (now : ℕ) (header : Option String) (t : Tables) where
  -- A route that only reads, behind a permission.
  reading : {A : Type 0} → String → (AuthContext → Reply A) → Reply A × Tables
  unfolding guarded require_permission_dependency
  reading permission body =
      guarded (require_permission_dependency hash_token permission now header t)
        (λ c u. (body c, u)) t

  -- GET /records
  unfoldable pub list_records : Reply (List ExtractedRecordResponse) × Tables
  unfolding reading to_record_response list_extracted_records organization_id workspace_id
  list_records = reading "analytics:read" (λ c.
      replies 200
        (map to_record_response (list_extracted_records (organization_id c) (workspace_id c) t.db)))

  -- GET /records/{record_id}
  unfoldable pub get_record : String → Reply ExtractedRecordResponse × Tables
  unfolding reading record_reply get_extracted_record organization_id workspace_id
  get_record id =
      reading "analytics:read"
        (λ c. record_reply id (get_extracted_record (organization_id c) (workspace_id c) id t.db))

  -- GET /validation-errors
  unfoldable pub get_validation_errors : Reply (List ValidationErrorResponse) × Tables
  unfolding reading to_validation_error_response list_validation_errors organization_id workspace_id
  get_validation_errors = reading "analytics:read" (λ c. replies 200 (
      map to_validation_error_response
        (list_validation_errors (organization_id c) (workspace_id c) t.db)))

  -- GET /validation-errors/records/{record_id}
  unfoldable pub get_record_validation_errors :
      String → Reply (List ValidationErrorResponse) × Tables
  unfolding reading to_validation_error_response list_validation_errors_for_record organization_id
      workspace_id
  get_record_validation_errors id = reading "analytics:read" (λ c. replies 200 (
      map to_validation_error_response
        (list_validation_errors_for_record (organization_id c) (workspace_id c) id t.db)))

  -- GET /reports
  unfoldable pub get_reports : Reply (List GeneratedReportResponse) × Tables
  unfolding reading to_report_response list_generated_reports organization_id workspace_id
  get_reports = reading "report:read" (λ c.
      replies 200
        (map to_report_response (list_generated_reports (organization_id c) (workspace_id c) t.db)))

  -- GET /reports/{report_id}
  unfoldable pub get_report : String → Reply GeneratedReportResponse × Tables
  unfolding reading report_reply get_generated_report organization_id workspace_id
  get_report id =
      reading "report:read"
        (λ c. report_reply id (get_generated_report (organization_id c) (workspace_id c) id t.db))

  -- GET /audit-logs
  unfoldable pub get_audit_logs : ℕ → Reply (List AuditLogResponse) × Tables
  unfolding reading to_audit_log_response list_audit_logs organization_id workspace_id
  get_audit_logs limit = reading "audit:read" (λ c.
      replies 200 (
        map to_audit_log_response
          (list_audit_logs (organization_id c) (workspace_id c) limit t.db)))

  -- GET /extraction-errors
  unfoldable pub get_extraction_errors : ℕ → Reply (List ExtractionErrorResponse) × Tables
  unfolding reading to_extraction_error_response list_extraction_errors organization_id workspace_id
  get_extraction_errors limit = reading "audit:read" (λ c. replies 200 (
      map to_extraction_error_response
        (list_extraction_errors (organization_id c) (workspace_id c) limit t.db)))
