-- ===== src/Db/Models.antt =====
-- app/db/models.py: a record for each mapped class. Identifiers are texts, instants are numbers of
-- clock ticks, JSON columns are lists of named values. Relationships are the id columns.
use vendorops_ai.Base.{ℕ, String, Bool, Option, List, []}

-- The values that the code puts into JSON columns.
pub data Value : Type 0 where
  null : Value
  text : String → Value
  number : ℕ → Value
  flag : Bool → Value

abbrev pub Details : Type 0
Details = List (String × Value)

-- The `status` column is a text; these are the values that the code writes, and any other.
pub data JobStatus : Type 0 where
  queued running completed failed : JobStatus
  other : String → JobStatus

pub record ProcessingJob : Type 0 where
  pub id : String
  pub organization_id : Option String
  pub workspace_id : Option String
  pub file_id : String
  pub pipeline : String
  pub status : JobStatus
  pub error_message : Option String
  pub attempts : ℕ
  pub max_attempts : ℕ
  pub next_run_at : ℕ
  pub started_at : Option ℕ
  pub completed_at : Option ℕ
  pub failed_at : Option ℕ
  pub lease_owner : Option String
  pub lease_expires_at : Option ℕ
  pub execution_id : Option String
  pub execution_metadata : Option Details
  pub created_at : ℕ
  pub updated_at : ℕ

pub record AuditLog : Type 0 where
  pub id : String
  pub organization_id : Option String
  pub workspace_id : Option String
  pub actor : String
  pub action : String
  pub entity_type : String
  pub entity_id : Option String
  pub details : Option Details
  pub created_at : ℕ

pub record ExtractionErrorLog : Type 0 where
  pub id : String
  pub organization_id : Option String
  pub workspace_id : Option String
  pub job_id : Option String
  pub file_id : Option String
  pub stage : String
  pub error_type : String
  pub message : String
  pub retryable : Bool
  pub attempt : ℕ
  pub details : Option Details
  pub created_at : ℕ

pub record UploadedFile : Type 0 where
  pub id : String
  pub organization_id : Option String
  pub workspace_id : Option String
  pub original_filename : String
  pub content_type : String
  pub file_type : String
  pub size_bytes : ℕ
  pub sha256_hash : String
  pub storage_path : String
  pub status : String
  pub created_at : ℕ
  pub updated_at : ℕ

-- A confidence is a number of millionths, which the code compares and prints.
pub record ExtractedRecord : Type 0 where
  pub id : String
  pub organization_id : Option String
  pub workspace_id : Option String
  pub file_id : String
  pub job_id : Option String
  pub record_type : String
  pub vendor_name : Option String
  pub external_reference : Option String
  pub normalized_payload : Details
  pub raw_payload : Option Details
  pub confidence : Option ℕ
  pub created_at : ℕ

pub record ValidationError : Type 0 where
  pub id : String
  pub organization_id : Option String
  pub workspace_id : Option String
  pub record_id : Option String
  pub job_id : Option String
  pub field_name : Option String
  pub error_type : String
  pub message : String
  pub severity : String
  pub created_at : ℕ

pub record GeneratedReport : Type 0 where
  pub id : String
  pub organization_id : Option String
  pub workspace_id : Option String
  pub report_type : String
  pub status : String
  pub parameters : Details
  pub storage_path : Option String
  pub created_at : ℕ

pub record Organization : Type 0 where
  pub id : String
  pub name : String
  pub slug : String
  pub plan : String
  pub created_at : ℕ
  pub updated_at : ℕ

pub record Workspace : Type 0 where
  pub id : String
  pub organization_id : String
  pub name : String
  pub slug : String
  pub created_at : ℕ
  pub updated_at : ℕ

pub record UserAccount : Type 0 where
  pub id : String
  pub email : String
  pub full_name : String
  pub password_hash : String
  pub is_active : Bool
  pub created_at : ℕ
  pub updated_at : ℕ

pub record Membership : Type 0 where
  pub id : String
  pub user_id : String
  pub organization_id : String
  pub workspace_id : String
  pub role : String
  pub created_at : ℕ

pub record AuthSession : Type 0 where
  pub id : String
  pub user_id : String
  pub token_hash : String
  pub expires_at : ℕ
  pub revoked_at : Option ℕ
  pub created_at : ℕ

-- The tables of the pipeline. An operation gives the tables after its commit.
pub record Database : Type 0 where
  pub uploaded_files : List UploadedFile
  pub jobs : List ProcessingJob
  pub extracted_records : List ExtractedRecord
  pub validation_errors : List ValidationError
  pub audit_logs : List AuditLog
  pub extraction_errors : List ExtractionErrorLog
  pub generated_reports : List GeneratedReport

abbrev pub empty_database : Database
empty_database = record {
  uploaded_files = [];
  jobs = [];
  extracted_records = [];
  validation_errors = [];
  audit_logs = [];
  extraction_errors = [];
  generated_reports = [];
}
