-- ===== src/Db/Audit.antt =====
-- create_audit_log and create_extraction_error of app/db/repositories.py. The ids that the columns
-- default to (new_uuid) are arguments, and so is the instant that `created_at` defaults to.
use vendorops_ai.Base.{ℕ, String, Bool, Option, none, some, [], ◌∷◌, ◌++◌, str_eq, if◌then◌else◌}
use vendorops_ai.Db.Models.{Value, null, text, number, flag, Details, ExtractionErrorLog, Database}

-- `str(x) if x else None`: the empty text is no id.
abbrev pub str_or_none : Option String → Option String
str_or_none none = none
str_or_none (some s) = if str_eq s "" then none else some s

abbrev pub text_or_null : Option String → Value
text_or_null none = null
text_or_null (some s) = text s

-- The new row is added at the end of the table.
unfoldable pub create_audit_log :
    ℕ
    → String
    → String
    → String
    → String
    → Option String
    → Option String
    → Option String
    → Option Details
    → Database
    → Database
create_audit_log now id actor action entity_type entity_id organization_id workspace_id details db =
    record db {
      audit_logs =
          db.audit_logs
          ++ (record {
            id = id;
            organization_id = str_or_none organization_id;
            workspace_id = str_or_none workspace_id;
            actor = actor;
            action = action;
            entity_type = entity_type;
            entity_id = entity_id;
            details = details;
            created_at = now;
          })
            ∷ [];
    }

-- The keyword arguments of create_extraction_error.
pub record ErrorEntry : Type 0 where
  pub stage : String
  pub error_type : String
  pub message : String
  pub retryable : Bool
  pub attempt : ℕ
  pub organization_id : Option String
  pub workspace_id : Option String
  pub job_id : Option String
  pub file_id : Option String
  pub details : Option Details

error_row : ℕ → String → ErrorEntry → ExtractionErrorLog
error_row now id e = record {
  id = id;
  organization_id = str_or_none e.organization_id;
  workspace_id = str_or_none e.workspace_id;
  job_id = str_or_none e.job_id;
  file_id = str_or_none e.file_id;
  stage = e.stage;
  error_type = e.error_type;
  message = e.message;
  retryable = e.retryable;
  attempt = e.attempt;
  details = e.details;
  created_at = now;
}

error_details : ErrorEntry → Details
error_details e =
    ("job_id", text_or_null (str_or_none e.job_id))
    ∷ ("file_id", text_or_null (str_or_none e.file_id))
    ∷ ("stage", text e.stage)
    ∷ ("error_type", text e.error_type)
    ∷ ("retryable", flag e.retryable)
    ∷ ("attempt", number e.attempt)
    ∷ []

unfoldable pub create_extraction_error : ℕ → String → String → ErrorEntry → Database → Database
unfolding create_audit_log error_row error_details
create_extraction_error now id audit_id e db =
    create_audit_log now audit_id "system" "pipeline.error_recorded" "extraction_error" (some id)
      e.organization_id e.workspace_id (some (error_details e))
      (record db { extraction_errors = db.extraction_errors ++ error_row now id e ∷ [] })
