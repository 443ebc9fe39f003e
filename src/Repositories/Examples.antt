-- ===== src/Repositories/Examples.antt =====
-- A small database of two tenants, and what each sees.
use vendorops_ai.Base.{
  ℕ, ◌≤◌, ◌≡◌, ◌↔◌, ◌⊎◌, inl, refl, String, false, none, some, [], ◌∷◌, arith, unequal, Has, length,
}
use vendorops_ai.Db.{ExtractedRecord, GeneratedReport, AuditLog, Database, empty_database, text}
use vendorops_ai.Extraction.{ExtractedBusinessRecord}
use vendorops_ai.Extraction.ExtractedRecordType.{contract}
use vendorops_ai.Repositories.Reads.{
  audit_logs, get_uploaded_file, get_extracted_record, list_extracted_records, get_generated_report,
  list_generated_reports, list_audit_logs,
}
use vendorops_ai.Repositories.Visibility.{IsVisible, list-get}
use vendorops_ai.Repositories.Newest.{list_audit_logs-newest}
use vendorops_ai.Repositories.Creates.{FileEntry, create_uploaded_file}
use vendorops_ai.Repositories.Records.{
  RecordEntry, stored, for_job, create_extracted_record, create_extracted_record_once,
}
use vendorops_ai.Repositories.Isolation.{upload_isolated}

abbrev found_record : ExtractedRecord
found_record = record {
  id = "r1";
  organization_id = some "o1";
  workspace_id = none;
  file_id = "f1";
  job_id = some "j1";
  record_type = "contract";
  vendor_name = none;
  external_reference = none;
  normalized_payload = [];
  raw_payload = none;
  confidence = some 900000;
  created_at = 5;
}

abbrev report : GeneratedReport
report = record {
  id = "g1";
  organization_id = some "o2";
  workspace_id = none;
  report_type = "pdf";
  status = "created";
  parameters = [];
  storage_path = none;
  created_at = 6;
}

abbrev log : String → ℕ → AuditLog
log id t = record {
  id = id;
  organization_id = none;
  workspace_id = none;
  actor = "system";
  action = "job.completed";
  entity_type = "processing_job";
  entity_id = none;
  details = none;
  created_at = t;
}

abbrev db : Database
db = record empty_database {
  extracted_records =
      found_record
      ∷ record found_record { id = "r2"; organization_id = some "o2"; job_id = none }
      ∷ [];
  generated_reports = report ∷ [];
  audit_logs = log "a" 1 ∷ log "b" 3 ∷ log "c" 2 ∷ [];
}

other_tenant_sees_one :
    list_extracted_records (some "o2") none db
    ≡ record found_record { id = "r2"; organization_id = some "o2"; job_id = none } ∷ []
unfolding list_extracted_records
other_tenant_sees_one = refl

list-get_example :
    (Has found_record (list_extracted_records (some "o1") none db)
      ↔ (get_extracted_record (some "o1") none "r1" db ≡ some found_record))
    × (Has report (list_generated_reports (some "o1") none db)
        ↔ (get_generated_report (some "o1") none "g1" db ≡ some report))
list-get_example =
    list-get (some "o1") none found_record report db (((unequal "r2" "r1" refl), tt), (tt, tt))
      (tt, tt)

two_newest : list_audit_logs (some "o1") none 2 db ≡ log "b" 3 ∷ log "c" 2 ∷ []
unfolding list_audit_logs
two_newest = refl

b_is_listed : Has (log "b" 3) (list_audit_logs (some "o1") none 2 db)
unfolding list_audit_logs
b_is_listed = inl refl

a-IsVisible : IsVisible audit_logs (some "o1") none (log "a" 1)
unfolding IsVisible
a-IsVisible = ((λ w f p q. cc q), (λ w f p q. cc p))

list_audit_logs-newest_example :
    Has (log "b" 3) db.audit_logs
    × IsVisible audit_logs (some "o1") none (log "b" 3)
    × (Has (log "a" 1) (list_audit_logs (some "o1") none 2 db) ⊎ (1 ≤ 3))
list_audit_logs-newest_example =
    list_audit_logs-newest (some "o1") none 2 (log "b" 3) (log "a" 1) db b_is_listed (inl refl)
      a-IsVisible

abbrev business : ExtractedBusinessRecord
business = record {
  record_type = contract;
  vendor_name = some "Acme";
  document_id = none;
  document_date = none;
  due_date = none;
  total_amount = none;
  currency = none;
  summary = "s";
  key_terms = [];
  line_items = [];
  source_evidence = [];
  confidence = 800000;
  needs_review = false;
  raw_fields = [];
}

abbrev entry : RecordEntry
entry = record {
  id = "r3";
  audit_id = "d";
  now = 9;
  file_id = "f2";
  organization_id = some "o1";
  workspace_id = none;
  extracted = business;
  dumped = [];
  raw_payload = ("provider", text "mock") ∷ [];
}

abbrev retried : RecordEntry
retried = record entry { id = "r4"; now = 12 }

no_record_yet : length (for_job "j2" db.extracted_records) ≤ 1
unfolding for_job
no_record_yet = omega arith

create_extracted_record_once_example :
    (r : ExtractedRecord) × ((create_extracted_record entry (some "j2") db).0 ≡ stored r)
    × (for_job "j2" (create_extracted_record entry (some "j2") db).1.extracted_records ≡ r ∷ [])
    × (create_extracted_record retried (some "j2") (create_extracted_record entry (some "j2") db).1
        ≡ (stored r, (create_extracted_record entry (some "j2") db).1))
create_extracted_record_once_example =
    create_extracted_record_once entry retried "j2" db (unequal "j2" "" refl) no_record_yet

abbrev upload : FileEntry
upload = record {
  file_id = "f1";
  organization_id = some "o1";
  workspace_id = some "w1";
  original_filename = "a.pdf";
  content_type = "application/pdf";
  file_type = "pdf";
  size_bytes = 12;
  sha256_hash = "00";
  storage_path = "/x";
}

upload_isolated_example :
    (get_uploaded_file (some "o1") none "f1" (create_uploaded_file 3 "a" upload db).1
      ≡ some (create_uploaded_file 3 "a" upload db).0)
    × (get_uploaded_file (some "o2") (some "w1") "f1" (create_uploaded_file 3 "a" upload db).1
        ≡ none)
upload_isolated_example =
    upload_isolated 3 "a" "o1" "o2" (some "w1") upload db tt refl (unequal "o1" "" refl)
      (unequal "o2" "o1" refl)
