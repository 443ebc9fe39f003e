-- ===== src/Repositories/Records.antt =====
-- create_extracted_record of app/db/repositories.py: one record for each job.
use vendorops_ai.Base.{
  ℕ, ◌≤◌, String, ◌≡◌, ◌≢◌, refl, ap, ◌∙◌, Option, none, some, List, [], ◌∷◌, ◌++◌, inl, inr, ◌⊎◌,
  arith, length, keep_if, str_eq, eq_iff, eq_refl, opt_eq, Bool-cases, if◌then◌else◌,
}
use vendorops_ai.Db.{
  Value, null, text, number, Details, ExtractedRecord, Database, str_or_none, text_or_null,
  create_audit_log,
}
use vendorops_ai.Extraction.{ExtractedBusinessRecord, type_value}

-- The arguments of create_extracted_record but the job; `dumped` is extracted.model_dump.
pub record RecordEntry : Type 0 where
  pub id : String
  pub audit_id : String
  pub now : ℕ
  pub file_id : String
  pub organization_id : Option String
  pub workspace_id : Option String
  pub extracted : ExtractedBusinessRecord
  pub dumped : Details
  pub raw_payload : Details

-- The record, or MultipleResultsFound.
pub data Creation : Type 0 where
  stored : ExtractedRecord → Creation
  multiple_results : Creation

-- payload.get(key)
get_or_null : String → Details → Value
get_or_null key [] = null
get_or_null key ((k, v) ∷ d) = if str_eq k key then v else get_or_null key d

-- select(ExtractedRecord).where(job_id == ...)
unfoldable pub for_job : String → List ExtractedRecord → List ExtractedRecord
for_job job_id rows = keep_if (λ (r : ExtractedRecord). opt_eq r.job_id job_id) rows

unfoldable pub record_row : RecordEntry → Option String → ExtractedRecord
record_row e job_id = record {
  id = e.id;
  organization_id = str_or_none e.organization_id;
  workspace_id = str_or_none e.workspace_id;
  file_id = e.file_id;
  job_id = str_or_none job_id;
  record_type = type_value e.extracted.record_type;
  vendor_name = e.extracted.vendor_name;
  external_reference = e.extracted.document_id;
  normalized_payload = e.dumped;
  raw_payload = some e.raw_payload;
  confidence = some e.extracted.confidence;
  created_at = e.now;
}

unfoldable pub add_record : RecordEntry → Option String → Database → Creation × Database
unfolding record_row create_audit_log get_or_null
add_record e job_id db = (
  stored (record_row e job_id),
  create_audit_log e.now e.audit_id "system" "record.extracted" "extracted_record" (some e.id)
      e.organization_id e.workspace_id
      (some (
        ("file_id", text e.file_id)
        ∷ ("job_id", text_or_null (str_or_none job_id))
        ∷ ("record_type", text (type_value e.extracted.record_type))
        ∷ ("confidence", number e.extracted.confidence)
        ∷ ("provider", get_or_null "provider" e.raw_payload)
        ∷ []))
      (record db { extracted_records = db.extracted_records ++ record_row e job_id ∷ [] }),
)

-- scalar_one_or_none of the records of the job
unless_existing : RecordEntry → String → List ExtractedRecord → Database → Creation × Database
unfolding add_record
unless_existing e job_id [] db = add_record e (some job_id) db
unless_existing e job_id (r ∷ []) db = (stored r, db)
unless_existing e job_id (r ∷ q ∷ rs) db = (multiple_results, db)

unfoldable pub create_extracted_record :
    RecordEntry → Option String → Database → Creation × Database
unfolding unless_existing add_record for_job
create_extracted_record e none db = add_record e none db
create_extracted_record e (some job_id) db =
    unless_existing e job_id (for_job job_id db.extracted_records) db

for_job-append :
    (j : String) (xs ys : List ExtractedRecord)
    → for_job j (xs ++ ys) ≡ for_job j xs ++ for_job j ys
unfolding for_job
for_job-append j [] ys = refl
for_job-append j (x ∷ xs) ys = elim (Bool-cases (opt_eq x.job_id j)) [
  | inl e ↦ rw e (ap (λ rs. x ∷ rs) (for_job-append j xs ys))
  | inr e ↦ rw e (for_job-append j xs ys)
]

for_job-own :
    (e : RecordEntry) (j : String)
    → j ≢ ""
    → for_job j (record_row e (some j) ∷ []) ≡ record_row e (some j) ∷ []
unfolding for_job record_row
for_job-own e j n = elim (Bool-cases (str_eq j "")) [
  | inl q ↦ absurd (n ((eq_iff j "").0 q))
  | inr q ↦ rw (q, eq_refl j) refl
]

alone :
    (e : RecordEntry) (j : String) (db : Database)
    → j ≢ ""
    → for_job j db.extracted_records ≡ []
    → for_job j (db.extracted_records ++ record_row e (some j) ∷ []) ≡ record_row e (some j) ∷ []
alone e j db n q =
    for_job-append j db.extracted_records (record_row e (some j) ∷ [])
    ∙ ap (λ rs. rs ++ for_job j (record_row e (some j) ∷ [])) q
    ∙ for_job-own e j n

-- What a creation for a job has done: it gave the record that the job had and wrote nothing, or the job
-- had none and the new one is added, or the job had several and nothing is written.
abbrev pub Created : RecordEntry → String → Database → Creation × Database → Type 0
Created e j db (stored r, db') =
    (for_job j db'.extracted_records ≡ r ∷ [])
    × (db'.jobs ≡ db.jobs)
    × (db'.validation_errors ≡ db.validation_errors)
    × (((for_job j db.extracted_records ≡ r ∷ []) × (db'.extracted_records ≡ db.extracted_records))
        ⊎ ((for_job j db.extracted_records ≡ []) × (r ≡ record_row e (some j))))
Created e j db (multiple_results, db') = (db' ≡ db) × (2 ≤ length (for_job j db.extracted_records))

pub create_extracted_record-Created :
    (e : RecordEntry) (j : String) (db : Database)
    → j ≢ ""
    → Created e j db (create_extracted_record e (some j) db)
unfolding create_extracted_record unless_existing add_record create_audit_log
create_extracted_record-Created e j db n = by_rows (for_job j db.extracted_records) refl
  where
    by_rows :
        (rows : List ExtractedRecord)
        → for_job j db.extracted_records ≡ rows
        → Created e j db (unless_existing e j rows db)
    by_rows [] q = (alone e j db n q, refl, refl, inr (q, refl))
    by_rows (r ∷ []) q = (q, refl, refl, inl (q, refl))
    by_rows (r ∷ s ∷ rs) q = (refl, omega (arith, ap length q))

-- While a job has one record at most, creating its record succeeds, after it the job has exactly the
-- record that was returned, and creating it again, from whatever extraction, returns that same record
-- and changes nothing.
pub create_extracted_record_once :
    (e e' : RecordEntry) (j : String) (db : Database)
    → j ≢ ""
    → length (for_job j db.extracted_records) ≤ 1
    → (r : ExtractedRecord) × ((create_extracted_record e (some j) db).0 ≡ stored r)
      × (for_job j (create_extracted_record e (some j) db).1.extracted_records ≡ r ∷ [])
      × (create_extracted_record e' (some j) (create_extracted_record e (some j) db).1
          ≡ (stored r, (create_extracted_record e (some j) db).1))
unfolding create_extracted_record unless_existing add_record create_audit_log
create_extracted_record_once e e' j db n le = by_rows (for_job j db.extracted_records) refl
  where
    by_rows :
        (rows : List ExtractedRecord)
        → for_job j db.extracted_records ≡ rows
        → (r : ExtractedRecord) × ((unless_existing e j rows db).0 ≡ stored r)
          × (for_job j (unless_existing e j rows db).1.extracted_records ≡ r ∷ [])
          × (unless_existing e' j
                (for_job j (unless_existing e j rows db).1.extracted_records)
                (unless_existing e j rows db).1
              ≡ (stored r, (unless_existing e j rows db).1))
    by_rows [] q = (record_row e (some j), refl, alone e j db n q, rw (alone e j db n q) refl)
    by_rows (r ∷ []) q = (r, refl, q, rw q refl)
    by_rows (r ∷ s ∷ rs) q = absurd (omega (arith, le, ap length q))
