-- ===== src/Pipeline/Stages.antt =====
-- The `try` of run_document_pipeline in app/pipeline/document_pipeline.py. The retries of the extractor
-- write their error rows in their order; the extractor itself does not touch the database, so they
-- are written after the loop here.
use vendorops_ai.Base.{ℕ, suc, String, Bool, true, false, Option, none, some, List, [], ◌∷◌}
use vendorops_ai.Db.{
  text, number, Details, completed, UploadedFile, ProcessingJob, ExtractedRecord, ValidationError,
  Database, ErrorEntry, create_extraction_error,
}
use vendorops_ai.Extraction.{ExtractedBusinessRecord, ExtractionResult}
use vendorops_ai.Validation.{ValidationFinding, validate_extracted_record}
use vendorops_ai.Validation.Review.{needs_review}
use vendorops_ai.Retry.{
  Outcome, returned, raised, Scheduled, Result, value, unhandled, retry_exhausted, retry_async,
}
use vendorops_ai.Repositories.Creates.{create_validation_errors}
use vendorops_ai.Repositories.Records.{
  RecordEntry, Creation, stored, multiple_results, create_extracted_record,
}
use vendorops_ai.Pipeline.Errors.{
  StageError, extraction_error, exhausted, other, error_class, error_text,
}
use vendorops_ai.Pipeline.Status.{update_processing_job_status}

-- What the pipeline calls: the parser and the extractor act on a world of their own, and pydantic
-- dumps a record and a result.
pub record Environment (W : Type 0) : Type 1 where
  pub Document : Type 0
  pub parse_file : String → W → Outcome Document StageError × W
  pub provider : String
  pub model : String
  pub extract : Document → W → Outcome ExtractionResult StageError × W
  pub two_decimals : ℕ → String
  pub dump_record : ExtractedBusinessRecord → Details
  pub dump_result : ExtractionResult → Details

pub record PipelineSettings : Type 0 where
  pub extraction_max_attempts : ℕ
  pub extraction_retry_base : ℕ
  pub extraction_review_threshold : ℕ

-- The instants that a run reads and the ids that it draws; a retry's by the number of its attempt, a
-- finding's by its place.
pub record PipelineDraws : Type 0 where
  pub job_id : String
  pub created_now : ℕ
  pub created_audit_id : String
  pub running_now : ℕ
  pub running_audit_id : String
  pub retry_now : ℕ → ℕ
  pub retry_id : ℕ → String
  pub retry_audit_id : ℕ → String
  pub record_id : String
  pub record_now : ℕ
  pub record_audit_id : String
  pub finding_id : ℕ → String
  pub findings_now : ℕ
  pub findings_audit_id : String
  -- What the commit of create_validation_errors raises: the class and the text.
  pub findings_fault : Option (String × String)
  pub completed_now : ℕ
  pub completed_audit_id : String
  pub failed_now : ℕ
  pub failure_id : String
  pub failure_audit_id : String
  pub failed_status_audit_id : String

-- The variables of the function at the `try`.
pub record Run : Type 0 where
  pub job : ProcessingJob
  pub file_id : String
  pub organization_id : Option String
  pub workspace_id : Option String

pub record DocumentPipelineResult : Type 0 where
  pub job : ProcessingJob
  pub record_ : ExtractedRecord
  pub validation_errors : List ValidationError

-- retryable_exceptions=(ExtractionError,)
unfoldable pub is_retryable_error : StageError → Bool
is_retryable_error (extraction_error m) = true
is_retryable_error _ = false

unfoldable pub numbered :
    (ℕ → String) → ℕ → List ValidationFinding → List (String × ValidationFinding)
numbered ids n [] = []
numbered ids n (f ∷ fs) = (ids n, f) ∷ numbered ids (suc n) fs

module _ {W : Type 0} (env : Environment W) (settings : PipelineSettings) (manage : Bool)
    (d : PipelineDraws) (r : Run) where
  open env use {Document}

  -- record_retry
  unfoldable pub retry_entry : Scheduled StageError → ErrorEntry
  unfolding error_class error_text
  retry_entry e = record {
    stage = "extract";
    error_type = error_class e.exc;
    message = error_text e.exc;
    retryable = true;
    attempt = e.attempt;
    organization_id = r.organization_id;
    workspace_id = r.workspace_id;
    job_id = some r.job.id;
    file_id = some r.file_id;
    details = some (
        ("delay_seconds", number e.delay)
        ∷ ("provider", text env.provider)
        ∷ ("model", text env.model)
        ∷ []);
  }

  unfoldable pub record_retry : Scheduled StageError → Database → Database
  unfolding create_extraction_error retry_entry
  record_retry e db =
      create_extraction_error (d.retry_now e.attempt) (d.retry_id e.attempt)
        (d.retry_audit_id e.attempt) (retry_entry e) db

  unfoldable pub record_retries : List (Scheduled StageError) → Database → Database
  unfolding record_retry
  record_retries [] db = db
  record_retries (e ∷ es) db = record_retries es (record_retry e db)

  -- `if manage_job_status` at the end of the `try`
  unfoldable pub finish_status :
      ExtractedRecord
      → List ValidationError
      → Outcome ProcessingJob StageError × Database
      → Outcome DocumentPipelineResult StageError × Database
  finish_status record_ errors (returned job, db) =
      (returned (record { job = job; record_ = record_; validation_errors = errors }), db)
  finish_status record_ errors (raised e, db) = (raised e, db)

  unfoldable pub finish :
      Bool
      → ExtractedRecord
      → List ValidationError
      → Database
      → Outcome DocumentPipelineResult StageError × Database
  unfolding finish_status update_processing_job_status
  finish false record_ errors db =
      (returned (record { job = r.job; record_ = record_; validation_errors = errors }), db)
  finish true record_ errors db =
      finish_status record_ errors
        (update_processing_job_status d.completed_now d.completed_audit_id r.job completed none db)

  -- create_validation_errors for the record that create_extracted_record has committed, and what
  -- follows it; if the second commit fails, its rows are not there.
  unfoldable pub validated :
      Option (String × String)
      → List ValidationFinding
      → ExtractedRecord
      → Database
      → Outcome DocumentPipelineResult StageError × Database
  unfolding finish create_validation_errors numbered
  validated (some (error_type, message)) findings record_ db =
      (raised (other error_type message), db)
  validated none findings record_ db =
      let (errors, db') =
        create_validation_errors d.findings_now d.findings_audit_id
          (record {
            record_id = record_.id;
            job_id = some r.job.id;
            organization_id = r.organization_id;
            workspace_id = r.workspace_id;
          })
          (numbered d.finding_id 0 findings) db in
      finish manage record_ errors db'

  unfoldable pub save_findings :
      List ValidationFinding
      → Creation × Database
      → Outcome DocumentPipelineResult StageError × Database
  unfolding validated
  save_findings findings (stored record_, db) = validated d.findings_fault findings record_ db
  save_findings findings (multiple_results, db) = (
    raised (other "MultipleResultsFound" "Multiple rows were found when one or none was required"),
    db,
  )

  -- The arguments of create_extracted_record.
  unfoldable pub record_entry : ExtractionResult → Bool → RecordEntry
  record_entry res review =
      let extracted = record res.record_ { needs_review = review } in
      record {
        id = d.record_id;
        audit_id = d.record_audit_id;
        now = d.record_now;
        file_id = r.file_id;
        organization_id = r.organization_id;
        workspace_id = r.workspace_id;
        extracted = extracted;
        dumped = env.dump_record extracted;
        raw_payload = env.dump_result (record res { record_ = extracted });
      }

  -- The validation, the review decision and the writes.
  unfoldable pub save_result :
      ExtractionResult → Database → Outcome DocumentPipelineResult StageError × Database
  unfolding save_findings record_entry needs_review create_extracted_record
      validate_extracted_record
  save_result res db =
      let findings = validate_extracted_record env.two_decimals res.record_ in
      let review = needs_review settings.extraction_review_threshold res.record_ findings in
      save_findings findings (create_extracted_record (record_entry res review) (some r.job.id) db)

  unfoldable pub after_extract :
      Result ExtractionResult StageError
      → Database
      → Outcome DocumentPipelineResult StageError × Database
  unfolding save_result error_class error_text
  after_extract (value res) db = save_result res db
  after_extract (unhandled e) db = (raised e, db)
  after_extract (retry_exhausted n none) db =
      (raised (exhausted n "RuntimeError" "retry_async was called with no attempts"), db)
  after_extract (retry_exhausted n (some e)) db =
      (raised (exhausted n (error_class e) (error_text e)), db)

  unfoldable pub try_extract :
      Document → Database → W → Outcome DocumentPipelineResult StageError × Database × W
  unfolding after_extract record_retries retry_async is_retryable_error
  try_extract document db w =
      let (result, retries, w') =
        retry_async (env.extract document) is_retryable_error settings.extraction_max_attempts
          settings.extraction_retry_base w in
      let (o, db') = after_extract result (record_retries retries db) in (o, db', w')

  unfoldable pub after_parse :
      Outcome Document StageError × W
      → Database
      → Outcome DocumentPipelineResult StageError × Database × W
  unfolding try_extract
  after_parse (returned document, w) db = try_extract document db w
  after_parse (raised e, w) db = (raised e, db, w)

  -- The body of the `try`.
  unfoldable pub try_parse :
      UploadedFile → Database → W → Outcome DocumentPipelineResult StageError × Database × W
  unfolding after_parse
  try_parse file db w = after_parse (env.parse_file file.storage_path w) db
