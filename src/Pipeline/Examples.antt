-- ===== src/Pipeline/Examples.antt =====
-- Runs of the pipeline on one file: an extractor that succeeds at its second attempt, and one that never
-- does.
use vendorops_ai.Base.{
  ℕ, suc, ◌+◌, String, ◌≡◌, refl, false, none, some, [], ◌∷◌, ◌++◌, arith, ltb, length, unequal,
  if◌then◌else◌,
}
use vendorops_ai.Db.{queued, UploadedFile, ProcessingJob, Database, empty_database}
use vendorops_ai.Extraction.{ExtractionResult}
use vendorops_ai.Extraction.ExtractedRecordType.{contract}
use vendorops_ai.Retry.{returned, raised, retry_exhausted, retry_async}
use vendorops_ai.Jobs.{recover_expired_jobs}
use vendorops_ai.Worker.{WorkerSettings, Draws, pipeline_error}
use vendorops_ai.Repositories.Reads.{get_uploaded_file}
use vendorops_ai.Repositories.Records.{record_row}
use vendorops_ai.Pipeline.{uncaught, job_organization, job_workspace, run_document_pipeline}
use vendorops_ai.Pipeline.Errors.{extraction_error, other, exhausted, error_text, error_class}
use vendorops_ai.Pipeline.Stages.{
  Environment, PipelineSettings, PipelineDraws, DocumentPipelineResult, is_retryable_error,
}
use vendorops_ai.Pipeline.Stored.{Writes, reviewed, finding_rows}
use vendorops_ai.Pipeline.Whole.{run_of, Reads, run_document_pipeline-Writes}
use vendorops_ai.Pipeline.Failed.{exhausted_run}
use vendorops_ai.Pipeline.Again.{run_again}

abbrev extraction : ExtractionResult
extraction = record {
  provider = "mock";
  model = "m";
  record_ = record {
    record_type = contract;
    vendor_name = some "Acme";
    document_id = none;
    document_date = none;
    due_date = none;
    total_amount = none;
    currency = none;
    summary = "s";
    key_terms = [];
    line_items = [];
    source_evidence = [];
    confidence = 900000;
    needs_review = false;
    raw_fields = [];
  };
}

-- The world is the count of the calls; from the call number `good` on the extractor succeeds.
abbrev environment : ℕ → Environment ℕ
environment good = record {
  Document = String;
  parse_file = λ path n. (returned path, n);
  provider = "mock";
  model = "m";
  extract = λ doc n.
      (if ltb n good then raised (extraction_error "busy") else returned extraction, suc n);
  two_decimals = λ n. "0.90";
  dump_record = λ r. [];
  dump_result = λ r. [];
}

abbrev settings : PipelineSettings
settings = record {
  extraction_max_attempts = 3;
  extraction_retry_base = 4;
  extraction_review_threshold = 750000;
}

abbrev draws : String → PipelineDraws
draws s = record {
  job_id = "";
  created_now = 0;
  created_audit_id = "";
  running_now = 0;
  running_audit_id = "";
  retry_now = λ n. n;
  retry_id = λ n. s;
  retry_audit_id = λ n. s;
  record_id = s;
  record_now = 5;
  record_audit_id = "ra";
  finding_id = λ n. s;
  findings_now = 6;
  findings_audit_id = "fa";
  findings_fault = none;
  completed_now = 0;
  completed_audit_id = "";
  failed_now = 7;
  failure_id = "x";
  failure_audit_id = "xa";
  failed_status_audit_id = "";
}

abbrev job : ProcessingJob
job = record {
  id = "j1";
  organization_id = some "o1";
  workspace_id = some "w1";
  file_id = "f1";
  pipeline = "document_extraction";
  status = queued;
  error_message = none;
  attempts = 0;
  max_attempts = 3;
  next_run_at = 0;
  started_at = none;
  completed_at = none;
  failed_at = none;
  lease_owner = none;
  lease_expires_at = none;
  execution_id = none;
  execution_metadata = none;
  created_at = 0;
  updated_at = 0;
}

abbrev file : UploadedFile
file = record {
  id = "f1";
  organization_id = some "o1";
  workspace_id = some "w1";
  original_filename = "a.txt";
  content_type = "text/plain";
  file_type = "txt";
  size_bytes = 1;
  sha256_hash = "00";
  storage_path = "/a.txt";
  status = "uploaded";
  created_at = 0;
  updated_at = 0;
}

abbrev tables : Database
tables = record empty_database { uploaded_files = file ∷ []; jobs = job ∷ [] }

run_document_pipeline-Writes_example :
    let (o, db, w) =
      run_document_pipeline
        (environment 1)
        settings
        false
        (draws "d1")
        (some job)
        "f1"
        none
        none
        tables
        0 in
    Writes
      (environment 1)
      settings
      (draws "d1")
      (run_of (environment 1) settings (draws "d1") job "f1" none none)
      (Reads (environment 1) settings (draws "d1") job "f1" none none tables 0)
      tables
      (o, db)
run_document_pipeline-Writes_example =
    run_document_pipeline-Writes (environment 1) settings (draws "d1") job "f1" none none tables 0
      (unequal "j1" "" refl)

file_is_found :
    let r = run_of (environment 9) settings (draws "d1") job "f1" none none in
    get_uploaded_file r.organization_id r.workspace_id "f1" tables ≡ some file
unfolding get_uploaded_file job_organization job_workspace
file_is_found = refl

extractor_gives_up :
    (retry_async ((environment 9).extract "/a.txt") is_retryable_error 3 4 0).0
    ≡ retry_exhausted 3 (some (extraction_error "busy"))
unfolding retry_async is_retryable_error
extractor_gives_up = refl

exhausted_run_example :
    let (o, db, w) =
      run_document_pipeline
        (environment 9)
        settings
        false
        (draws "d1")
        (some job)
        "f1"
        none
        none
        tables
        0 in
    (o
      ≡ raised (
          pipeline_error (
            error_text (
              exhausted 3
                (error_class (extraction_error "busy"))
                (error_text (extraction_error "busy"))))))
    × (length db.extraction_errors ≡ 0 + 3)
exhausted_run_example =
    exhausted_run (environment 9) settings (draws "d1") job "f1" none none file "/a.txt" 0 0 3
      (extraction_error "busy") tables (omega arith) refl file_is_found refl extractor_gives_up

-- What the run with these draws returns when the job has no record, and when it has one.
abbrev first_result : DocumentPipelineResult
first_result =
    let r = run_of (environment 1) settings (draws "d1") job "f1" none none in
    record {
      job = job;
      record_ =
          record_row (reviewed (environment 1) settings (draws "d1") r extraction) (some "j1");
      validation_errors = finding_rows (environment 1) settings (draws "d1") r "d1" extraction;
    }

abbrev second_result : DocumentPipelineResult
second_result =
    let r = run_of (environment 1) settings (draws "d2") job "f1" none none in
    record first_result {
      validation_errors = finding_rows (environment 1) settings (draws "d2") r "d1" extraction;
    }

first_returns :
    (run_document_pipeline
      (environment 1)
      settings
      false
      (draws "d1")
      (some job)
      "f1"
      none
      none
      tables
      0).0
    ≡ returned first_result
unfolding run_document_pipeline record_row
first_returns = refl

second_returns :
    let (o, db, w) =
      run_document_pipeline
        (environment 1)
        settings
        false
        (draws "d1")
        (some job)
        "f1"
        none
        none
        tables
        0 in
    (run_document_pipeline
      (environment 1)
      settings
      false
      (draws "d2")
      (some job)
      "f1"
      none
      none
      db
      w).0
    ≡ returned second_result
unfolding run_document_pipeline record_row
second_returns = refl

-- The commit of the findings fails: the record is there, and the exception goes up as it is.
half_written :
    let (o, db, w) =
      run_document_pipeline
        (environment 1)
        settings
        false
        (record (draws "d1") { findings_fault = some ("OperationalError", "gone") })
        (some job)
        "f1"
        none
        none
        tables
        0 in
    (o ≡ raised (uncaught (other "OperationalError" "gone")))
    × (length db.extracted_records ≡ 1)
    × (db.validation_errors ≡ [])
unfolding run_document_pipeline
half_written = (refl, refl, refl)

run_again_example :
    let (o, db, w) =
      run_document_pipeline
        (environment 1)
        settings
        false
        (draws "d1")
        (some job)
        "f1"
        none
        none
        tables
        0 in
    let (o', db', w') =
      run_document_pipeline
        (environment 1)
        settings
        false
        (draws "d2")
        (some job)
        "f1"
        none
        none
        db
        w in
    (first_result.record_ ≡ first_result.record_)
    × (db'.validation_errors
        ≡ [] ++ (first_result.validation_errors ++ second_result.validation_errors))
    × ((res : ExtractionResult) × Reads
          (environment 1)
          settings
          (draws "d2")
          job
          "f1"
          none
          none
          db
          w
          res
        × (second_result.validation_errors
            ≡ finding_rows
                (environment 1)
                settings
                (draws "d2")
                (run_of (environment 1) settings (draws "d2") job "f1" none none)
                second_result.record_.id
                res))
run_again_example =
    run_again (environment 1) settings job "f1" none none (draws "d1") (draws "d2") tables 0
      first_result second_result (unequal "j1" "" refl) first_returns second_returns

abbrev worker_settings : WorkerSettings
worker_settings = record {
  lease_duration = 60;
  retry = record { retry_base_seconds = 5; retry_max_seconds = 300 };
}

abbrev round_draws : Draws
round_draws = record {
  recover_now = 20;
  claim_now = 21;
  finish_now = 30;
  execution_id = "e1";
  audit_id = "a1";
  error_id = "x1";
  error_audit_id = "a2";
}

recovered_unchanged : (recover_expired_jobs 20 tables).1 ≡ tables
unfolding recover_expired_jobs
recovered_unchanged = refl
