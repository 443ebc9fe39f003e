-- ===== src/Pipeline/Failed.antt =====
-- A run of app/pipeline/document_pipeline.py whose extractor fails at every attempt.
use vendorops_ai.Base.{
  ℕ, zero, suc, ◌+◌, ◌<◌, String, ◌≡◌, refl, ap, ◌∙◌, Bool, false, Option, some, List, [], ◌∷◌,
  arith, length, length-append, eq_iff,
}
use vendorops_ai.Db.{UploadedFile, ProcessingJob, Database, ErrorEntry, create_extraction_error}
use vendorops_ai.Retry.{
  Outcome, returned, raised, Scheduled, Result, value, unhandled, retry_exhausted, retry_async,
}
use vendorops_ai.Retry.Attempts.{Failures, Meant, retry_async-Meant}
use vendorops_ai.Worker.{pipeline_error}
use vendorops_ai.Repositories.Reads.{get_uploaded_file}
use vendorops_ai.Pipeline.{
  handle_error, mark_failed, record_failure, failure_entry, concluded, try_run, mark_running,
  with_job, with_file, run_document_pipeline,
}
use vendorops_ai.Pipeline.Errors.{StageError, exhausted, error_class, error_text, is_caught}
use vendorops_ai.Pipeline.Stages.{
  Environment, PipelineSettings, PipelineDraws, Run, is_retryable_error, record_retries,
  record_retry, retry_entry, after_extract, after_parse, try_extract, try_parse,
}
use vendorops_ai.Pipeline.Whole.{run_of}

module _ {T E W : Type 0} (operation : W → Outcome T E × W) (is_retryable : E → Bool)
    (attempts base_delay : ℕ) where
  -- As many retries are scheduled as attempts failed before the last.
  length-Failures :
      (k i : ℕ) (w : W) (es : List (Scheduled E))
      → Failures operation is_retryable attempts base_delay k i w es
      → length es ≡ i
  length-Failures k zero w es h = ap length h
  length-Failures k (suc i) w es (e, rest, _, _, q, f) =
      ap length q ∙ ap suc (length-Failures (suc k) i (operation w).1 rest f)

  exhausted_retries :
      (x : Result T E × List (Scheduled E) × W) (w : W) (m : ℕ) (c : Option E)
      → Meant operation is_retryable attempts base_delay 1 attempts w x
      → x.0 ≡ retry_exhausted m c
      → suc (length x.1) ≡ attempts
  exhausted_retries (value t, es, v) w m c h q = absurd (cc q)
  exhausted_retries (unhandled e, es, v) w m c h q = absurd (cc q)
  exhausted_retries (retry_exhausted n b, es, v) w m c (i, lt, f, s, (e, o, t, g, j, last)) q =
      ap suc (length-Failures 1 i w es f) ∙ last

one_more_error :
    (now : ℕ) (id audit_id : String) (e : ErrorEntry) (db : Database)
    → length (create_extraction_error now id audit_id e db).extraction_errors
      ≡ length db.extraction_errors + 1
unfolding create_extraction_error
one_more_error now id audit_id e db = length-append db.extraction_errors (_ ∷ [])

module _ {W : Type 0} (env : Environment W) (settings : PipelineSettings) (d : PipelineDraws) where
  length-record_retries :
      (r : Run) (es : List (Scheduled StageError)) (db : Database)
      → length (record_retries env settings false d r es db).extraction_errors
        ≡ length db.extraction_errors + length es
  unfolding record_retries record_retry
  length-record_retries r [] db = omega arith
  length-record_retries r (e ∷ es) db = omega (
    arith,
    length-record_retries r es (record_retry env settings false d r e db),
    one_more_error (d.retry_now e.attempt) (d.retry_id e.attempt) (d.retry_audit_id e.attempt)
        (retry_entry env settings false d r e) db,
  )

  length-record_failure :
      (r : Run) (e : StageError) (db : Database)
      → length (record_failure d r e db).extraction_errors ≡ length db.extraction_errors + 1
  unfolding record_failure
  length-record_failure r e db =
      one_more_error d.failed_now d.failure_id d.failure_audit_id (failure_entry r e) db

  -- When the tenant's file parses and the retries of the extractor are exhausted, a run for a job of
  -- the worker raises PipelineError with the text of RetryExhaustedError, and each of the attempts
  -- that were allowed has left exactly one row of extraction_errors.
  pub exhausted_run :
      (job : ProcessingJob) (file_id : String) (organization workspace : Option String)
      (file : UploadedFile) (document : env.Document) (w v : W) (m : ℕ) (e : StageError)
      (db : Database)
      → 0 < settings.extraction_max_attempts
      → job.pipeline ≡ "document_extraction"
      → let r = run_of env settings d job file_id organization workspace in
        get_uploaded_file r.organization_id r.workspace_id file_id db ≡ some file
        → env.parse_file file.storage_path w ≡ (returned document, v)
        → (retry_async
            (env.extract document)
            is_retryable_error
            settings.extraction_max_attempts
            settings.extraction_retry_base
            v).0
          ≡ retry_exhausted m (some e)
        → let (o, db', w') =
            run_document_pipeline env settings false d
              (some job)
              file_id
              organization
              workspace
              db
              w in
          (o ≡ raised (pipeline_error (error_text (exhausted m (error_class e) (error_text e)))))
          × (length db'.extraction_errors
              ≡ length db.extraction_errors + settings.extraction_max_attempts)
  unfolding run_document_pipeline with_file with_job mark_running try_run concluded try_parse
      after_parse try_extract after_extract handle_error mark_failed is_caught
  exhausted_run job file_id organization workspace file document w v m e db pos supported found
        parsed ended =
      let r = run_of env settings d job file_id organization workspace in
      let run =
        retry_async (env.extract document) is_retryable_error settings.extraction_max_attempts
          settings.extraction_retry_base v in
      let raised_error = exhausted m (error_class e) (error_text e) in
      rw (found, (eq_iff job.pipeline "document_extraction").1 supported, parsed, ended)
        (
          refl,
          omega (
            arith,
            length-record_failure r raised_error (record_retries env settings false d r run.1 db),
            length-record_retries r run.1 db,
            exhausted_retries (env.extract document) is_retryable_error
                settings.extraction_max_attempts settings.extraction_retry_base run v m (some e)
                (retry_async-Meant (env.extract document) is_retryable_error
                  settings.extraction_max_attempts settings.extraction_retry_base v pos)
                ended,
          ),
        )
