-- ===== src/Pipeline/Stored.antt =====
-- What a run of app/pipeline/document_pipeline.py writes when the worker keeps the job's status: the
-- record and then, in a commit of its own, the findings.
use vendorops_ai.Base.{
  String, ◌≡◌, ◌≢◌, refl, sym, ap, ◌∙◌, ◌⊎◌, inl, inr, false, none, some, List, [], ◌∷◌, ◌++◌, map,
  Option,
}
use vendorops_ai.Db.{
  UploadedFile, ExtractedRecord, ValidationError, Database, str_or_none, create_extraction_error,
}
use vendorops_ai.Extraction.{ExtractionResult}
use vendorops_ai.Validation.{ValidationFinding, validate_extracted_record}
use vendorops_ai.Validation.Review.{needs_review}
use vendorops_ai.Retry.{
  Outcome, returned, raised, Scheduled, Result, value, unhandled, retry_exhausted, retry_async,
}
use vendorops_ai.Repositories.Creates.{severity_value, finding_row, create_validation_errors}
use vendorops_ai.Repositories.Records.{
  RecordEntry, Creation, stored, multiple_results, for_job, record_row, create_extracted_record,
  Created, create_extracted_record-Created,
}
use vendorops_ai.Pipeline.Errors.{StageError}
use vendorops_ai.Pipeline.Stages.{
  Environment, PipelineSettings, PipelineDraws, Run, DocumentPipelineResult, is_retryable_error,
  numbered, record_retries, record_retry, record_entry, validated, save_findings, save_result,
  after_extract, try_extract, after_parse, try_parse, finish,
}

-- The tables that a run that fails leaves alone.
pub record Keeps (db db' : Database) : Type 0 where
  pub jobs : db'.jobs ≡ db.jobs
  pub records : db'.extracted_records ≡ db.extracted_records
  pub findings : db'.validation_errors ≡ db.validation_errors

module _ {W : Type 0} (env : Environment W) (settings : PipelineSettings) (d : PipelineDraws)
    (r : Run) where
  -- The entry of the record for what the extractor gave, with the review decision in it.
  abbrev pub reviewed : ExtractionResult → RecordEntry
  reviewed res =
      let extracted = record res.record_ {
        needs_review =
            needs_review settings.extraction_review_threshold res.record_
              (validate_extracted_record env.two_decimals res.record_);
      } in
      record {
        id = d.record_id;
        audit_id = d.record_audit_id;
        now = d.record_now;
        file_id = r.file_id;
        organization_id = r.organization_id;
        workspace_id = r.workspace_id;
        extracted = extracted;
        dumped = env.dump_record extracted;
        raw_payload = env.dump_result (record res { record_ = extracted });
      }

  -- The rows of the findings on what the extractor gave.
  abbrev pub finding_rows : String → ExtractionResult → List ValidationError
  finding_rows record_id res =
      map
        (λ (p : String × ValidationFinding). record {
          id = p.0;
          organization_id = str_or_none r.organization_id;
          workspace_id = str_or_none r.workspace_id;
          record_id = some record_id;
          job_id = str_or_none (some r.job.id);
          field_name = p.1.field_name;
          error_type = p.1.error_type;
          message = p.1.message;
          severity = severity_value p.1.severity;
          created_at = d.findings_now;
        })
        (numbered d.finding_id 0 (validate_extracted_record env.two_decimals res.record_))

  -- What a run that returned `x` for the extraction `res` has written: the job's one record, which is
  -- the one that it had or else the new one, and after the old findings those on `res`, all rows of
  -- that record; no job.
  pub record IsStored (db : Database) (x : DocumentPipelineResult) (db' : Database)
      (res : ExtractionResult) : Type 0 where
    pub one_record : for_job r.job.id db'.extracted_records ≡ x.record_ ∷ []
    pub source :
        (for_job r.job.id db.extracted_records ≡ x.record_ ∷ [])
        ⊎ ((for_job r.job.id db.extracted_records ≡ [])
            × (x.record_ ≡ record_row (reviewed res) (some r.job.id)))
    pub rows : x.validation_errors ≡ finding_rows x.record_.id res
    pub findings : db'.validation_errors ≡ db.validation_errors ++ x.validation_errors
    pub jobs : db'.jobs ≡ db.jobs

  -- What a run leaves whose commit of the findings failed: the job's one record `z`, as above, but no
  -- finding and no job.
  pub record IsHalf (db : Database) (z : ExtractedRecord) (db' : Database) (res : ExtractionResult)
      : Type 0 where
    pub one_record : for_job r.job.id db'.extracted_records ≡ z ∷ []
    pub source :
        (for_job r.job.id db.extracted_records ≡ z ∷ [])
        ⊎ ((for_job r.job.id db.extracted_records ≡ [])
            × (z ≡ record_row (reviewed res) (some r.job.id)))
    pub findings : db'.validation_errors ≡ db.validation_errors
    pub jobs : db'.jobs ≡ db.jobs

  abbrev pub Half : (ExtractionResult → Type 0) → Database → Database → Type 0
  Half P db db' =
      (fault : String × String) × (d.findings_fault ≡ some fault)
      × (res : ExtractionResult) × P res
      × (z : ExtractedRecord) × IsHalf db z db' res

  -- All, for some extraction; or nothing; or, if the commit of the findings fails, the record alone.
  abbrev pub Writes :
      {E : Type 0}
      → (ExtractionResult → Type 0)
      → Database
      → Outcome DocumentPipelineResult E × Database
      → Type 0
  Writes P db (returned x, db') = (res : ExtractionResult) × P res × IsStored db x db' res
  Writes P db (raised e, db') = Keeps db db' ⊎ Half P db db'

  retries-Keeps :
      (es : List (Scheduled StageError)) (db db' : Database)
      → Keeps db db'
      → Keeps db (record_retries env settings false d r es db')
  unfolding record_retries create_extraction_error
  retries-Keeps [] db db' k = k
  retries-Keeps (e ∷ es) db db' k =
      retries-Keeps es db (record_retry env settings false d r e db')
        (record { jobs = k.jobs; records = k.records; findings = k.findings })

  module _ (P : ExtractionResult → Type 0) where
    validated-Writes :
        (res : ExtractionResult) (db : Database) (x : ExtractedRecord) (db' : Database)
        (fault : Option (String × String))
        → d.findings_fault ≡ fault
        → P res
        → Created (reviewed res) r.job.id db (stored x, db')
        → Writes P db (
            validated env settings false d r fault
              (validate_extracted_record env.two_decimals res.record_)
              x
              db')
    unfolding validated create_validation_errors finding_row finish
    validated-Writes res db x db' none q p (one, jobs, findings, source) = (
      res,
      p,
      record {
        one_record = one;
        source = elim source [ inl h ↦ inl h.0 | inr h ↦ inr h ];
        rows = refl;
        findings = ap (λ vs. vs ++ finding_rows x.id res) findings;
        jobs = jobs;
      },
    )
    validated-Writes res db x db' (some fault) q p (one, jobs, findings, source) = inr (
      fault,
      q,
      res,
      p,
      x,
      record {
        one_record = one;
        source = elim source [ inl h ↦ inl h.0 | inr h ↦ inr h ];
        findings = findings;
        jobs = jobs;
      },
    )

    save_findings-Writes :
        (res : ExtractionResult) (db : Database) (c : Creation × Database)
        → P res
        → Created (reviewed res) r.job.id db c
        → Writes P db (
            save_findings env settings false d r
              (validate_extracted_record env.two_decimals res.record_)
              c)
    unfolding save_findings
    save_findings-Writes res db (stored x, db') p h =
        validated-Writes res db x db' d.findings_fault refl p h
    save_findings-Writes res db (multiple_results, db') p (same, _) = inl (record {
      jobs = ap (λ (b : Database). b.jobs) same;
      records = ap (λ (b : Database). b.extracted_records) same;
      findings = ap (λ (b : Database). b.validation_errors) same;
    })

    save_result-Writes :
        (res : ExtractionResult) (db : Database)
        → r.job.id ≢ ""
        → P res
        → Writes P db (save_result env settings false d r res db)
    unfolding save_result record_entry
    save_result-Writes res db n p =
        save_findings-Writes res db (create_extracted_record (reviewed res) (some r.job.id) db) p
          (create_extracted_record-Created (reviewed res) r.job.id db n)

    after_retries :
        (db db' : Database) (o : Outcome DocumentPipelineResult StageError × Database)
        → Keeps db db'
        → Writes P db' o
        → Writes P db o
    after_retries db db' (returned x, b) k (res, p, s) = (
      res,
      p,
      record {
        one_record = s.one_record;
        source = elim s.source [
          | inl h ↦ inl (ap (for_job r.job.id) (sym k.records) ∙ h)
          | inr h ↦ inr (ap (for_job r.job.id) (sym k.records) ∙ h.0, h.1)
        ];
        rows = s.rows;
        findings = s.findings ∙ ap (λ vs. vs ++ x.validation_errors) k.findings;
        jobs = s.jobs ∙ k.jobs;
      },
    )
    after_retries db db' (raised e, b) k (inl s) = inl (record {
      jobs = s.jobs ∙ k.jobs;
      records = s.records ∙ k.records;
      findings = s.findings ∙ k.findings;
    })
    after_retries db db' (raised e, b) k (inr (fault, q, res, p, z, s)) = inr (
      fault,
      q,
      res,
      p,
      z,
      record {
        one_record = s.one_record;
        source = elim s.source [
          | inl h ↦ inl (ap (for_job r.job.id) (sym k.records) ∙ h)
          | inr h ↦ inr (ap (for_job r.job.id) (sym k.records) ∙ h.0, h.1)
        ];
        findings = s.findings ∙ k.findings;
        jobs = s.jobs ∙ k.jobs;
      },
    )

    after_extract-Writes :
        (o : Result ExtractionResult StageError) (db db' : Database)
        → r.job.id ≢ ""
        → ((res : ExtractionResult) → o ≡ value res → P res)
        → Keeps db db'
        → Writes P db (after_extract env settings false d r o db')
    unfolding after_extract
    after_extract-Writes (value res) db db' n p k =
        after_retries db db' (save_result env settings false d r res db') k
          (save_result-Writes res db' n (p res refl))
    after_extract-Writes (unhandled e) db db' n p k = inl k
    after_extract-Writes (retry_exhausted m none) db db' n p k = inl k
    after_extract-Writes (retry_exhausted m (some e)) db db' n p k = inl k

  -- What a run extracts: the file parses, and the retries of the extractor end with the result.
  abbrev pub Extracts : UploadedFile → W → ExtractionResult → Type 0
  Extracts file w res =
      (document : env.Document) × (v : W) × (env.parse_file file.storage_path w
        ≡ (returned document, v))
      × ((retry_async (env.extract document) is_retryable_error settings.extraction_max_attempts
            settings.extraction_retry_base v).0
          ≡ value res)

  pub try_parse-Writes :
      (file : UploadedFile) (db : Database) (w : W)
      → r.job.id ≢ ""
      → let (o, db', w') = try_parse env settings false d r file db w in
        Writes (Extracts file w) db (o, db')
  unfolding try_parse after_parse try_extract
  try_parse-Writes file db w n = parsed (env.parse_file file.storage_path w) refl
    where
      unchanged : Keeps db db
      unchanged = record { jobs = refl; records = refl; findings = refl }

      parsed :
          (p : Outcome env.Document StageError × W)
          → env.parse_file file.storage_path w ≡ p
          → let (o, db', w') = after_parse env settings false d r p db in
            Writes (Extracts file w) db (o, db')
      parsed (raised e, v) q = inl unchanged
      parsed (returned document, v) q =
          let run =
            retry_async (env.extract document) is_retryable_error settings.extraction_max_attempts
              settings.extraction_retry_base v in
          after_extract-Writes (Extracts file w) run.0 db
            (record_retries env settings false d r run.1 db) n (λ res e. (document, v, q, e))
            (retries-Keeps run.1 db db unchanged)
