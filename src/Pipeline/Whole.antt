-- ===== src/Pipeline/Whole.antt =====
-- A whole run of app/pipeline/document_pipeline.py for a job of the worker.
use vendorops_ai.Base.{
  String, ◌≡◌, ◌≢◌, refl, ap, ◌∙◌, inl, inr, false, Option, none, some, str_eq, Bool-cases,
}
use vendorops_ai.Db.{UploadedFile, ProcessingJob, Database, create_extraction_error}
use vendorops_ai.Extraction.{ExtractionResult}
use vendorops_ai.Retry.{Outcome, returned, raised}
use vendorops_ai.Repositories.Reads.{get_uploaded_file}
use vendorops_ai.Pipeline.{
  handle_error, mark_failed, record_failure, concluded, try_run, mark_running, with_job, with_file,
  job_organization, job_workspace, run_document_pipeline,
}
use vendorops_ai.Pipeline.Errors.{StageError, is_caught}
use vendorops_ai.Pipeline.Stages.{
  Environment, PipelineSettings, PipelineDraws, Run, DocumentPipelineResult, try_parse,
}
use vendorops_ai.Repositories.Records.{for_job}
use vendorops_ai.Pipeline.Stored.{Keeps, Half, Writes, Extracts, try_parse-Writes}

module _ {W : Type 0} (env : Environment W) (settings : PipelineSettings) (d : PipelineDraws)
    (job : ProcessingJob) (file_id : String) (organization workspace : Option String) where
  -- The variables of the run at its `try`.
  abbrev pub run_of : Run
  run_of = record {
    job = job;
    file_id = file_id;
    organization_id = job_organization env settings (some job) organization;
    workspace_id = job_workspace env settings (some job) workspace;
  }

  -- The file that the run reads, and what it extracts from it.
  abbrev pub Reads : Database → W → ExtractionResult → Type 0
  Reads db w res =
      (file : UploadedFile) × (get_uploaded_file run_of.organization_id run_of.workspace_id file_id
          db
        ≡ some file)
      × Extracts env settings d run_of file w res

  unchanged : (db : Database) → Keeps db db
  unchanged db = record { jobs = refl; records = refl; findings = refl }

  error-Keeps :
      (e : StageError) (db db' : Database)
      → Keeps db db'
      → Keeps db (handle_error false d run_of e db').1
  unfolding handle_error mark_failed record_failure create_extraction_error
  error-Keeps e db db' k = elim (Bool-cases (is_caught e)) [
    | inl c ↦ rw c (record { jobs = k.jobs; records = k.records; findings = k.findings })
    | inr c ↦ rw c k
  ]

  -- handle_error writes no record, finding or job.
  error-Half :
      (P : ExtractionResult → Type 0) (e : StageError) (db db' : Database)
      → Half env settings d run_of P db db'
      → Half env settings d run_of P db (handle_error false d run_of e db').1
  error-Half P e db db' (fault, q, res, p, z, s) =
      let k = error-Keeps e db' db' (unchanged db') in
      (
        fault,
        q,
        res,
        p,
        z,
        record {
          one_record = ap (for_job job.id) k.records ∙ s.one_record;
          source = s.source;
          findings = k.findings ∙ s.findings;
          jobs = k.jobs ∙ s.jobs;
        },
      )

  concluded-Writes :
      (P : ExtractionResult → Type 0) (db : Database)
      (x : Outcome DocumentPipelineResult StageError × Database × W)
      → Writes env settings d run_of P db (x.0, x.1)
      → let (o, db', w') = concluded env settings false d run_of x in
        Writes env settings d run_of P db (o, db')
  unfolding concluded
  concluded-Writes P db (returned x, db', w) h = h
  concluded-Writes P db (raised e, db', w) (inl k) = inl (error-Keeps e db db' k)
  concluded-Writes P db (raised e, db', w) (inr h) = inr (error-Half P e db db' h)

  found :
      (db : Database) (w : W) (f : Option UploadedFile)
      → job.id ≢ ""
      → get_uploaded_file run_of.organization_id run_of.workspace_id file_id db ≡ f
      → let (o, db', w') =
          with_file env settings false d
            (some job)
            file_id
            run_of.organization_id
            run_of.workspace_id
            f
            db
            w in
        Writes env settings d run_of (Reads db w) db (o, db')
  unfolding with_file with_job mark_running try_run
  found db w none n q = inl (unchanged db)
  found db w (some file) n q = elim (Bool-cases (str_eq job.pipeline "document_extraction")) [
    | inr e ↦ rw e (inl (unchanged db))
    | inl e ↦ rw e (
        concluded-Writes (Reads db w) db (try_parse env settings false d run_of file db w) (
          with_file_in (try_parse env settings false d run_of file db w)
            (try_parse-Writes env settings d run_of file db w n)))
  ]
    where
      with_file_in :
          (x : Outcome DocumentPipelineResult StageError × Database × W)
          → Writes env settings d run_of (Extracts env settings d run_of file w) db (x.0, x.1)
          → Writes env settings d run_of (Reads db w) db (x.0, x.1)
      with_file_in (returned y, db', w') (res, p, s) = (res, (file, q, p), s)
      with_file_in (raised e, db', w') (inl k) = inl k
      with_file_in (raised e, db', w') (inr (fault, h, res, p, z, half)) =
          inr (fault, h, res, (file, q, p), z, half)

  -- What a run for a job of the worker writes, when the commit of the findings may fail and the other
  -- commits do not: if it returns, the job has exactly the record that is returned, the one that it
  -- had or a new one of what the extractor gave for the tenant's file, with the review decision in it,
  -- and the findings on what the extractor gave are added, each with that record's id, the job's and
  -- the tenant's; if it raises, either no record, finding or job is written, or the commit of the
  -- findings failed and the job has exactly the record, as above, but no finding or job is written.
  pub run_document_pipeline-Writes :
      (db : Database) (w : W)
      → job.id ≢ ""
      → let (o, db', w') =
          run_document_pipeline env settings false d
            (some job)
            file_id
            organization
            workspace
            db
            w in
        Writes env settings d run_of (Reads db w) db (o, db')
  unfolding run_document_pipeline
  run_document_pipeline-Writes db w n =
      found db w (get_uploaded_file run_of.organization_id run_of.workspace_id file_id db) n refl
