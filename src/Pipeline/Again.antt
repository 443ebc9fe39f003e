-- ===== src/Pipeline/Again.antt =====
-- A second run of app/pipeline/document_pipeline.py for one job, such as after an expired lease.
use mathlib.Core.List.{append_assoc}
use vendorops_ai.Base.{
  String, ◌≡◌, ◌≢◌, sym, subst, ap, ◌∙◌, inl, inr, false, Option, some, [], ◌∷◌, ◌++◌,
}
use vendorops_ai.Db.{ProcessingJob, ExtractedRecord, Database}
use vendorops_ai.Extraction.{ExtractionResult}
use vendorops_ai.Retry.{Outcome, returned, raised}
use vendorops_ai.Worker.{Raised}
use vendorops_ai.Repositories.Records.{for_job}
use vendorops_ai.Pipeline.{run_document_pipeline}
use vendorops_ai.Pipeline.Stages.{
  Environment, PipelineSettings, PipelineDraws, DocumentPipelineResult,
}
use vendorops_ai.Pipeline.Stored.{Writes, finding_rows}
use vendorops_ai.Pipeline.Whole.{run_of, Reads, run_document_pipeline-Writes}

module _ {W : Type 0} (env : Environment W) (settings : PipelineSettings) (job : ProcessingJob)
    (file_id : String) (organization workspace : Option String) where
  -- What a run that returned has written.
  written :
      (d : PipelineDraws) (db : Database) (w : W) (x : DocumentPipelineResult)
      (run : Outcome DocumentPipelineResult Raised × Database × W)
      → Writes env settings d
          (run_of env settings d job file_id organization workspace)
          (Reads env settings d job file_id organization workspace db w)
          db
          (run.0, run.1)
      → run.0 ≡ returned x
      → (for_job job.id run.1.extracted_records ≡ x.record_ ∷ [])
        × (run.1.validation_errors ≡ db.validation_errors ++ x.validation_errors)
        × ((z : ExtractedRecord) → for_job job.id db.extracted_records ≡ z ∷ [] → x.record_ ≡ z)
        × ((res : ExtractionResult) × Reads env settings d job file_id organization workspace db w
              res
            × (x.validation_errors
                ≡ finding_rows env settings d
                    (run_of env settings d job file_id organization workspace)
                    x.record_.id
                    res))
  written d db w x (raised e, db', w') h q = absurd (cc q)
  written d db w x (returned y, db', w') (res, p, s) q =
      let same : y ≡ x = cc q in
      (
        s.one_record ∙ ap (λ (v : DocumentPipelineResult). v.record_ ∷ []) same,
        s.findings
            ∙ ap (λ (v : DocumentPipelineResult). db.validation_errors ++ v.validation_errors) same,
        λ z e.
            ap (λ (v : DocumentPipelineResult). v.record_) (sym same)
            ∙ elim s.source [ inl h ↦ cc (h, e) | inr h ↦ absurd (cc (h.0, e)) ],
        (
          res,
          p,
          subst
              (λ (v : DocumentPipelineResult).
                v.validation_errors
                ≡ finding_rows env settings d
                    (run_of env settings d job file_id organization workspace) v.record_.id res)
              same s.rows,
        ),
      )

  -- When two runs for one job return, one after the other, the second returns the record of the first,
  -- whatever it extracted, but adds after the findings of the first run a row for every finding on
  -- what the second run extracted, also for those that are there already.
  pub run_again :
      (d d' : PipelineDraws) (db : Database) (w : W) (x y : DocumentPipelineResult)
      → job.id ≢ ""
      → let (o, db', w') =
          run_document_pipeline env settings false d
            (some job)
            file_id
            organization
            workspace
            db
            w in
        let (o', db'', w'') =
          run_document_pipeline env settings false d'
            (some job)
            file_id
            organization
            workspace
            db'
            w' in
        o ≡ returned x
        → o' ≡ returned y
        → (y.record_ ≡ x.record_)
          × (db''.validation_errors
              ≡ db.validation_errors ++ (x.validation_errors ++ y.validation_errors))
          × ((res : ExtractionResult) × Reads env settings d' job file_id organization workspace db'
                w' res
              × (y.validation_errors
                  ≡ finding_rows env settings d'
                      (run_of env settings d' job file_id organization workspace)
                      y.record_.id
                      res))
  run_again d d' db w x y n p q =
      let run =
        run_document_pipeline env settings false d (some job) file_id organization workspace db w in
      let again =
        run_document_pipeline env settings false d' (some job) file_id organization workspace run.1
          run.2 in
      let (one, findings, _, _) =
        written d db w x run
          (run_document_pipeline-Writes env settings d job file_id organization workspace db w n)
          p in
      let (_, more, same, rows) =
        written d' run.1 run.2 y again
          (run_document_pipeline-Writes env settings d' job file_id organization workspace run.1
            run.2 n)
          q in
      (
        same x.record_ one,
        more
            ∙ ap (λ vs. vs ++ y.validation_errors) findings
            ∙ append_assoc db.validation_errors x.validation_errors y.validation_errors,
        rows,
      )
