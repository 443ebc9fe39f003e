-- ===== src/Pipeline/Rounds.antt =====
-- The worker's default handler, _run_document of app/workers/document_jobs.py, and what a round of the
-- worker does with it.
use vendorops_ai.Base.{ℕ, true, false, Option, none, some, str_eq, find_if}
use vendorops_ai.Db.{ProcessingJob, Database}
use vendorops_ai.Retry.{Outcome, returned, raised}
use vendorops_ai.Jobs.Outcomes.{IsSettled, IsCompleted}
use vendorops_ai.Worker.{
  Raised, pipeline_error, pipeline_input_error, value_error, other_error, Handler, WorkerSettings,
}
use vendorops_ai.Pipeline.{run_document_pipeline}
use vendorops_ai.Pipeline.Stages.{
  Environment, PipelineSettings, PipelineDraws, DocumentPipelineResult,
}

-- What the handler leaves of a run: the exception, if one was raised, and the tables.
unfoldable pub outcome_of :
    {W : Type 0} → Outcome DocumentPipelineResult Raised × Database × W → Option Raised × Database
outcome_of (returned x, db, w) = (none, db)
outcome_of (raised e, db, w) = (some e, db)

module _ {W : Type 0} (env : Environment W) (settings : PipelineSettings) (d : PipelineDraws)
    (w : W) where
  -- session.get(ProcessingJob, job.id), and the pipeline if the row is there.
  run_fresh : Option ProcessingJob → Database → Option Raised × Database
  unfolding outcome_of run_document_pipeline
  run_fresh none db = (none, db)
  run_fresh (some fresh) db =
      outcome_of
        (run_document_pipeline env settings false d (some fresh) fresh.file_id none none db w)

  unfoldable pub run_document : Handler
  unfolding run_fresh
  run_document job db =
      run_fresh (find_if (λ (row : ProcessingJob). str_eq row.id job.id) db.jobs) db

  -- What a round makes of its job's row: completed, or settled by the exception.
  abbrev pub Ended : WorkerSettings → ℕ → ProcessingJob → Option Raised → ProcessingJob → Type 0
  Ended s now job none row = IsCompleted now row
  Ended s now job (some (pipeline_error m)) row = IsSettled now s.retry job m false row
  Ended s now job (some (pipeline_input_error m)) row = IsSettled now s.retry job m false row
  Ended s now job (some (value_error t m)) row = IsSettled now s.retry job m false row
  Ended s now job (some (other_error t m)) row = IsSettled now s.retry job m true row
