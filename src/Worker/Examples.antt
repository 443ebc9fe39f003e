-- ===== src/Worker/Examples.antt =====
-- A round of the worker on a table with one job.
use vendorops_ai.Base.{◌≡◌, refl, false, none, some, [], ◌∷◌}
use vendorops_ai.Db.{queued, ProcessingJob, Database, empty_database}
use vendorops_ai.Jobs.{candidate, recover_expired_jobs}
use vendorops_ai.Worker.{other_error, Handler, WorkerSettings, Draws, run_once}
use vendorops_ai.Worker.Rounds.{run_once_idle}

abbrev job : ProcessingJob
job = record {
  id = "j1";
  organization_id = none;
  workspace_id = none;
  file_id = "f1";
  pipeline = "document_extraction";
  status = queued;
  error_message = none;
  attempts = 1;
  max_attempts = 3;
  next_run_at = 10;
  started_at = none;
  completed_at = none;
  failed_at = none;
  lease_owner = none;
  lease_expires_at = none;
  execution_id = none;
  execution_metadata = none;
  created_at = 10;
  updated_at = 10;
}

abbrev table : Database
table = record empty_database { jobs = job ∷ [] }

abbrev settings : WorkerSettings
settings = record {
  lease_duration = 60;
  retry = record { retry_base_seconds = 5; retry_max_seconds = 300 };
}

abbrev draws : Draws
draws = record {
  recover_now = 20;
  claim_now = 21;
  finish_now = 30;
  execution_id = "e1";
  audit_id = "x1";
  error_id = "x2";
  error_audit_id = "x3";
}

abbrev broken : Handler
broken j db = (some (other_error "OSError" "disk"), db)

recovered_same : recover_expired_jobs 20 table ≡ (0, table)
unfolding recover_expired_jobs
recovered_same = refl

run_once_idle_example :
    run_once settings "a" broken draws empty_database
    ≡ (false, (recover_expired_jobs 20 empty_database).1)
unfolding recover_expired_jobs candidate
run_once_idle_example = run_once_idle settings "a" broken draws empty_database refl
