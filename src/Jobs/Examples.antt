-- ===== src/Jobs/Examples.antt =====
-- Runs of the job operations on small tables, and the theorems at them.
use vendorops_ai.Base.{
  List, unequal, ◌*◌, ◌≤◌, ◌≡◌, refl, inl, true, false, none, some, [], ◌∷◌, arith, All, min,
}
use vendorops_ai.Db.{
  text, queued, completed, running, failed, ProcessingJob, Database, empty_database,
}
use vendorops_ai.Jobs.Status.{transition, retry_delay}
use vendorops_ai.Jobs.Lease.{candidate, claim_update, claim_next_job, recover_expired_jobs, expired}
use vendorops_ai.Jobs.Finish.{
  RetrySettings, accepted, request_job_run, owned, complete_job, fail_job,
}
use vendorops_ai.Jobs.Rows.{IsSound}
use vendorops_ai.Jobs.Claims.{IsClaim, claim_next_job_wins}
use vendorops_ai.Jobs.Interleaving.{Handle, System, Reach, here, next, create, claim}
use vendorops_ai.Jobs.Safety.{start, Reach-IsSound}
use vendorops_ai.Jobs.Stale.{stale_worker_fenced}
use vendorops_ai.Jobs.Owners.{one_owner}
use vendorops_ai.Jobs.Order.{IsNext, candidate-first, retry_delay_backoff}
use vendorops_ai.Jobs.Outcomes.{IsSettled, fail_job_settles}
use vendorops_ai.Jobs.Requests.{
  IsReopened, request_reopens_failed, IsStranded, stale_request_strands,
}
use vendorops_ai.Repositories.Creates.{JobEntry, create_processing_job}

abbrev job : ProcessingJob
job = record {
  id = "j1";
  organization_id = some "o1";
  workspace_id = some "w1";
  file_id = "f1";
  pipeline = "document_extraction";
  status = queued;
  error_message = none;
  attempts = 0;
  max_attempts = 3;
  next_run_at = 10;
  started_at = none;
  completed_at = none;
  failed_at = none;
  lease_owner = none;
  lease_expires_at = none;
  execution_id = none;
  execution_metadata = none;
  created_at = 10;
  updated_at = 10;
}

abbrev table : Database
table = record empty_database {
  jobs = job ∷ [];
  audit_logs =
      record {
        id = "a0";
        organization_id = some "o1";
        workspace_id = some "w1";
        actor = "system";
        action = "job.created";
        entity_type = "processing_job";
        entity_id = some "j1";
        details = some (("file_id", text "f1") ∷ ("pipeline", text "document_extraction") ∷ []);
        created_at = 10;
      }
      ∷ [];
}

abbrev claimed : ProcessingJob
claimed = record job {
  status = running;
  attempts = 1;
  started_at = some 20;
  lease_owner = some "a";
  lease_expires_at = some 80;
  execution_id = some "e1";
  updated_at = 20;
}

claim_runs :
    claim_next_job 20 "a" "e1" 60 table ≡ (some claimed, record table { jobs = claimed ∷ [] })
unfolding claim_next_job
claim_runs = refl

abbrev handle : Handle
handle = record { worker = "a"; job = claimed }

abbrev leased : System
leased = record { db = record table { jobs = claimed ∷ [] }; held = handle ∷ [] }

abbrev new_job : JobEntry
new_job = record {
  job_id = "j1";
  file_id = "f1";
  pipeline = "document_extraction";
  organization_id = some "o1";
  workspace_id = some "w1";
  max_attempts = 3;
}

created : create_processing_job 10 "a0" new_job empty_database ≡ (job, table)
unfolding create_processing_job
created = refl

Reach-leased : Reach start leased
unfolding claim_update create_processing_job
Reach-leased = next (next here (create start 10 "a0" new_job (omega arith) tt)) (
    claim (record { db = table; held = [] }) job claimed 20 "a" "e1" 60 (inl refl)
      (record { rows = ((λ e. cc), tt); handles = tt }) refl)

owns_row : owned claimed "a" claimed ≡ true
unfolding owned
owns_row = refl

-- The lease ends at 80; at 90 the job is recovered, and the worker's completion at 95 is refused.
stale_worker_fenced_example :
    (complete_job 95 "x" claimed "a" (recover_expired_jobs 90 leased.db).1
      ≡ (false, (recover_expired_jobs 90 leased.db).1))
    × (fail_job 95 "x"
          (record { retry_base_seconds = 5; retry_max_seconds = 300 })
          claimed
          "a"
          "boom"
          true
          (recover_expired_jobs 90 leased.db).1
        ≡ (queued, (recover_expired_jobs 90 leased.db).1))
unfolding expired
stale_worker_fenced_example =
    stale_worker_fenced leased (record leased { db = (recover_expired_jobs 90 leased.db).1 }) handle
      90 Reach-leased (inl refl) ((λ _. refl), tt) here 95 "x"
      (record { retry_base_seconds = 5; retry_max_seconds = 300 }) "boom" true

one_owner_example : handle ≡ handle
one_owner_example =
    one_owner Reach-leased handle handle claimed claimed (inl refl) (inl refl) (inl refl) (inl refl)
      refl owns_row owns_row

Reach-IsSound_example : All IsSound (claimed ∷ [])
Reach-IsSound_example = Reach-IsSound Reach-leased

abbrev later_job : ProcessingJob
later_job = record job { id = "j2"; next_run_at = 15; created_at = 5 }

abbrev finished_job : ProcessingJob
finished_job = record job { id = "j3"; status = completed; next_run_at = 1 }

-- A row that runs later, one that is not queued, and the one that is next.
abbrev rows : List ProcessingJob
rows = later_job ∷ finished_job ∷ job ∷ []

next_row : candidate 20 rows ≡ some job
unfolding candidate
next_row = refl

candidate-first_example : IsNext 20 rows (candidate 20 rows)
candidate-first_example = candidate-first 20 rows

claim_next_job_wins_example :
    IsClaim 20 "b" "e2" 60
      (record empty_database { jobs = rows })
      (claim_next_job 20 "b" "e2" 60 (record empty_database { jobs = rows }))
claim_next_job_wins_example =
    claim_next_job_wins 20 "b" "e2" 60 (record empty_database { jobs = rows })
      (
        (unequal "j3" "j2" refl, (unequal "j1" "j2" refl, tt)),
        ((unequal "j1" "j3" refl, tt), (tt, tt)),
      )

retry_delay_backoff_example :
    (retry_delay 2 5 300 ≤ 300)
    × (retry_delay 2 5 300 ≤ retry_delay 3 5 300)
    × (retry_delay 4 5 300 ≡ min 300 (2 * retry_delay 3 5 300))
retry_delay_backoff_example = retry_delay_backoff 2 5 300

retry_delays : (retry_delay 1 5 300 ≡ 5) × (retry_delay 3 5 300 ≡ 20) × (retry_delay 9 5 300 ≡ 300)
unfolding retry_delay
retry_delays = (refl, refl, refl)

abbrev retries : RetrySettings
retries = record { retry_base_seconds = 5; retry_max_seconds = 300 }

fail_job_settles_example :
    All
      (λ row. row.id ≡ "j1" → IsSettled 30 retries claimed "boom" true row)
      (fail_job 30 "x" retries claimed "a" "boom" true leased.db).1.jobs
fail_job_settles_example =
    fail_job_settles 30 "x" retries claimed "a" "boom" true leased.db ((λ _. owns_row), tt)

abbrev dead : ProcessingJob
dead = record job { status = failed; attempts = 3; failed_at = some 70 }

request_reopens_failed_example :
    (transition dead running ≡ none)
    × ((j : ProcessingJob) × ((request_job_run 100 "x" dead
            (record empty_database { jobs = dead ∷ [] })).0
          ≡ accepted j))
    × All
        (λ row. row.id ≡ "j1" → IsReopened 100 row)
        (request_job_run 100 "x" dead (record empty_database { jobs = dead ∷ [] })).1.jobs
request_reopens_failed_example =
    request_reopens_failed 100 "x" dead running (record empty_database { jobs = dead ∷ [] }) refl
      ((λ _. refl), tt)

-- The job as the request read it: queued again after a first run.
abbrev read_before : ProcessingJob
read_before = record job { attempts = 1; execution_id = some "e0" }

stale_request_strands_example :
    All
      (λ row. row.id ≡ "j1" → IsStranded 19 "x" read_before leased.db row)
      (request_job_run 19 "x" read_before leased.db).1.jobs
    × (complete_job 30 "y" claimed "a" (request_job_run 19 "x" read_before leased.db).1
        ≡ (false, (request_job_run 19 "x" read_before leased.db).1))
stale_request_strands_example =
    stale_request_strands 19 "x" read_before leased.db "e0" handle 30 "y" refl refl
      ((λ _. refl), tt) refl (λ e. cc)
