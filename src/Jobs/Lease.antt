-- ===== src/Jobs/Lease.antt =====
-- app/workers/durable.py: claim_next_job, heartbeat_job and recover_expired_jobs. An operation maps
-- the tables to the tables after its commit, and its result. `now` is `utc_now()`; ids that the code
-- draws with uuid4 are arguments; seconds are clock ticks.
use vendorops_ai.Base.{
  ℕ, ◌+◌, String, Bool, true, false, ◌&&◌, ◌||◌, Option, none, some, List, [], ◌∷◌, ltb, leb, ◌==◌,
  opt_eq, str_eq, if◌then◌else◌, count_if, update_if, find_if, keep_if,
}
use vendorops_ai.Db.{queued, running, failed, ProcessingJob, Database}
use vendorops_ai.Jobs.Status.{is_queued, is_running}

-- `eligible` of claim_next_job. A comparison with NULL does not hold.
unfoldable pub eligible : ℕ → ProcessingJob → Bool
eligible now job =
    is_queued job.status
    && leb job.next_run_at now
    && (elim job.lease_expires_at [ none ↦ true | some t ↦ ltb t now ])

-- `ORDER BY next_run_at, created_at`.
unfoldable pub runs_before : ProcessingJob → ProcessingJob → Bool
runs_before a b =
    ltb a.next_run_at b.next_run_at
    || a.next_run_at == b.next_run_at && ltb a.created_at b.created_at

-- `LIMIT 1` of that order: a row that no other precedes.
unfoldable pub first_run : List ProcessingJob → Option ProcessingJob
unfolding runs_before
first_run [] = none
first_run (j ∷ js) = elim (first_run js) [
  | none ↦ some j
  | some k ↦ (if runs_before k j then some k else some j)
]

unfoldable pub candidate : ℕ → List ProcessingJob → Option ProcessingJob
unfolding first_run eligible
candidate now jobs = first_run (keep_if (eligible now) jobs)

-- `values` of claim_next_job.
unfoldable pub lease : ProcessingJob → ℕ → String → String → ℕ → ProcessingJob → ProcessingJob
lease c now worker_id execution_id lease_seconds row = record row {
  status = running;
  attempts = c.attempts + 1;
  started_at = some now;
  lease_owner = some worker_id;
  lease_expires_at = some (now + lease_seconds);
  execution_id = some execution_id;
  error_message = none;
  updated_at = now;
}

abbrev pub has_id : String → ProcessingJob → Bool
has_id id row = str_eq row.id id

-- `ProcessingJob.id == candidate.id, eligible`.
unfoldable pub claimable : ℕ → String → ProcessingJob → Bool
unfolding eligible
claimable now id row = str_eq row.id id && eligible now row

-- The conditional UPDATE of a row that was read before; no other row count than 1 is kept.
unfoldable pub claim_update :
    ProcessingJob → ℕ → String → String → ℕ → Database → Option ProcessingJob × Database
unfolding claimable lease
claim_update c now worker_id execution_id lease_seconds db =
    let claimed = record db {
      jobs =
          update_if (claimable now c.id) (lease c now worker_id execution_id lease_seconds) db.jobs;
    } in
    if count_if (claimable now c.id) db.jobs == 1
    then (find_if (has_id c.id) claimed.jobs, claimed)
    else (none, db)

unfoldable pub claim_candidate :
    Option ProcessingJob → ℕ → String → String → ℕ → Database → Option ProcessingJob × Database
unfolding claim_update
claim_candidate none now worker_id execution_id lease_seconds db = (none, db)
claim_candidate (some c) now worker_id execution_id lease_seconds db =
    claim_update c now worker_id execution_id lease_seconds db

unfoldable pub claim_next_job : ℕ → String → String → ℕ → Database → Option ProcessingJob × Database
unfolding candidate claim_candidate
claim_next_job now worker_id execution_id lease_seconds db =
    claim_candidate (candidate now db.jobs) now worker_id execution_id lease_seconds db

unfoldable pub beats : ℕ → String → String → String → ProcessingJob → Bool
beats now job_id worker_id execution_id row =
    str_eq row.id job_id
    && is_running row.status
    && opt_eq row.lease_owner worker_id
    && opt_eq row.execution_id execution_id
    && (elim row.lease_expires_at [ none ↦ false | some t ↦ leb now t ])

unfoldable pub prolong : ℕ → ℕ → ProcessingJob → ProcessingJob
prolong now lease_seconds row = record row {
  lease_expires_at = some (now + lease_seconds);
  updated_at = now;
}

unfoldable pub heartbeat_job : ℕ → String → String → String → ℕ → Database → Bool × Database
unfolding beats prolong
heartbeat_job now job_id worker_id execution_id lease_seconds db = (
  count_if (beats now job_id worker_id execution_id) db.jobs == 1,
  record db {
    jobs = update_if (beats now job_id worker_id execution_id) (prolong now lease_seconds) db.jobs;
  },
)

unfoldable pub expired : ℕ → ProcessingJob → Bool
expired now row =
    is_running row.status && (elim row.lease_expires_at [ none ↦ false | some t ↦ ltb t now ])

unfoldable pub recoverable : ℕ → ProcessingJob → Bool
unfolding expired
recoverable now row = expired now row && ltb row.attempts row.max_attempts

unfoldable pub exhausted : ℕ → ProcessingJob → Bool
unfolding expired
exhausted now row = expired now row && leb row.max_attempts row.attempts

unfoldable pub requeue : ℕ → ProcessingJob → ProcessingJob
requeue now row = record row {
  status = queued;
  next_run_at = now;
  lease_owner = none;
  lease_expires_at = none;
  execution_id = none;
  error_message = some "Worker lease expired; job recovered.";
  updated_at = now;
}

unfoldable pub give_up : ℕ → ProcessingJob → ProcessingJob
give_up now row = record row {
  status = failed;
  failed_at = some now;
  lease_owner = none;
  lease_expires_at = none;
  execution_id = none;
  error_message = some "Worker lease expired after the maximum number of attempts.";
  updated_at = now;
}

-- Two updates, one after the other; a rollback of two updates that matched nothing changes nothing.
unfoldable pub recover_expired_jobs : ℕ → Database → ℕ × Database
unfolding recoverable exhausted requeue give_up
recover_expired_jobs now db =
    let requeued = update_if (recoverable now) (requeue now) db.jobs in
    (
      count_if (recoverable now) db.jobs + count_if (exhausted now) requeued,
      record db { jobs = update_if (exhausted now) (give_up now) requeued },
    )
