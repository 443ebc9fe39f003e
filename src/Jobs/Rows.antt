-- ===== src/Jobs/Rows.antt =====
-- What holds of every row of processing_jobs, and that each update of a row keeps it.
use vendorops_ai.Base.{ℕ, ◌≤◌, ◌<◌, String, ◌≡◌, ◌≢◌, Bool, true, false, none, arith}
use vendorops_ai.Db.{ProcessingJob}
use vendorops_ai.Jobs.Status.{is_queued, is_running}
use vendorops_ai.Jobs.Lease.{
  eligible, lease, recoverable, exhausted, requeue, give_up, prolong, beats,
}
use vendorops_ai.Jobs.Finish.{
  RetrySettings, requested, flush_request, owned, complete, is_terminal, fail_values, accepted,
}

pub record IsSound (job : ProcessingJob) : Type 0 where
  pub positive : 0 < job.max_attempts
  pub bounded : job.attempts ≤ job.max_attempts
  pub queued_room : is_queued job.status ≡ true → job.attempts < job.max_attempts
  pub running_counted : is_running job.status ≡ true → 0 < job.attempts
  pub running_owned : is_running job.status ≡ true → job.lease_owner ≢ none
  pub running_timed : is_running job.status ≡ true → job.lease_expires_at ≢ none
  pub running_named : is_running job.status ≡ true → job.execution_id ≢ none
  pub idle_free : is_running job.status ≡ false → job.lease_owner ≡ none
  pub idle_untimed : is_running job.status ≡ false → job.lease_expires_at ≡ none

pub lease-IsSound :
    (now : ℕ) (w e : String) (ls : ℕ) (c : ProcessingJob)
    → eligible now c ≡ true
    → IsSound c
    → IsSound (lease c now w e ls c)
unfolding eligible lease
lease-IsSound now w e ls c h s = ground arith

pub prolong-IsSound :
    (now : ℕ) (j w e : String) (ls : ℕ) (row : ProcessingJob)
    → beats now j w e row ≡ true
    → IsSound row
    → IsSound (prolong now ls row)
unfolding prolong beats
prolong-IsSound now j w e ls row h s = ground arith

pub requeue-IsSound :
    (now : ℕ) (row : ProcessingJob)
    → recoverable now row ≡ true
    → IsSound row
    → IsSound (requeue now row)
unfolding requeue recoverable
requeue-IsSound now row h s = ground arith

pub give_up-IsSound :
    (now : ℕ) (row : ProcessingJob)
    → exhausted now row ≡ true
    → IsSound row
    → IsSound (give_up now row)
unfolding give_up exhausted
give_up-IsSound now row h s = ground arith

pub complete-IsSound :
    (now : ℕ) (job : ProcessingJob) (w : String) (row : ProcessingJob)
    → owned job w row ≡ true
    → IsSound row
    → IsSound (complete now row)
unfolding owned complete
complete-IsSound now job w row h s = ground arith

-- The attempts that fail_job compares are those of the job object.
pub fail_values-IsSound :
    (now : ℕ) (settings : RetrySettings) (job : ProcessingJob) (error : String) (retryable : Bool)
    (row : ProcessingJob)
    → row.attempts ≡ job.attempts
    → row.max_attempts ≡ job.max_attempts
    → IsSound row
    → IsSound (fail_values now settings job error (is_terminal job retryable) row)
unfolding fail_values is_terminal
fail_values-IsSound now settings job error retryable row a m s = ground arith

-- A request leaves a row sound when the object that it was given is that row.
pub flush_request-IsSound :
    (now : ℕ) (job j : ProcessingJob)
    → requested now job ≡ accepted j
    → IsSound job
    → (flush_request job.status now job job ≡ j) × IsSound j
unfolding requested flush_request
flush_request-IsSound now job j h s = (ground arith, ground arith)
