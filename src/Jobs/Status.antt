-- ===== src/Jobs/Status.antt =====
-- app/workers/durable.py: the job statuses, the transition table and the retry delay.
use vendorops_ai.Base.{
  ℕ, ◌-◌, ◌*◌, ◌^◌, min, String, Bool, true, false, ◌||◌, Option, none, some, List, [], ◌∷◌, str_eq,
  if◌then◌else◌,
}
use vendorops_ai.Db.{JobStatus, queued, running, completed, failed, other, ProcessingJob}

-- `status == QUEUED` and so on.
abbrev pub is_queued : JobStatus → Bool
is_queued queued = true
is_queued _ = false

abbrev pub is_running : JobStatus → Bool
is_running running = true
is_running _ = false

-- The text in the column.
unfoldable pub status_text : JobStatus → String
status_text queued = "queued"
status_text running = "running"
status_text completed = "completed"
status_text failed = "failed"
status_text (other s) = s

-- ALLOWED_TRANSITIONS.
allowed_transitions : JobStatus → List JobStatus
allowed_transitions queued = running ∷ []
allowed_transitions running = queued ∷ completed ∷ failed ∷ []
allowed_transitions completed = []
allowed_transitions failed = []
allowed_transitions (other s) = []

abbrev pub same_status : JobStatus → JobStatus → Bool
same_status queued queued = true
same_status running running = true
same_status completed completed = true
same_status failed failed = true
same_status (other s) (other t) = str_eq s t
same_status _ _ = false

status_in : JobStatus → List JobStatus → Bool
status_in s [] = false
status_in s (t ∷ ts) = same_status s t || status_in s ts

-- `none` is InvalidJobTransition.
unfoldable pub transition : ProcessingJob → JobStatus → Option ProcessingJob
unfolding allowed_transitions status_in
transition job target =
    if status_in target (allowed_transitions job.status)
    then some (record job { status = target })
    else none

-- min(maximum, base * 2 ** max(0, attempt - 1)); `-` stops at 0 as `max` does.
unfoldable pub retry_delay : ℕ → ℕ → ℕ → ℕ
retry_delay attempt base maximum = min maximum (base * 2 ^ (attempt - 1))
