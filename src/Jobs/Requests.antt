-- ===== src/Jobs/Requests.antt =====
-- What request_job_run of app/workers/durable.py does to a job that has failed, and to a job that was
-- claimed after the request had read it.
use vendorops_ai.Base.{
  ℕ, ◌==◌, ◌≤◌, if◌then◌else◌, String, ◌≡◌, ◌≢◌, refl, ◌∙◌, Bool, true, false, Option, none, some,
  arith, eq_iff, str_eq, opt_eq, ◌&&◌, inl, inr, All, All-map, All-update_if, Bool-cases,
}
use vendorops_ai.Db.{JobStatus, queued, running, failed, ProcessingJob, Database, create_audit_log}
use vendorops_ai.Jobs.Status.{transition}
use vendorops_ai.Jobs.Lease.{has_id}
use vendorops_ai.Jobs.Finish.{
  cleared, accepted, requested, flush_request, save_requested, request_job_run, owned, null_safe_eq,
  complete_job,
}
use vendorops_ai.Jobs.Order.{IsEligible}
use vendorops_ai.Jobs.Interleaving.{Handle}
use vendorops_ai.Jobs.Fencing.{complete-Lost}

-- The row of a job that may be claimed as if it had never run.
pub record IsReopened (now : ℕ) (row : ProcessingJob) : Type 0 where
  pub eligible : IsEligible now row
  pub uncounted : row.attempts ≡ 0
  pub unfailed : row.failed_at ≡ none
  pub unowned : row.lease_owner ≡ none
  pub silent : row.error_message ≡ none

cleared-same : {A : Type 0} (o : Option A) → cleared o o ≡ none
unfolding cleared
cleared-same none = refl
cleared-same (some x) = refl

-- The column for `next_run_at`, or for `attempts`, after the write.
set_to : (loaded value : ℕ) → (if loaded == value then loaded else value) ≡ value
set_to loaded value = ground arith

le_of_eq : (m n : ℕ) → m ≡ n → m ≤ n
le_of_eq m n e = omega arith

flush-IsReopened :
    (now : ℕ) (job : ProcessingJob) → IsReopened now (flush_request failed now job job)
unfolding flush_request cleared
flush-IsReopened now job = record {
  eligible = record {
    waiting = refl;
    due = le_of_eq _ now (set_to job.next_run_at now);
    unleased = inl (cleared-same job.lease_expires_at);
  };
  uncounted = set_to job.attempts 0;
  unfailed = cleared-same job.failed_at;
  unowned = cleared-same job.lease_owner;
  silent = cleared-same job.error_message;
}

-- Of a job that has failed for good the transition table says that it goes nowhere, but a request
-- to run it is accepted, and leaves its row as one that may be claimed at once, with no attempt
-- counted, no owner and no error.
pub request_reopens_failed :
    (now : ℕ) (a : String) (job : ProcessingJob) (target : JobStatus) (db : Database)
    → job.status ≡ failed
    → All (λ row. row.id ≡ job.id → row ≡ job) db.jobs
    → (transition job target ≡ none)
      × ((j : ProcessingJob) × ((request_job_run now a job db).0 ≡ accepted j))
      × All (λ row. row.id ≡ job.id → IsReopened now row) (request_job_run now a job db).1.jobs
unfolding transition request_job_run requested save_requested create_audit_log
request_reopens_failed now a job target db h only = rw h (
  refl,
  (
    record job {
      status = queued;
      failed_at = none;
      attempts = 0;
      next_run_at = now;
      error_message = none;
      lease_owner = none;
      lease_expires_at = none;
      execution_id = none;
      updated_at = now;
    },
    refl,
  ),
  All-update_if (λ row. row.id ≡ job.id → row ≡ job) (λ row. row.id ≡ job.id → IsReopened now row)
      (has_id job.id) (flush_request failed now job)
      (λ x b f e. rw (f ((eq_iff x.id job.id).0 b)) (flush-IsReopened now job))
      (λ x b f e. absurd (cc (b, (eq_iff x.id job.id).1 e))) db.jobs only,
)

unnamed : (o : Option String) → o ≢ none → (b : Bool) → b && null_safe_eq none o ≡ false
unnamed none n b = absurd (n refl)
unnamed (some e) n true = refl
unnamed (some e) n false = refl

module _ (now : ℕ) (a : String) (c : ProcessingJob) (db : Database) where
  -- A row that was claimed after the request had read it as `c`, and then lost its execution id.
  abbrev pub IsStranded : ProcessingJob → Type 0
  IsStranded row = (row.status ≡ running) × (row.execution_id ≡ none)

  cleared_named :
      (e : String) (d r : ProcessingJob)
      → d.execution_id ≡ some e
      → cleared d.execution_id r.execution_id ≡ none
  unfolding cleared
  cleared_named e d r x = rw x refl

  stranded :
      (e : String)
      → c.status ≡ queued
      → c.execution_id ≡ some e
      → All (λ row. row.id ≡ c.id → row.status ≡ running) db.jobs
      → All (λ row. row.id ≡ c.id → IsStranded row) (request_job_run now a c db).1.jobs
  unfolding request_job_run requested save_requested create_audit_log flush_request cleared
  stranded e q x run = rw q (
      All-update_if (λ row. row.id ≡ c.id → row.status ≡ running)
        (λ row. row.id ≡ c.id → IsStranded row) (has_id c.id) (flush_request queued now c)
        (λ r b f i. (f i, cleared_named e c r x))
        (λ r b f i. absurd (cc (b, (eq_iff r.id c.id).1 i))) db.jobs run)

  stranded-lost :
      (k : Handle) (row : ProcessingJob)
      → k.job.id ≡ c.id
      → k.job.execution_id ≢ none
      → (row.id ≡ c.id → IsStranded row)
      → owned k.job k.worker row ≡ false
  unfolding owned
  stranded-lost k row i n f = elim (Bool-cases (str_eq row.id k.job.id)) [
    | inl e ↦
        let (run, gone) = f ((eq_iff row.id k.job.id).0 e ∙ i) in
        rw (e, run, gone) (unnamed k.job.execution_id n (opt_eq row.lease_owner k.worker))
    | inr e ↦ rw e refl
  ]

  -- If a request has read a job that was queued with the execution id of an earlier run, as a run that
  -- failed leaves it, and the job is claimed before the request writes, the request leaves the claimed
  -- row running but without its execution id, and no worker that holds the job under an execution id
  -- can complete it.
  pub stale_request_strands :
      (e : String) (k : Handle) (later : ℕ) (a' : String)
      → c.status ≡ queued
      → c.execution_id ≡ some e
      → All (λ row. row.id ≡ c.id → row.status ≡ running) db.jobs
      → k.job.id ≡ c.id
      → k.job.execution_id ≢ none
      → All (λ row. row.id ≡ c.id → IsStranded row) (request_job_run now a c db).1.jobs
        × (complete_job later a' k.job k.worker (request_job_run now a c db).1
            ≡ (false, (request_job_run now a c db).1))
  stale_request_strands e k later a' q x run i n =
      let rows = stranded e q x run in
      (
        rows,
        complete-Lost k later a' (request_job_run now a c db).1 (
            All-map (λ row. row.id ≡ c.id → IsStranded row)
              (λ row. owned k.job k.worker row ≡ false) (λ row f. stranded-lost k row i n f)
              (request_job_run now a c db).1.jobs rows),
      )
