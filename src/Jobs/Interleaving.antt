-- ===== src/Jobs/Interleaving.antt =====
-- Workers, the recovery and the API interleave on one table. A worker holds the job objects that its
-- claims returned, for as long as it likes. Each step is one committed operation; the instants are
-- arbitrary, so no clock is assumed to be monotonic. Two steps read a row and then write it: a claim
-- writes under a condition and, in PostgreSQL, a row lock, and a request writes with neither. The
-- relation has both with no other step between the read and the write; Jobs/Requests says what a
-- request does whose row was claimed in between.
use vendorops_ai.Base.{ℕ, ◌<◌, String, ◌≡◌, ◌≢◌, refl, none, some, List, ◌∷◌, All, Has, Bool}
use vendorops_ai.Db.{queued, ProcessingJob, Database}
use vendorops_ai.Jobs.Lease.{claim_update, heartbeat_job, recover_expired_jobs}
use vendorops_ai.Repositories.Creates.{JobEntry, job_row, create_processing_job}
use vendorops_ai.Jobs.Finish.{RetrySettings, request_job_run, complete_job, fail_job}

-- A worker's id, and the job object that its claim returned.
pub record Handle : Type 0 where
  pub worker : String
  pub job : ProcessingJob

pub record System : Type 0 where
  pub db : Database
  pub held : List Handle

-- A uuid4 that no row and no handle has.
pub record IsFresh (e : String) (s : System) : Type 0 where
  pub rows : All (λ (r : ProcessingJob). r.execution_id ≢ some e) s.db.jobs
  pub handles : All (λ (h : Handle). h.job.execution_id ≢ some e) s.held

-- A new job, as create_processing_job adds it.
pub record IsNew (j : ProcessingJob) (s : System) : Type 0 where
  pub status : j.status ≡ queued
  pub attempts : j.attempts ≡ 0
  pub positive : 0 < j.max_attempts
  pub unowned : j.lease_owner ≡ none
  pub untimed : j.lease_expires_at ≡ none
  pub unnamed : j.execution_id ≡ none
  pub new_id : All (λ (r : ProcessingJob). r.id ≢ j.id) s.db.jobs

pub created-IsNew :
    (now : ℕ) (e : JobEntry) (s : System)
    → 0 < e.max_attempts
    → All (λ (r : ProcessingJob). r.id ≢ e.job_id) s.db.jobs
    → IsNew (job_row now e) s
unfolding job_row
created-IsNew now e s p fresh = record {
  status = refl;
  attempts = refl;
  positive = p;
  unowned = refl;
  untimed = refl;
  unnamed = refl;
  new_id = fresh;
}

pub data Step : System → System → Type 0 where
  -- a claim of any row: the row locks of other claims decide which one it reads
  claim :
      (s : System) (c j : ProcessingJob) (now : ℕ) (w e : String) (ls : ℕ)
      → Has c s.db.jobs
      → IsFresh e s
      → (claim_update c now w e ls s.db).0 ≡ some j
      → Step s (record {
        db = (claim_update c now w e ls s.db).1;
        held = record { worker = w; job = j } ∷ s.held;
      })
  -- a claim that lost its row
  claim_lost :
      (s : System) (c : ProcessingJob) (now : ℕ) (w e : String) (ls : ℕ)
      → (claim_update c now w e ls s.db).0 ≡ none
      → Step s (record s { db = (claim_update c now w e ls s.db).1 })
  heartbeat :
      (s : System) (now : ℕ) (id w e : String) (ls : ℕ)
      → Step s (record s { db = (heartbeat_job now id w e ls s.db).1 })
  recover : (s : System) (now : ℕ) → Step s (record s { db = (recover_expired_jobs now s.db).1 })
  -- a request that reads its job and writes it with no other step in between
  request :
      (s : System) (now : ℕ) (a : String) (c : ProcessingJob)
      → Has c s.db.jobs
      → Step s (record s { db = (request_job_run now a c s.db).1 })
  finish :
      (s : System) (now : ℕ) (a : String) (h : Handle)
      → Has h s.held
      → Step s (record s { db = (complete_job now a h.job h.worker s.db).1 })
  error :
      (s : System) (now : ℕ) (a : String) (settings : RetrySettings) (h : Handle) (message : String)
      (retryable : Bool)
      → Has h s.held
      → Step s (record s { db = (fail_job now a settings h.job h.worker message retryable s.db).1 })
  create :
      (s : System) (now : ℕ) (a : String) (e : JobEntry)
      → 0 < e.max_attempts
      → All (λ (r : ProcessingJob). r.id ≢ e.job_id) s.db.jobs
      → Step s (record s { db = (create_processing_job now a e s.db).1 })

pub data Reach (s : System) : System → Type 0 where
  here : Reach s s
  next : {t u : System} → Reach s t → Step t u → Reach s u
