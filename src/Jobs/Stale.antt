-- ===== src/Jobs/Stale.antt =====
-- A worker whose lease was recovered cannot write the job, then or later.
use vendorops_ai.Base.{
  ℕ, String, ◌≡◌, Bool, true, false, All, All-update_if, Has, arith, update_if, List,
}
use vendorops_ai.Db.{queued, ProcessingJob}
use vendorops_ai.Jobs.Lease.{
  recover_expired_jobs, recoverable, exhausted, requeue, give_up, expired,
}
use vendorops_ai.Jobs.Finish.{RetrySettings, owned, complete_job, fail_job}
use vendorops_ai.Jobs.Interleaving.{Handle, System, Reach, recover}
use vendorops_ai.Jobs.Safety.{start, Reach-Inv, Step-Inv}
use vendorops_ai.Jobs.Fencing.{
  Lost, Reach-Lost, complete-Lost, fail-Lost, requeue-lost, give_up-lost,
}

-- The rows that the handle owns have a lease that is over at `now`.
abbrev pub IsExpired : Handle → ℕ → List ProcessingJob → Type 0
IsExpired h now = All (λ row. owned h.job h.worker row ≡ true → expired now row ≡ true)

still_expired :
    (h : Handle) (now : ℕ) (row : ProcessingJob)
    → recoverable now row ≡ false
    → exhausted now row ≡ false
    → (owned h.job h.worker row ≡ true → expired now row ≡ true)
    → owned h.job h.worker row ≡ false
unfolding recoverable exhausted expired owned
still_expired h now row r x e = ground arith

module _ (h : Handle) (now : ℕ) where
  recover-Lost :
      (jobs : List ProcessingJob)
      → IsExpired h now jobs
      → Lost h
          (update_if (exhausted now) (give_up now) (update_if (recoverable now) (requeue now) jobs))
  recover-Lost jobs e =
      All-update_if (λ x. exhausted now x ≡ false → owned h.job h.worker x ≡ false)
        (λ x. owned h.job h.worker x ≡ false) (exhausted now) (give_up now)
        (λ x b f. give_up-lost h now x) (λ x b f. f b)
        (update_if (recoverable now) (requeue now) jobs)
        (All-update_if (λ row. owned h.job h.worker row ≡ true → expired now row ≡ true)
          (λ x. exhausted now x ≡ false → owned h.job h.worker x ≡ false) (recoverable now)
          (requeue now) (λ x b f _. requeue-lost h now x) (λ x b f g. still_expired h now x b g f)
          jobs e)

-- Once recover_expired_jobs has run at an instant when the lease of a handle was over, then after any
-- further steps of workers, recovery and API complete_job through that handle returns False and
-- fail_job through it returns QUEUED, and neither changes any table.
pub stale_worker_fenced :
    (s t : System) (h : Handle) (now : ℕ)
    → Reach start s
    → Has h s.held
    → IsExpired h now s.db.jobs
    → Reach (record s { db = (recover_expired_jobs now s.db).1 }) t
    → (later : ℕ) (a : String) (settings : RetrySettings) (message : String) (retryable : Bool)
    → (complete_job later a h.job h.worker t.db ≡ (false, t.db))
      × (fail_job later a settings h.job h.worker message retryable t.db ≡ (queued, t.db))
stale_worker_fenced s t h now r held e rest later a settings message retryable =
    let lost = recovered e in
    let (i, k, l) = Reach-Lost h (Step-Inv (recover s now) (Reach-Inv r)) held lost rest in
    (complete-Lost h later a t.db l, fail-Lost h later a settings message retryable t.db l)
  where
    recovered : IsExpired h now s.db.jobs → Lost h (recover_expired_jobs now s.db).1.jobs
    recovered x = unfold recover_expired_jobs in recover-Lost h now s.db.jobs x
