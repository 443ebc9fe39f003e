-- ===== src/Jobs/Safety.antt =====
-- Every sequence of the operations of Jobs/Interleaving keeps the invariant.
use vendorops_ai.Base.{ℕ, zero, suc, String, ◌≡◌, refl, List, [], ◌∷◌, arith, All, All-map, Has}
use vendorops_ai.Db.{JobStatus, ProcessingJob, Database, empty_database, create_audit_log}
use vendorops_ai.Jobs.Lease.{heartbeat_job, recover_expired_jobs}
use vendorops_ai.Jobs.Finish.{
  Requested, accepted, refused, requested, request_job_run, complete_job, fail_job, save_requested,
  save_status,
}
use vendorops_ai.Jobs.Rows.{IsSound}
use vendorops_ai.Jobs.Claims.{claim_won, claim_lost_unchanged}
use vendorops_ai.Jobs.Interleaving.{
  Handle, System, IsNew, Step, claim, claim_lost, heartbeat, recover, request, finish, error,
  created-IsNew, create, Reach, here, next,
}
use vendorops_ai.Repositories.Creates.{job_row, create_processing_job}
use vendorops_ai.Jobs.Invariant.{Agrees, Inv}
use vendorops_ai.Jobs.Preserved.{
  heartbeat-Inv, recover-Inv, finish-Inv, error-Inv, request-Inv, claim-Inv,
}

abbrev pub SystemInv : System → Type 0
SystemInv s = Inv s.db.jobs s.held

pub save_status-jobs :
    (n now : ℕ) (a : String) (st : JobStatus) (job : ProcessingJob) (db : Database)
    → (save_status n now a st job db).jobs ≡ db.jobs
unfolding save_status create_audit_log
save_status-jobs zero now a st job db = refl
save_status-jobs (suc n) now a st job db = refl

request-step :
    (now : ℕ) (a : String) (c : ProcessingJob) (r : Requested) (db : Database) (held : List Handle)
    → requested now c ≡ r
    → Has c db.jobs
    → Inv db.jobs held
    → Inv (save_requested r now a c db).1.jobs held
unfolding save_requested create_audit_log
request-step now a c (refused e) db held q has i = i
request-step now a c (accepted j) db held q has i = request-Inv db.jobs held now c j has q i

new-IsSound : (s : System) (j : ProcessingJob) → IsNew j s → IsSound j
new-IsSound s j n = ground arith

created-Inv :
    (s : System) (j : ProcessingJob) → IsNew j s → SystemInv s → Inv (j ∷ s.db.jobs) s.held
created-Inv s j n i = record {
  key = (n.new_id, i.key);
  sound = (new-IsSound s j n, i.sound);
  agrees =
      All-map (λ h. All (Agrees h) s.db.jobs) (λ h. All (Agrees h) (j ∷ s.db.jobs))
        (λ h a. (new-Agrees h, a)) s.held i.agrees;
}
  where
    new-Agrees : (h : Handle) → Agrees h j
    new-Agrees h = record { agree = λ r q. ground arith }

-- Every step keeps the invariant.
pub Step-Inv : {s t : System} → Step s t → SystemInv s → SystemInv t
Step-Inv (claim s c j now w e ls has fresh won) i =
    let (able, same, after) = claim_won c now w e ls s.db j has i.key won in
    rw (after, same) (claim-Inv s.db.jobs s.held c now w e ls has fresh.rows fresh.handles i)
Step-Inv (claim_lost s c now w e ls none_left) i =
    rw (claim_lost_unchanged c now w e ls s.db none_left) i
Step-Inv (heartbeat s now id w e ls) i =
    unfold heartbeat_job in heartbeat-Inv s.db.jobs s.held now id w e ls i
Step-Inv (recover s now) i = unfold recover_expired_jobs in recover-Inv s.db.jobs s.held now i
Step-Inv (request s now a c has) i =
    unfold request_job_run in request-step now a c (requested now c) s.db s.held refl has i
Step-Inv (finish s now a h has) i =
    unfold complete_job in rw save_status-jobs (finish-Inv s.db.jobs s.held now h i)
Step-Inv (error s now a settings h m r has) i =
    unfold fail_job in rw save_status-jobs (error-Inv s.db.jobs s.held now settings h m r has i)
Step-Inv (create s now a e p fresh) i =
    unfold create_processing_job in
    unfold create_audit_log in created-Inv s (job_row now e) (created-IsNew now e s p fresh) i

abbrev pub start : System
start = record { db = empty_database; held = [] }

SystemInv-start : SystemInv start
SystemInv-start = record { key = tt; sound = tt; agrees = tt }

pub Reach-Inv : {t : System} → Reach start t → SystemInv t
Reach-Inv here = SystemInv-start
Reach-Inv (next r st) = Step-Inv st (Reach-Inv r)

-- In every state that the operations reach from empty tables, in any order and at any instants, every
-- job row is sound, if each claim that wins and each request to run a job writes the row as it has
-- read it, with no other step in between: its attempts do not exceed its max_attempts, a queued job
-- has an attempt left, a running job has been attempted and has an owner, a lease expiry and an
-- execution id, and a job that is not running has no owner and no lease expiry.
pub Reach-IsSound : {t : System} → Reach start t → All IsSound t.db.jobs
Reach-IsSound r = (Reach-Inv r).sound
