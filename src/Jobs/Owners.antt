-- ===== src/Jobs/Owners.antt =====
-- A job has at most one owner: of all claims ever granted, one at most may write its row.
use vendorops_ai.Base.{
  ℕ, String, refl, ◌≡◌, ◌≢◌, sym, ap, ◌∙◌, true, arith, eq_iff, All, All-Has, Has, List, [], ◌∷◌,
  inl, inr, some,
}
use vendorops_ai.Db.{ProcessingJob}
use vendorops_ai.Jobs.Lease.{lease}
use vendorops_ai.Jobs.Finish.{owned}
use vendorops_ai.Jobs.Keys.{Has-only}
use vendorops_ai.Jobs.Claims.{claim_won}
use vendorops_ai.Jobs.Interleaving.{
  Handle, System, Step, claim, claim_lost, heartbeat, recover, request, finish, error, create,
  Reach, here, next,
}
use vendorops_ai.Jobs.Preserved.{owned-agrees}
use vendorops_ai.Jobs.Safety.{SystemInv, start, Reach-Inv}

-- No two handles carry one execution id.
abbrev pub Distinct : List Handle → Type 0
Distinct [] = Unit
Distinct (h ∷ hs) = All (λ (k : Handle). k.job.execution_id ≢ h.job.execution_id) hs × Distinct hs

lease-named :
    (c : ProcessingJob) (now : ℕ) (w e : String) (ls : ℕ)
    → some e ≡ (lease c now w e ls c).execution_id
unfolding lease
lease-named c now w e ls = refl

Step-Distinct : {s t : System} → Step s t → SystemInv s → Distinct s.held → Distinct t.held
Step-Distinct (claim s c j now w e ls has fresh won) i d =
    let (able, same, after) = claim_won c now w e ls s.db j has i.key won in
    (rw (same, ← lease-named c now w e ls) fresh.handles, d)
Step-Distinct (claim_lost s c now w e ls nothing) i d = d
Step-Distinct (heartbeat s now id w e ls) i d = d
Step-Distinct (recover s now) i d = d
Step-Distinct (request s now a c has) i d = d
Step-Distinct (finish s now a k has) i d = d
Step-Distinct (error s now a settings k m r has) i d = d
Step-Distinct (create s now a e p fresh) i d = d

Reach-Distinct : {t : System} → Reach start t → Distinct t.held
Reach-Distinct here = tt
Reach-Distinct (next r st) = Step-Distinct st (Reach-Inv r) (Reach-Distinct r)

differ :
    (h k : Handle) (hs : List Handle)
    → All (λ (x : Handle). x.job.execution_id ≢ h.job.execution_id) hs
    → Has k hs
    → k.job.execution_id ≢ h.job.execution_id
differ h k hs d m = All-Has (λ (x : Handle). x.job.execution_id ≢ h.job.execution_id) k hs d m

same_handle :
    (h k : Handle) (hs : List Handle)
    → Distinct hs
    → Has h hs
    → Has k hs
    → h.job.execution_id ≡ k.job.execution_id
    → h ≡ k
same_handle h k [] d mh mk e = elim mh [ ]
same_handle h k (x ∷ xs) d (inl p) (inl q) e = sym p ∙ q
same_handle h k (x ∷ xs) d (inl p) (inr q) e =
    absurd (differ x k xs d.0 q (sym e ∙ ap (λ (y : Handle). y.job.execution_id) (sym p)))
same_handle h k (x ∷ xs) d (inr p) (inl q) e =
    absurd (differ x h xs d.0 p (e ∙ ap (λ (y : Handle). y.job.execution_id) (sym q)))
same_handle h k (x ∷ xs) d (inr p) (inr q) e = same_handle h k xs d.1 p q e

owned-id : (h : Handle) (row : ProcessingJob) → owned h.job h.worker row ≡ true → row.id ≡ h.job.id
unfolding owned
owned-id h row o = ground (arith, eq_iff row.id h.job.id)

-- In every reachable state, if two handles of one job each match a row that complete_job or fail_job
-- would write through them, they are the same handle: of all the claims that were ever granted on a
-- job, one at most can still complete or fail it.
pub one_owner :
    {t : System}
    → Reach start t
    → (h k : Handle) (row row' : ProcessingJob) → Has h t.held
    → Has k t.held
    → Has row t.db.jobs
    → Has row' t.db.jobs
    → h.job.id ≡ k.job.id
    → owned h.job h.worker row ≡ true
    → owned k.job k.worker row' ≡ true
    → h ≡ k
one_owner {t} r h k row row' mh mk mr mr' e oh ok =
    let key = (Reach-Inv r).key in
    let ids : row'.id ≡ row.id = owned-id k row' ok ∙ sym e ∙ sym (owned-id h row oh) in
    let same : row' ≡ row =
      All-Has (λ (x : ProcessingJob). x.id ≡ row.id → x ≡ row) row' t.db.jobs
        (Has-only row t.db.jobs key mr) mr' ids in
    same_handle h k t.held (Reach-Distinct r) mh mk (
      sym (owned-agrees h row oh).1
      ∙ ap (λ (x : ProcessingJob). x.execution_id) (sym same)
      ∙ (owned-agrees k row' ok).1)
