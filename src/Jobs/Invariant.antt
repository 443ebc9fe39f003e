-- ===== src/Jobs/Invariant.antt =====
-- What holds of the table and of the handles after any sequence of the operations of Jobs/Interleaving.
use vendorops_ai.Base.{
  ℕ, String, ◌≡◌, ◌≢◌, sym, Bool, true, false, some, List, [], ◌∷◌, All, All-update_if, All-zip,
  update_if,
}
use vendorops_ai.Db.{ProcessingJob}
use vendorops_ai.Jobs.Status.{is_running}
use vendorops_ai.Jobs.Lease.{lease, prolong, requeue, give_up}
use vendorops_ai.Jobs.Finish.{RetrySettings, complete, fail_values}
use vendorops_ai.Jobs.Rows.{IsSound}
use vendorops_ai.Jobs.Keys.{PrimaryKey, PrimaryKey-SameIds, SameIds-update_if}
use vendorops_ai.Jobs.Interleaving.{Handle}

-- A running row with the execution id of a handle is the job that the handle was claimed for.
pub record Agrees (h : Handle) (row : ProcessingJob) : Type 0 where
  pub agree :
      is_running row.status ≡ true
      → row.execution_id ≡ h.job.execution_id
      → (row.id ≡ h.job.id)
        × (row.attempts ≡ h.job.attempts)
        × (row.max_attempts ≡ h.job.max_attempts)
        × (row.lease_owner ≡ some h.worker)

pub record Inv (jobs : List ProcessingJob) (held : List Handle) : Type 0 where
  pub key : PrimaryKey jobs
  pub sound : All IsSound jobs
  pub agrees : All (λ h. All (Agrees h) jobs) held

-- One row that changes, and what then holds of it.
pub lease-Agrees :
    (h : Handle) (now : ℕ) (w e : String) (ls : ℕ) (c row : ProcessingJob)
    → h.job.execution_id ≢ some e
    → Agrees h (lease c now w e ls row)
unfolding lease
lease-Agrees h now w e ls c row fresh = record { agree = λ r q. absurd (fresh (sym q)) }

pub prolong-Agrees :
    (h : Handle) (now ls : ℕ) (row : ProcessingJob) → Agrees h row → Agrees h (prolong now ls row)
unfolding prolong
prolong-Agrees h now ls row a = record { agree = a.agree }

pub requeue-Agrees : (h : Handle) (now : ℕ) (row : ProcessingJob) → Agrees h (requeue now row)
unfolding requeue
requeue-Agrees h now row = record { agree = λ r q. cc }

pub give_up-Agrees : (h : Handle) (now : ℕ) (row : ProcessingJob) → Agrees h (give_up now row)
unfolding give_up
give_up-Agrees h now row = record { agree = λ r q. cc }

pub complete-Agrees : (h : Handle) (now : ℕ) (row : ProcessingJob) → Agrees h (complete now row)
unfolding complete
complete-Agrees h now row = record { agree = λ r q. cc }

pub fail_values-Agrees :
    (h : Handle) (now : ℕ) (settings : RetrySettings) (job : ProcessingJob) (m : String) (t : Bool)
    (row : ProcessingJob)
    → Agrees h (fail_values now settings job m t row)
unfolding fail_values
fail_values-Agrees h now settings job m true row = record { agree = λ r q. cc }
fail_values-Agrees h now settings job m false row = record { agree = λ r q. cc }

-- An update that keeps the ids, and keeps the two properties at each row that it changes.
module _ (F : ProcessingJob → Type 0) (p : ProcessingJob → Bool) (f : ProcessingJob → ProcessingJob)
    (ids : (x : ProcessingJob) → x.id ≡ (f x).id)
    (keeps : (x : ProcessingJob) → p x ≡ true → F x → IsSound x → IsSound (f x)) where
  pub update-Inv :
      (jobs : List ProcessingJob) (held : List Handle)
      → All
          (λ (h : Handle). (x : ProcessingJob) → p x ≡ true → F x → Agrees h x → Agrees h (f x))
          held
      → All F jobs
      → Inv jobs held
      → Inv (update_if p f jobs) held
  update-Inv jobs held steps facts i = record {
    key = PrimaryKey-SameIds jobs (update_if p f jobs) (SameIds-update_if p f ids jobs) i.key;
    sound =
        All-update_if (λ x. F x × IsSound x) IsSound p f (λ x e h. keeps x e h.0 h.1) (λ x e h. h.1)
          jobs (All-zip F IsSound jobs facts i.sound);
    agrees = agree_all held steps i.agrees;
  }
    where
      agree_all :
          (hs : List Handle)
          → All
              (λ (h : Handle). (x : ProcessingJob) → p x ≡ true → F x → Agrees h x → Agrees h (f x))
              hs
          → All (λ h. All (Agrees h) jobs) hs
          → All (λ h. All (Agrees h) (update_if p f jobs)) hs
      agree_all [] st a = tt
      agree_all (h ∷ hs) st a = (
        All-update_if (λ x. F x × Agrees h x) (Agrees h) p f (λ x e g. st.0 x e g.0 g.1)
            (λ x e g. g.1) jobs (All-zip F (Agrees h) jobs facts a.0),
        agree_all hs st.1 a.1,
      )

-- A property of every handle.
pub every : (P : Handle → Type 0) → ((h : Handle) → P h) → (hs : List Handle) → All P hs
every P f [] = tt
every P f (h ∷ hs) = (f h, every P f hs)

pub trivial : (jobs : List ProcessingJob) → All (λ (r : ProcessingJob). Unit {0}) jobs
trivial [] = tt
trivial (x ∷ xs) = (tt, trivial xs)
