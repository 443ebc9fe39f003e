-- ===== src/Repositories/Newest.antt =====
-- The limited lists of app/db/repositories.py: newest first.
use vendorops_ai.Base.{
  ℕ, zero, suc, ◌≤◌, subst, ◌⊎◌, inl, inr, String, Option, List, [], ◌∷◌, arith, leb, Has, All,
  All-Has, All-map, Bool-cases,
}
use vendorops_ai.Db.{AuditLog, Database}
use vendorops_ai.Repositories.Tenant.{
  Scoped, apply_tenant_filter, insert_row, newest_first, list_rows,
}
use vendorops_ai.Repositories.Reads.{audit_logs, take, list_audit_logs}
use vendorops_ai.Repositories.Visibility.{IsVisible, Has-list_rows}

module _ {A : Type 0} (s : Scoped A) where
  abbrev pub IsNewestFirst : List A → Type 0
  IsNewestFirst [] = Unit
  IsNewestFirst (x ∷ xs) = All (λ y. s.created_at y ≤ s.created_at x) xs × IsNewestFirst xs

  insert-below :
      (t : ℕ) (x : A) (xs : List A)
      → s.created_at x ≤ t
      → All (λ y. s.created_at y ≤ t) xs
      → All (λ y. s.created_at y ≤ t) (insert_row s x xs)
  unfolding insert_row
  insert-below t x [] p h = (p, tt)
  insert-below t x (y ∷ ys) p h = elim (Bool-cases (leb (s.created_at y) (s.created_at x))) [
    | inl e ↦ rw e (p, h)
    | inr e ↦ rw e (h.0, insert-below t x ys p h.1)
  ]

  insert-IsNewestFirst :
      (x : A) (xs : List A) → IsNewestFirst xs → IsNewestFirst (insert_row s x xs)
  unfolding insert_row
  insert-IsNewestFirst x [] h = (tt, tt)
  insert-IsNewestFirst x (y ∷ ys) h = elim (Bool-cases (leb (s.created_at y) (s.created_at x))) [
    | inl e ↦ rw e (
      (
        ground (arith, e),
        All-map (λ z. s.created_at z ≤ s.created_at y) (λ z. s.created_at z ≤ s.created_at x)
            (λ z q. ground (arith, e, q)) ys h.0,
      ),
      h,
    )
    | inr e ↦
        rw e (
          insert-below (s.created_at y) x ys (ground (arith, e)) h.0,
          insert-IsNewestFirst x ys h.1,
        )
  ]

  newest_first-IsNewestFirst : (xs : List A) → IsNewestFirst (newest_first s xs)
  unfolding newest_first
  newest_first-IsNewestFirst [] = tt
  newest_first-IsNewestFirst (x ∷ xs) =
      insert-IsNewestFirst x (newest_first s xs) (newest_first-IsNewestFirst xs)

  list_rows-IsNewestFirst :
      (o w : Option String) (rows : List A) → IsNewestFirst (list_rows s o w rows)
  unfolding list_rows
  list_rows-IsNewestFirst o w rows = newest_first-IsNewestFirst (apply_tenant_filter s o w rows)

  take-Has : (n : ℕ) (x : A) (xs : List A) → Has x (take n xs) → Has x xs
  unfolding take
  take-Has zero x xs h = absurd h
  take-Has (suc n) x [] h = absurd h
  take-Has (suc n) x (y ∷ ys) (inl q) = inl q
  take-Has (suc n) x (y ∷ ys) (inr m) = inr (take-Has n x ys m)

  -- A row that a limit leaves out is no newer than one that it keeps.
  take-newest :
      (n : ℕ) (x r : A) (xs : List A)
      → IsNewestFirst xs
      → Has x (take n xs)
      → Has r xs
      → Has r (take n xs) ⊎ (s.created_at r ≤ s.created_at x)
  unfolding take
  take-newest zero x r xs h m k = absurd m
  take-newest (suc n) x r [] h m k = absurd m
  take-newest (suc n) x r (y ∷ ys) h m (inl q) = inl (inl q)
  take-newest (suc n) x r (y ∷ ys) h (inl q) (inr k) = inr (
      subst (λ z. s.created_at r ≤ s.created_at z) q
        (All-Has (λ z. s.created_at z ≤ s.created_at y) r ys h.0 k))
  take-newest (suc n) x r (y ∷ ys) h (inr m) (inr k) = elim (take-newest n x r ys h.1 m k) [
    | inl t ↦ inl (inr t)
    | inr t ↦ inr t
  ]

  pub limited :
      (o w : Option String) (n : ℕ) (x r : A) (rows : List A)
      → Has x (take n (list_rows s o w rows))
      → Has r rows
      → IsVisible s o w r
      → Has x rows
        × IsVisible s o w x
        × (Has r (take n (list_rows s o w rows)) ⊎ (s.created_at r ≤ s.created_at x))
  limited o w n x r rows h m v =
      let (k, u) = (Has-list_rows s o w x rows).0 (take-Has n x (list_rows s o w rows) h) in
      (
        k,
        u,
        take-newest n x r (list_rows s o w rows) (list_rows-IsNewestFirst o w rows) h
            ((Has-list_rows s o w r rows).1 (m, v)),
      )

-- An audit log that list_audit_logs gives is in the table and visible to the tenant, and every row that
-- is visible to the tenant is either given too or no newer.
pub list_audit_logs-newest :
    (o w : Option String) (limit : ℕ) (x r : AuditLog) (db : Database)
    → Has x (list_audit_logs o w limit db)
    → Has r db.audit_logs
    → IsVisible audit_logs o w r
    → Has x db.audit_logs
      × IsVisible audit_logs o w x
      × (Has r (list_audit_logs o w limit db) ⊎ (r.created_at ≤ x.created_at))
unfolding list_audit_logs
list_audit_logs-newest o w limit x r db h m v = limited audit_logs o w limit x r db.audit_logs h m v
