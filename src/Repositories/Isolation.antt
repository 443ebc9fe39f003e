-- ===== src/Repositories/Isolation.antt =====
-- Tenants are kept apart: what a tenant uploads, no other finds.
use vendorops_ai.Base.{
  ℕ, String, ◌≡◌, ◌≢◌, refl, sym, ap, ◌∙◌, true, false, Option, none, some, List, [], ◌∷◌, ◌++◌,
  inl, inr, ◌⊎◌, str_eq, eq_iff, eq_refl, All, find_if, Bool-cases,
}
use vendorops_ai.Db.{UploadedFile, Database, str_or_none, create_audit_log}
use vendorops_ai.Repositories.Tenant.{is_foreign, is_tenant_match, matched, get_row}
use vendorops_ai.Repositories.Reads.{get_uploaded_file}
use vendorops_ai.Repositories.Creates.{FileEntry, file_row, create_uploaded_file}

find-fresh :
    (k : String) (xs : List UploadedFile) (x : UploadedFile)
    → All (λ (y : UploadedFile). y.id ≢ k) xs
    → x.id ≡ k
    → find_if (λ (y : UploadedFile). str_eq y.id k) (xs ++ x ∷ []) ≡ some x
find-fresh k [] x h e = rw ((eq_iff x.id k).1 e) refl
find-fresh k (y ∷ ys) x h e = elim (Bool-cases (str_eq y.id k)) [
  | inl t ↦ absurd (h.0 ((eq_iff y.id k).0 t))
  | inr t ↦ rw t (find-fresh k ys x h.1 e)
]

-- A file that is uploaded under a new id by an organization is found by every lookup of that
-- organization that names no workspace, and by no lookup of another organization.
pub upload_isolated :
    (now : ℕ) (audit_id o o' : String) (w' : Option String) (f : FileEntry) (db : Database)
    → All (λ (y : UploadedFile). y.id ≢ f.file_id) db.uploaded_files
    → f.organization_id ≡ some o
    → o ≢ ""
    → o' ≢ o
    → (get_uploaded_file (some o) none f.file_id (create_uploaded_file now audit_id f db).1
        ≡ some (create_uploaded_file now audit_id f db).0)
      × (get_uploaded_file (some o') w' f.file_id (create_uploaded_file now audit_id f db).1 ≡ none)
unfolding get_uploaded_file get_row create_uploaded_file create_audit_log file_row matched
    is_tenant_match is_foreign
upload_isolated now audit_id o o' w' f db fresh own n differ =
    let found = find-fresh f.file_id db.uploaded_files (file_row now f) fresh refl in
    let named = ap str_or_none own ∙ owner in
    (rw (found, named, eq_refl o) refl, rw (found, named, other (Bool-cases (str_eq o o'))) refl)
  where
    owner : str_or_none (some o) ≡ some o
    owner = elim (Bool-cases (str_eq o "")) [
      | inl q ↦ absurd (n ((eq_iff o "").0 q))
      | inr q ↦ rw q refl
    ]

    other : (str_eq o o' ≡ true) ⊎ (str_eq o o' ≡ false) → str_eq o o' ≡ false
    other (inl q) = absurd (differ (sym ((eq_iff o o').0 q)))
    other (inr q) = q
