-- ===== src/Api/Access.antt =====
-- Who may do what through the routes of app/api/routes, and what other tenants see of it.
use vendorops_ai.Base.{
  ℕ, String, ◌≡◌, ◌≢◌, refl, sym, ap, ◌∙◌, inl, inr, false, Option, none, some, str_eq, eq_iff,
  eq_refl, elem, str_eq-ne, Bool-cases,
}
use vendorops_ai.Db.{ProcessingJob, UploadedFile, Database, str_or_none}
use vendorops_ai.Auth.{Tables, AuthContext}
use vendorops_ai.Auth.Sessions.{get_context-ignores_db}
use vendorops_ai.Auth.Roles.{require_permission, permissions_for_role, role_error}
use vendorops_ai.Repositories.Reads.{get_uploaded_file, get_processing_job, processing_jobs}
use vendorops_ai.Repositories.Creates.{create_processing_job, job_row, JobEntry}
use vendorops_ai.Repositories.Tenant.{matched, is_tenant_match, is_foreign, get_row}
use vendorops_ai.Api.Guard.{
  Reply, replies, http_error, admitted, turned_away, get_current_context,
  require_permission_dependency, organization_id, workspace_id, of_token, of_checked, permission_of,
  bearer_token,
}
use vendorops_ai.Api.Jobs.{
  ProcessingJobResponse, to_processing_job_response, NewJob, create_job, extract_uploaded_file,
  get_job, run_job, not_found, found_reply,
}

no_write :
    (role : String)
    → role ≢ "owner"
    → role ≢ "admin"
    → role ≢ "analyst"
    → elem "pipeline:write" (permissions_for_role role) ≡ false
unfolding permissions_for_role
no_write role o a n = elim (Bool-cases (str_eq role "viewer")) [
  | inl v ↦
      rw (str_eq-ne role "owner" o, str_eq-ne role "admin" a, str_eq-ne role "analyst" n, v) refl
  | inr v ↦
      rw (str_eq-ne role "owner" o, str_eq-ne role "admin" a, str_eq-ne role "analyst" n, v) refl
]

module _ (hash : String → String) (now : ℕ) (header : Option String) (t : Tables) where
  refusal :
      (c : AuthContext) (permission : String)
      → get_current_context hash now header t ≡ admitted c
      → elem permission (permissions_for_role c.membership.role) ≡ false
      → require_permission_dependency hash permission now header t
        ≡ turned_away 403 (role_error c.membership.role permission)
  unfolding require_permission_dependency require_permission
  refusal c permission known lacks = rw (known, lacks) refl

  -- Only owners, admins and analysts start work: a request with a good token of any other role is
  -- answered with 403 by the creation of a job, the request to extract a file and the request to run a
  -- job, and none of them changes a table.
  pub writers_only :
      (c : AuthContext) (n : NewJob) (file_id pipeline audit_id job_id : String) (run_now : ℕ)
      → get_current_context hash now header t ≡ admitted c
      → c.membership.role ≢ "owner"
      → c.membership.role ≢ "admin"
      → c.membership.role ≢ "analyst"
      → let refused : Reply ProcessingJobResponse × Tables =
          (http_error 403 (role_error c.membership.role "pipeline:write"), t) in
        (create_job hash now header n file_id pipeline t ≡ refused)
        × (extract_uploaded_file hash now header n file_id t ≡ refused)
        × (run_job hash now header run_now audit_id job_id t ≡ refused)
  unfolding create_job extract_uploaded_file run_job
  writers_only c n file_id pipeline audit_id job_id run_now known o a m =
      let away = refusal c "pipeline:write" known (no_write c.membership.role o a m) in
      (rw away refl, rw away refl, rw away refl)

of_token-ignores_db :
    (hash : String → String) (now : ℕ) (t : Tables) (db : Database) (token : Option String)
    → of_token hash now (record t { db = db }) token ≡ of_token hash now t token
unfolding of_token
of_token-ignores_db hash now t db none = refl
of_token-ignores_db hash now t db (some token) =
    ap of_checked (get_context-ignores_db hash now token t db)

-- The admission of a request does not read the pipeline's tables.
admission_same :
    (hash : String → String) (permission : String) (now : ℕ) (header : Option String) (t : Tables)
    (db : Database)
    → require_permission_dependency hash permission now header (record t { db = db })
      ≡ require_permission_dependency hash permission now header t
unfolding require_permission_dependency get_current_context
admission_same hash permission now header t db =
    ap (permission_of hash permission) (of_token-ignores_db hash now t db (bearer_token header))

own_key : (o : String) → o ≢ "" → str_or_none (some o) ≡ some o
own_key o n = elim (Bool-cases (str_eq o "")) [
  | inl q ↦ absurd (n ((eq_iff o "").0 q))
  | inr q ↦ rw q refl
]

module _ (hash : String → String) (t : Tables) (n : NewJob) (file_id pipeline : String)
    (c : AuthContext) where
  abbrev requested_entry : JobEntry
  requested_entry = record {
    job_id = n.job_id;
    file_id = file_id;
    pipeline = pipeline;
    organization_id = organization_id c;
    workspace_id = workspace_id c;
    max_attempts = n.max_attempts;
  }

  -- The row that the request of a tenant adds.
  abbrev pub requested_job : ProcessingJob
  requested_job = job_row n.now requested_entry

  abbrev tables_after : Tables
  tables_after = record t { db = (create_processing_job n.now n.audit_id requested_entry t.db).1 }

  own_row :
      c.organization.id ≢ ""
      → c.workspace.id ≢ ""
      → matched processing_jobs (organization_id c) (workspace_id c) (some requested_job)
        ≡ some requested_job
  unfolding matched is_tenant_match is_foreign job_row organization_id workspace_id
  own_row o w =
      rw
        (
          own_key c.organization.id o,
          own_key c.workspace.id w,
          eq_refl c.organization.id,
          eq_refl c.workspace.id,
        )
        refl

  foreign_row :
      (d : AuthContext)
      → c.organization.id ≢ ""
      → d.organization.id ≢ c.organization.id
      → matched processing_jobs (organization_id d) (workspace_id d) (some requested_job) ≡ none
  unfolding matched is_tenant_match is_foreign job_row organization_id workspace_id
  foreign_row d o differ =
      rw
        (
          own_key c.organization.id o,
          str_eq-ne c.organization.id d.organization.id (λ e. differ (sym e)),
        )
        refl

  created :
      (now : ℕ) (header : Option String) (f : UploadedFile)
      → require_permission_dependency hash "pipeline:write" now header t ≡ admitted c
      → get_uploaded_file (organization_id c) (workspace_id c) file_id t.db ≡ some f
      → create_job hash now header n file_id pipeline t
        ≡ (replies 201 (to_processing_job_response requested_job), tables_after)
  unfolding create_job get_uploaded_file create_processing_job
  created now header f known found = rw (known, found) refl

  found_by :
      (now : ℕ) (header : Option String) (d : AuthContext) (job : Option ProcessingJob)
      → require_permission_dependency hash "pipeline:write" now header t ≡ admitted d
      → matched processing_jobs (organization_id d) (workspace_id d) (some requested_job) ≡ job
      → (get_job hash now header n.job_id tables_after).0 ≡ found_reply n.job_id job
  unfolding get_job get_processing_job get_row create_processing_job
  found_by now header d job known found =
      rw
        (
          admission_same hash "pipeline:write" now header t
              (create_processing_job n.now n.audit_id requested_entry t.db).1,
          known,
          eq_refl n.job_id,
          found,
        )
        refl

  -- A job that a tenant requests for a file it sees is answered with 201 and the new job; the same
  -- token, while it is good, then gets the job with the same answer, and a member of another
  -- organization gets 404, as for a job that does not exist.
  pub job_isolated :
      (now later : ℕ) (header header' : Option String) (f : UploadedFile) (c' : AuthContext)
      → require_permission_dependency hash "pipeline:write" now header t ≡ admitted c
      → require_permission_dependency hash "pipeline:write" later header t ≡ admitted c
      → require_permission_dependency hash "pipeline:write" later header' t ≡ admitted c'
      → get_uploaded_file (organization_id c) (workspace_id c) file_id t.db ≡ some f
      → c.organization.id ≢ ""
      → c.workspace.id ≢ ""
      → c'.organization.id ≢ c.organization.id
      → let after : Tables = (create_job hash now header n file_id pipeline t).1 in
        let answer : ProcessingJobResponse = to_processing_job_response requested_job in
        ((create_job hash now header n file_id pipeline t).0 ≡ replies 201 answer)
        × ((get_job hash later header n.job_id after).0 ≡ replies 200 answer)
        × ((get_job hash later header' n.job_id after).0 ≡ not_found "Job" n.job_id)
  unfolding found_reply job_row
  job_isolated now later header header' f c' known still known' found o w differ =
      let step = created now header f known found in
      (
        ap (λ x. x.0) step,
        ap (λ x. (get_job hash later header n.job_id x.1).0) step
            ∙ found_by later header c (some requested_job) still (own_row o w),
        ap (λ x. (get_job hash later header' n.job_id x.1).0) step
            ∙ found_by later header' c' none known' (foreign_row c' o differ),
      )
