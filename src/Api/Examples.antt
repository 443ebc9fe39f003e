-- ===== src/Api/Examples.antt =====
-- Two organizations: o1 with an owner and a viewer, o2 with an owner; each user has a session whose
-- token is the user's id.
use vendorops_ai.Base.{
  false, List, length, String, ◌≡◌, refl, true, none, some, [], ◌∷◌, str_append, unequal,
}
use vendorops_ai.Db.{
  Organization, Workspace, UserAccount, Membership, AuthSession, UploadedFile, empty_database,
}
use vendorops_ai.Auth.{Tables, AuthContext}
use vendorops_ai.Auth.Roles.{role_error}
use vendorops_ai.Repositories.Reads.{get_uploaded_file}
use vendorops_ai.Api.Guard.{
  Reply, replies, http_error, admitted, get_current_context, require_permission_dependency,
  organization_id, workspace_id,
}
use vendorops_ai.Api.Jobs.{
  ProcessingJobResponse, to_processing_job_response, NewJob, create_job, extract_uploaded_file,
  get_job, run_job, not_found,
}
use vendorops_ai.Retry.{returned, raised}
use vendorops_ai.Storage.{Bytes, storage_error, ObjectStorageBackend}
use vendorops_ai.Ingestion.{UploadFile}
use vendorops_ai.Api.Files.{UploadDraws, upload_file}
use vendorops_ai.Api.Files.Uploads.{IsUpload, upload_file-IsUpload}
use vendorops_ai.Api.Access.{writers_only, requested_job, job_isolated}

abbrev hash : String → String
hash s = str_append "h" s

abbrev user : String → UserAccount
user id = record {
  id = id;
  email = id;
  full_name = "A";
  password_hash = "pw";
  is_active = true;
  created_at = 0;
  updated_at = 0;
}

abbrev organization : String → Organization
organization id = record {
  id = id;
  name = "O";
  slug = id;
  plan = "demo";
  created_at = 0;
  updated_at = 0;
}

abbrev workspace : String → String → Workspace
workspace o id = record {
  id = id;
  organization_id = o;
  name = "W";
  slug = id;
  created_at = 0;
  updated_at = 0;
}

abbrev membership : String → String → String → String → Membership
membership u o w role = record {
  id = u;
  user_id = u;
  organization_id = o;
  workspace_id = w;
  role = role;
  created_at = 0;
}

abbrev session : String → AuthSession
session id = record {
  id = id;
  user_id = id;
  token_hash = hash id;
  expires_at = 100;
  revoked_at = none;
  created_at = 0;
}

abbrev context : String → String → String → String → AuthContext
context u o w role = record {
  user = user u;
  organization = organization o;
  workspace = workspace o w;
  membership = membership u o w role;
}

abbrev file : UploadedFile
file = record {
  id = "f1";
  organization_id = some "o1";
  workspace_id = some "w1";
  original_filename = "a.txt";
  content_type = "text/plain";
  file_type = "text";
  size_bytes = 3;
  sha256_hash = "x";
  storage_path = "p";
  status = "uploaded";
  created_at = 0;
  updated_at = 0;
}

abbrev tables : Tables
tables = record {
  users = user "u1" ∷ user "u2" ∷ user "u3" ∷ [];
  organizations = organization "o1" ∷ organization "o2" ∷ [];
  workspaces = workspace "o1" "w1" ∷ workspace "o2" "w2" ∷ [];
  memberships =
      membership "u1" "o1" "w1" "owner"
      ∷ membership "u2" "o1" "w1" "viewer"
      ∷ membership "u3" "o2" "w2" "owner"
      ∷ [];
  sessions = session "u1" ∷ session "u2" ∷ session "u3" ∷ [];
  db = record empty_database { uploaded_files = file ∷ [] };
}

abbrev draw : NewJob
draw = record { job_id = "j1"; audit_id = "a1"; now = 7; max_attempts = 3 }

knows_viewer :
    get_current_context hash 5 (some "Bearer u2") tables
    ≡ admitted (context "u2" "o1" "w1" "viewer")
unfolding get_current_context
knows_viewer = refl

writers_only_example :
    let refused : Reply ProcessingJobResponse × Tables =
      (http_error 403 (role_error "viewer" "pipeline:write"), tables) in
    (create_job hash 5 (some "Bearer u2") draw "f1" "document_extraction" tables ≡ refused)
    × (extract_uploaded_file hash 5 (some "Bearer u2") draw "f1" tables ≡ refused)
    × (run_job hash 5 (some "Bearer u2") 6 "a2" "j1" tables ≡ refused)
writers_only_example =
    writers_only hash 5 (some "Bearer u2") tables (context "u2" "o1" "w1" "viewer") draw "f1"
      "document_extraction" "a2" "j1" 6 knows_viewer (unequal "viewer" "owner" refl)
      (unequal "viewer" "admin" refl) (unequal "viewer" "analyst" refl)

admits_owner :
    require_permission_dependency hash "pipeline:write" 5 (some "bearer u1") tables
    ≡ admitted (context "u1" "o1" "w1" "owner")
unfolding require_permission_dependency
admits_owner = refl

still_admits_owner :
    require_permission_dependency hash "pipeline:write" 50 (some "bearer u1") tables
    ≡ admitted (context "u1" "o1" "w1" "owner")
unfolding require_permission_dependency
still_admits_owner = refl

admits_other :
    require_permission_dependency hash "pipeline:write" 50 (some "Bearer  u3 ") tables
    ≡ admitted (context "u3" "o2" "w2" "owner")
unfolding require_permission_dependency
admits_other = refl

sees_file :
    let c : AuthContext = context "u1" "o1" "w1" "owner" in
    get_uploaded_file (organization_id c) (workspace_id c) "f1" tables.db ≡ some file
unfolding get_uploaded_file organization_id workspace_id
sees_file = refl

abbrev answer : ProcessingJobResponse
answer =
    to_processing_job_response
      (requested_job hash tables draw "f1" "document_extraction" (context "u1" "o1" "w1" "owner"))

abbrev tables_after : Tables
tables_after = (create_job hash 5 (some "bearer u1") draw "f1" "document_extraction" tables).1

job_isolated_example :
    ((create_job hash 5 (some "bearer u1") draw "f1" "document_extraction" tables).0
      ≡ replies 201 answer)
    × ((get_job hash 50 (some "bearer u1") "j1" tables_after).0 ≡ replies 200 answer)
    × ((get_job hash 50 (some "Bearer  u3 ") "j1" tables_after).0 ≡ not_found "Job" "j1")
job_isolated_example =
    job_isolated hash tables draw "f1" "document_extraction" (context "u1" "o1" "w1" "owner") 5 50
      (some "bearer u1") (some "Bearer  u3 ") file (context "u3" "o2" "w2" "owner") admits_owner
      still_admits_owner admits_other sees_file (unequal "o1" "" refl) (unequal "w1" "" refl)
      (unequal "o2" "o1" refl)

-- A store that keeps what is put, and answers with the key.
abbrev keeper : ObjectStorageBackend (List Bytes)
keeper = record {
  put_bytes = λ key content content_type w. (
    returned
        (record { key = key; uri = key; size_bytes = length content; content_type = content_type }),
    content ∷ w,
  );
  read_bytes = λ uri w. raised (storage_error "gone");
  exists = λ uri w. returned false;
  delete = λ uri w. (returned false, w);
}

abbrev upload : UploadFile
upload = record {
  filename = some "in voice.CSV";
  content_type = none;
  reads = (1 ∷ 2 ∷ []) ∷ (3 ∷ []) ∷ [] ∷ (4 ∷ []) ∷ [];
}

abbrev upload_draws : UploadDraws
upload_draws = record { file_id = "f2"; audit_id = "a3"; now = 9 }

upload_file-IsUpload_example :
    IsUpload hash 5
      (some "bearer u1")
      (λ content. "digest")
      (λ n. "1")
      keeper
      1
      upload_draws
      upload
      (context "u1" "o1" "w1" "owner")
      tables
      []
      (upload_file hash 5
        (some "bearer u1")
        (λ content. "digest")
        (λ n. "1")
        (returned keeper)
        1
        upload_draws
        upload
        tables
        [])
upload_file-IsUpload_example =
    upload_file-IsUpload hash 5 (some "bearer u1") (λ content. "digest") (λ n. "1") keeper 1
      upload_draws upload (context "u1" "o1" "w1" "owner") tables [] admits_owner

upload_answered :
    (upload_file hash 5
      (some "bearer u1")
      (λ content. "digest")
      (λ n. "1")
      (returned keeper)
      1
      upload_draws
      upload
      tables
      []).0
    ≡ replies 201 (record {
      file_id = "f2";
      original_filename = "in_voice.CSV";
      content_type = "application/octet-stream";
      size_bytes = 3;
      sha256_hash = "digest";
      storage_path = "workspaces/w1/artifacts/f2/in_voice.CSV";
      created_at = 9;
    })
unfolding upload_file
upload_answered = refl
