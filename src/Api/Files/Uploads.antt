-- ===== src/Api/Files/Uploads.antt =====
-- What an upload through app/api/routes/files.py leaves in the store and in the tables.
use vendorops_ai.Base.{
  ℕ, ◌*◌, String, ◌≡◌, refl, ap, ◌⊎◌, inl, inr, Option, some, [], ◌∷◌, ◌++◌, length,
}
use vendorops_ai.Db.{UploadedFile, create_audit_log}
use vendorops_ai.Auth.{Tables, AuthContext}
use vendorops_ai.Retry.{Outcome, returned, raised}
use vendorops_ai.Storage.{Bytes, StoredObject, StorageFailure, ObjectStorageBackend}
use vendorops_ai.Ingestion.{UploadFile, StoredUpload, type_of, store_upload}
use vendorops_ai.Ingestion.Stores.{IsAcceptable, content, put, IsStored, store_upload-IsStored}
use vendorops_ai.Repositories.Creates.{file_row, create_uploaded_file}
use vendorops_ai.Api.Guard.{Reply, replies, http_error, admitted, require_permission_dependency}
use vendorops_ai.Api.Files.{
  UploadedFileResponse, to_file_response, UploadDraws, file_type_of, file_entry, save_upload,
  upload_error, upload_to, upload_admitted, upload_file,
}

module _ {W : Type 0} (hash_token : String → String) (request_now : ℕ) (header : Option String)
    (sha256_bytes : Bytes → String) (megabytes : ℕ → String) (storage : ObjectStorageBackend W)
    (max_upload_size_mb : ℕ) (d : UploadDraws) (file : UploadFile) (c : AuthContext) (t : Tables)
    (w : W) where
  abbrev limit : ℕ
  limit = max_upload_size_mb * 1024 * 1024

  abbrev Acceptable : String → String → Type 0
  Acceptable = IsAcceptable sha256_bytes megabytes storage c.workspace.id limit d.file_id file

  abbrev put_for : String → Outcome StoredObject StorageFailure × W
  put_for key = put sha256_bytes megabytes storage c.workspace.id limit d.file_id file key w

  -- The row for a file of that name whose content the store has at `uri`.
  abbrev pub row_of : String → String → UploadedFile
  row_of name uri = file_row d.now (record {
    file_id = d.file_id;
    organization_id = some c.organization.id;
    workspace_id = some c.workspace.id;
    original_filename = name;
    content_type = type_of file.content_type;
    file_type = file_type_of name;
    size_bytes =
        length (content sha256_bytes megabytes storage c.workspace.id limit d.file_id file);
    sha256_hash =
        sha256_bytes (content sha256_bytes megabytes storage c.workspace.id limit d.file_id file);
    storage_path = uri;
  })

  -- The three ends of an upload: refused with 400, and nothing is written; failed in the store, and no
  -- table is written; or stored, with its row.
  abbrev pub IsUpload : Reply UploadedFileResponse × Tables × W → Type 0
  IsUpload (reply, t', w') =
      ((¬ ((name key : String) × Acceptable name key))
        × ((m : String) × (reply ≡ http_error 400 m))
        × (t' ≡ t)
        × (w' ≡ w))
      ⊎ ((name key : String) × (e : StorageFailure) × Acceptable name key
          × (put_for key ≡ (raised e, w'))
          × (t' ≡ t))
      ⊎ ((name key : String) × (o : StoredObject) × Acceptable name key
          × (put_for key ≡ (returned o, w'))
          × (reply ≡ replies 201 (to_file_response (row_of name o.uri)))
          × (t'.db.uploaded_files ≡ t.db.uploaded_files ++ row_of name o.uri ∷ [])
          × (t'.db.jobs ≡ t.db.jobs))

  saved :
      (x : Outcome StoredUpload StorageFailure × W)
      → IsStored sha256_bytes megabytes storage c.workspace.id limit d.file_id file w x
      → IsUpload (save_upload d c t x)
  unfolding save_upload create_uploaded_file create_audit_log file_entry upload_error
  saved (raised e, w') (inl (wrong, (m, q), same)) = inl (wrong, (m, ap upload_error q), refl, same)
  saved (raised e, w') (inr (name, key, ok, q)) = inr (inl (name, key, e, ok, q, refl))
  saved (returned s, w') (name, key, o, ok, q, is) = inr (
      inr (
        name,
        key,
        o,
        ok,
        q,
        ap (λ x. replies 201 (to_file_response (file_row d.now (file_entry c x)))) is,
        ap (λ x. t.db.uploaded_files ++ file_row d.now (file_entry c x) ∷ []) is,
        refl,
      ))

  -- A request to upload a file, of a user who may, ends in one of three ways. If the name is allowed,
  -- the content has at least a byte and at most as many as the limit, and the key is safe, the whole
  -- content is put into the store under the key; then either the store fails, and no table changes, or
  -- the answer is 201 with a new row, which has the tenant, the name, the size and the digest of the
  -- content and the place where the store has it. In any other case the answer is 400, and neither the
  -- store nor a table changes.
  pub upload_file-IsUpload :
      require_permission_dependency hash_token "pipeline:write" request_now header t ≡ admitted c
      → IsUpload (
          upload_file hash_token request_now header sha256_bytes megabytes
            (returned storage)
            max_upload_size_mb
            d
            file
            t
            w)
  unfolding upload_file upload_admitted upload_to
  upload_file-IsUpload known = rw known (
      saved (store_upload sha256_bytes megabytes storage c.workspace.id limit d.file_id file w) (
        store_upload-IsStored sha256_bytes megabytes storage c.workspace.id limit d.file_id file w))
