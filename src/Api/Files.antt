-- ===== src/Api/Files.antt =====
-- The upload and the parsing of a file in app/api/routes/files.py. The store and the parser act on a
-- world of their own; what no handler catches is a code 500.
pub mod Uploads
use vendorops_ai.Base.{ℕ, ◌*◌, String, Bool, Option, none, some, List, [], ◌∷◌, str_append}
use vendorops_ai.Db.{UploadedFile, Database}
use vendorops_ai.Auth.{Tables, AuthContext}
use vendorops_ai.Retry.{Outcome, returned, raised}
use vendorops_ai.Storage.{
  Bytes, StorageFailure, storage_error, value_error, os_error, ObjectStorageBackend,
}
use vendorops_ai.Ingestion.{UploadFile, StoredUpload, store_upload, split_last_dot, lower_case}
use vendorops_ai.Repositories.Reads.{get_uploaded_file}
use vendorops_ai.Repositories.Creates.{FileEntry, create_uploaded_file}
use vendorops_ai.Pipeline.Errors.{StageError, parser_error, extraction_error, exhausted, other}
use vendorops_ai.Api.Guard.{
  Reply, replies, http_error, Admission, admitted, turned_away, require_permission_dependency,
  organization_id, workspace_id,
}
use vendorops_ai.Api.Jobs.{not_found}

pub record UploadedFileResponse : Type 0 where
  pub file_id : String
  pub original_filename : String
  pub content_type : String
  pub size_bytes : ℕ
  pub sha256_hash : String
  pub storage_path : String
  pub created_at : ℕ

unfoldable pub to_file_response : UploadedFile → UploadedFileResponse
to_file_response f = record {
  file_id = f.id;
  original_filename = f.original_filename;
  content_type = f.content_type;
  size_bytes = f.size_bytes;
  sha256_hash = f.sha256_hash;
  storage_path = f.storage_path;
  created_at = f.created_at;
}

-- What an upload draws: the id of the file, its audit log's, and the instant.
pub record UploadDraws : Type 0 where
  pub file_id : String
  pub audit_id : String
  pub now : ℕ

extension_of : String → Option (String × String) → String
extension_of name none = name
extension_of name (some (stem, extension)) = extension

-- original_filename.rsplit(".", 1)[-1].lower()
unfoldable pub file_type_of : String → String
unfolding extension_of
file_type_of name = lower_case (extension_of name (split_last_dot name))

-- The keyword arguments of create_uploaded_file.
unfoldable pub file_entry : AuthContext → StoredUpload → FileEntry
unfolding file_type_of organization_id workspace_id
file_entry c stored = record {
  file_id = stored.file_id;
  organization_id = organization_id c;
  workspace_id = workspace_id c;
  original_filename = stored.original_filename;
  content_type = stored.content_type;
  file_type = file_type_of stored.original_filename;
  size_bytes = stored.size_bytes;
  sha256_hash = stored.sha256_hash;
  storage_path = stored.storage_path;
}

-- `except ValueError`
unfoldable pub upload_error : {A : Type 0} → StorageFailure → Reply A
upload_error (value_error e) = http_error 400 e
upload_error (storage_error e) = http_error 500 "Internal Server Error"
upload_error (os_error e) = http_error 500 "Internal Server Error"

module _ {W : Type 0} where
  unfoldable pub save_upload :
      UploadDraws
      → AuthContext
      → Tables
      → Outcome StoredUpload StorageFailure × W
      → Reply UploadedFileResponse × Tables × W
  unfolding upload_error file_entry create_uploaded_file to_file_response
  save_upload d c t (raised e, w) = (upload_error e, t, w)
  save_upload d c t (returned stored, w) =
      let (row, db) = create_uploaded_file d.now d.audit_id (file_entry c stored) t.db in
      (replies 201 (to_file_response row), record t { db = db }, w)

  module _ (hash_token : String → String) (request_now : ℕ) (header : Option String) where
    module _ (sha256_bytes : Bytes → String) (megabytes : ℕ → String)
        (storage : Outcome (ObjectStorageBackend W) StorageFailure) (max_upload_size_mb : ℕ)
        (d : UploadDraws) (file : UploadFile) where
      -- The argument get_object_storage(settings) may itself raise.
      unfoldable pub upload_to :
          Outcome (ObjectStorageBackend W) StorageFailure
          → AuthContext
          → Tables
          → W
          → Reply UploadedFileResponse × Tables × W
      unfolding save_upload store_upload upload_error
      upload_to (raised e) c t w = (upload_error e, t, w)
      upload_to (returned backend) c t w = save_upload d c t (
          store_upload sha256_bytes megabytes backend c.workspace.id
            (max_upload_size_mb * 1024 * 1024) d.file_id file w)

      upload_admitted : Admission → Tables → W → Reply UploadedFileResponse × Tables × W
      unfolding upload_to
      upload_admitted (turned_away code e) t w = (http_error code e, t, w)
      upload_admitted (admitted c) t w = upload_to storage c t w

      -- POST /files
      unfoldable pub upload_file : Tables → W → Reply UploadedFileResponse × Tables × W
      unfolding upload_admitted require_permission_dependency
      upload_file t w =
          upload_admitted
            (require_permission_dependency hash_token "pipeline:write" request_now header t) t w

    module _ {Document : Type 0} (parse_file : String → W → Outcome Document StageError × W)
        (file_id : String) where
      -- `except ParserError`
      of_parse : Outcome Document StageError × W → Reply Document × W
      of_parse (returned document, w) = (replies 200 document, w)
      of_parse (raised (parser_error e), w) = (http_error 422 e, w)
      of_parse (raised (extraction_error e), w) = (http_error 500 "Internal Server Error", w)
      of_parse (raised (exhausted n e m), w) = (http_error 500 "Internal Server Error", w)
      of_parse (raised (StageError.value_error e m), w) =
          (http_error 500 "Internal Server Error", w)
      of_parse (raised (other e m), w) = (http_error 500 "Internal Server Error", w)

      parse_found : Option UploadedFile → W → Reply Document × W
      unfolding of_parse not_found
      parse_found none w = (not_found "File" file_id, w)
      parse_found (some file) w = of_parse (parse_file file.storage_path w)

      parse_admitted : Admission → Tables → W → Reply Document × W
      unfolding parse_found get_uploaded_file organization_id workspace_id
      parse_admitted (turned_away code e) t w = (http_error code e, w)
      parse_admitted (admitted c) t w =
          parse_found (get_uploaded_file (organization_id c) (workspace_id c) file_id t.db) w

      -- GET /files/{file_id}/parsed
      unfoldable pub parse_uploaded_file : Tables → W → Reply Document × W
      unfolding parse_admitted require_permission_dependency
      parse_uploaded_file t w =
          parse_admitted
            (require_permission_dependency hash_token "pipeline:write" request_now header t) t w
