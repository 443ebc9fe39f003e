-- ===== src/Ingestion/Stores.antt =====
-- What store_upload of app/ingestion/storage.py puts into the store, and what it refuses.
use vendorops_ai.Base.{
  ℕ, suc, ◌+◌, ◌≤◌, String, ◌≡◌, refl, ap, subst, ◌∙◌, ◌⊎◌, inl, inr, true, false, some, [], ◌∷◌,
  length, ltb, arith, Bool-cases, if◌then◌else◌,
}
use vendorops_ai.Retry.{Outcome, returned, raised}
use vendorops_ai.Storage.{Bytes, StoredObject, StorageFailure, value_error, ObjectStorageBackend}
use vendorops_ai.Storage.Keys.{artifact_key}
use vendorops_ai.Ingestion.{
  UploadFile, StoredUpload, validate_upload_filename, read_upload_bytes, type_of, of_put,
  put_upload, with_content, with_name, store_upload,
}
use vendorops_ai.Ingestion.Uploads.{content_of, too_large, read_from-content}

empty_not_long : (n : ℕ) → n ≡ 0 → 1 ≤ n → ⊥
empty_not_long n e h = omega arith

long : (n m : ℕ) → n ≡ suc m → 1 ≤ n
long n m e = omega arith

over_limit : (n k : ℕ) → ltb k n ≡ true → n ≤ k → ⊥
over_limit n k h le = ground arith

in_limit : (n k : ℕ) → ltb k n ≡ false → n ≤ k
in_limit n k h = ground arith

from_zero : (n : ℕ) → 0 + n ≡ n
from_zero n = omega arith

zero_least : (k : ℕ) → 0 ≤ k
zero_least k = omega arith

module _ {W : Type 0} (sha256_bytes : Bytes → String) (megabytes : ℕ → String)
    (storage : ObjectStorageBackend W) (workspace_id : String) (max_size_bytes : ℕ)
    (file_id : String) (upload_file : UploadFile) where
  abbrev pub content : Bytes
  content = content_of upload_file.reads

  -- The upload has an allowed name, at least a byte and at most as many as the limit, and a key.
  pub record IsAcceptable (name key : String) : Type 0 where
    pub named : validate_upload_filename upload_file.filename ≡ returned name
    pub nonempty : 1 ≤ length content
    pub bounded : length content ≤ max_size_bytes
    pub keyed : artifact_key workspace_id file_id (some name) ≡ returned key

  -- The entry for an acceptable upload whose content the store has under `uri`.
  abbrev pub entry_of : String → String → String → StoredUpload
  entry_of name key uri = record {
    file_id = file_id;
    original_filename = name;
    content_type = type_of upload_file.content_type;
    size_bytes = length content;
    sha256_hash = sha256_bytes content;
    storage_path = uri;
    object_key = key;
  }

  -- What is put for a key.
  abbrev pub put : String → W → Outcome StoredObject StorageFailure × W
  put key w = storage.put_bytes key content (type_of upload_file.content_type) w

  -- An acceptable upload is put under its key, once, with its whole content, and the store's answer is
  -- passed on; any other is refused with a ValueError, and the store is left alone.
  abbrev pub IsStored : W → Outcome StoredUpload StorageFailure × W → Type 0
  IsStored w (returned s, w') =
      (name key : String) × (o : StoredObject) × IsAcceptable name key
      × (put key w ≡ (returned o, w'))
      × (s ≡ entry_of name key o.uri)
  IsStored w (raised e, w') =
      ((¬ ((name key : String) × IsAcceptable name key))
        × ((m : String) × (e ≡ value_error m))
        × (w' ≡ w))
      ⊎ ((name key : String) × IsAcceptable name key × (put key w ≡ (raised e, w')))

  of_put-IsStored :
      (name key : String) (w : W)
      → IsAcceptable name key
      → IsStored w (
          of_put sha256_bytes megabytes storage workspace_id max_size_bytes file_id upload_file name
            key content
            (put key w))
  unfolding of_put
  of_put-IsStored name key w ok = by_put (put key w) refl
    where
      by_put :
          (x : Outcome StoredObject StorageFailure × W)
          → put key w ≡ x
          → IsStored w (
              of_put sha256_bytes megabytes storage workspace_id max_size_bytes file_id upload_file
                name key content x)
      by_put (raised e, w') q = inr (name, key, ok, q)
      by_put (returned o, w') q = (name, key, o, ok, q, refl)

  refused :
      (m : String) (w : W)
      → (¬ ((name key : String) × IsAcceptable name key))
      → IsStored w (raised (value_error m), w)
  refused m w unacceptable = inl (unacceptable, (m, refl), refl)

  put_upload-IsStored :
      (name : String) (w : W)
      → validate_upload_filename upload_file.filename ≡ returned name
      → 1 ≤ length content
      → length content ≤ max_size_bytes
      → IsStored w (
          put_upload sha256_bytes megabytes storage workspace_id max_size_bytes file_id upload_file
            name content
            (artifact_key workspace_id file_id (some name))
            w)
  unfolding put_upload
  put_upload-IsStored name w q some_bytes few =
      by_key (artifact_key workspace_id file_id (some name)) refl
    where
      by_key :
          (k : Outcome String String)
          → artifact_key workspace_id file_id (some name) ≡ k
          → IsStored w (
              put_upload sha256_bytes megabytes storage workspace_id max_size_bytes file_id
                upload_file name content k w)
      by_key (raised m) e = refused m w (λ (other, key, ok). cc (e, ok.keyed, q, ok.named))
      by_key (returned key) e =
          of_put-IsStored name key w
            (record { named = q; nonempty = some_bytes; bounded = few; keyed = e })

  read_lem : read_upload_bytes megabytes max_size_bytes upload_file ≡ (
      if ltb max_size_bytes (length content)
      then raised (too_large megabytes max_size_bytes)
      else returned content)
  unfolding read_upload_bytes
  read_lem =
      read_from-content megabytes max_size_bytes 0 upload_file.reads (zero_least max_size_bytes)
      ∙ ap
          (λ n.
            if ltb max_size_bytes n
            then raised (too_large megabytes max_size_bytes)
            else returned content)
          (from_zero (length content))

  with_bytes-IsStored :
      (name : String) (w : W) (x : Bytes)
      → validate_upload_filename upload_file.filename ≡ returned name
      → length content ≤ max_size_bytes
      → content ≡ x
      → IsStored w (
          with_content sha256_bytes megabytes storage workspace_id max_size_bytes file_id
            upload_file name
            (returned x)
            w)
  unfolding with_content
  with_bytes-IsStored name w [] q few e =
      refused "Uploaded file is empty." w
        (λ (other, key, ok). empty_not_long (length content) (ap length e) ok.nonempty)
  with_bytes-IsStored name w (b ∷ bs) q few e =
      subst
        (λ x. IsStored w (
          put_upload sha256_bytes megabytes storage workspace_id max_size_bytes file_id upload_file
            name x (artifact_key workspace_id file_id (some name)) w))
        e (put_upload-IsStored name w q (long (length content) (length bs) (ap length e)) few)

  with_content-IsStored :
      (name : String) (w : W)
      → validate_upload_filename upload_file.filename ≡ returned name
      → IsStored w (
          with_content sha256_bytes megabytes storage workspace_id max_size_bytes file_id
            upload_file name
            (read_upload_bytes megabytes max_size_bytes upload_file)
            w)
  unfolding with_content
  with_content-IsStored name w q = elim (Bool-cases (ltb max_size_bytes (length content))) [
    | inl large ↦
        rw (read_lem, large)
          (refused (too_large megabytes max_size_bytes) w
            (λ (other, key, ok). over_limit (length content) max_size_bytes large ok.bounded))
    | inr small ↦
        rw (read_lem, small)
          (with_bytes-IsStored name w content q (in_limit (length content) max_size_bytes small)
            refl)
  ]

  -- Whatever the upload is: if its name is allowed, it has at least a byte and at most as many as the
  -- limit, and its key is safe, then its whole content is put under that key, once, and the answer is
  -- the entry for what the store gave, or the store's error; in any other case the answer is a
  -- ValueError and nothing is put.
  pub store_upload-IsStored :
      (w : W)
      → IsStored w (
          store_upload sha256_bytes megabytes storage workspace_id max_size_bytes file_id
            upload_file w)
  unfolding store_upload with_name
  store_upload-IsStored w = by_name (validate_upload_filename upload_file.filename) refl
    where
      by_name :
          (o : Outcome String String)
          → validate_upload_filename upload_file.filename ≡ o
          → IsStored w (
              with_name sha256_bytes megabytes storage workspace_id max_size_bytes file_id
                upload_file o w)
      by_name (raised m) q = refused m w (λ (name, key, ok). cc (q, ok.named))
      by_name (returned name) q = with_content-IsStored name w q
