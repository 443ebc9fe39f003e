-- ===== src/Ingestion.antt =====
-- app/ingestion/storage.py: the check of an upload's name, its bounded read and its way into the store.
-- A ValueError is its text. The paths are those of Python 3.11 to 3.13.
pub mod Uploads
pub mod Stores
use Prim.Native.Char.{Char, code}
use vendorops_ai.Base.{
  ℕ, zero, suc, ◌+◌, ◌-◌, String, ◌≡◌, refl, Bool, true, false, ◌&&◌, ◌||◌, Option, none, some,
  List, [], ◌∷◌, ◌++◌, leb, ltb, ◌==◌, str_eq, str_append, elem, length, strip, if◌then◌else◌,
}
use vendorops_ai.Retry.{Outcome, returned, raised}
use vendorops_ai.Storage.{
  Bytes, StoredObject, StorageFailure, storage_error, value_error, os_error, ObjectStorageBackend,
}
use vendorops_ai.Storage.Keys.{sub_unsafe, path_name, artifact_key}

-- The upload that FastAPI hands over; `reads` are the chunks that its successive reads return.
pub record UploadFile : Type 0 where
  pub filename : Option String
  pub content_type : Option String
  pub reads : List Bytes

pub record StoredUpload : Type 0 where
  pub file_id : String
  pub original_filename : String
  pub content_type : String
  pub size_bytes : ℕ
  pub sha256_hash : String
  pub storage_path : String
  pub object_key : String

-- name.replace(" ", "_")
replace_spaces : String → String
replace_spaces String.[] = ""
replace_spaces (String.◌∷◌ c s) =
    let rest = replace_spaces s in if code c == b' ' then str_append "_" rest else String.◌∷◌ c rest

-- re.sub(r"_+", "_", name); the flag says whether the text follows a "_".
squeeze : Bool → String → String
squeeze after String.[] = ""
squeeze after (String.◌∷◌ c s) = elim (code c == b'_') [
  | false ↦ String.◌∷◌ c (squeeze false s)
  | true ↦ elim after [ true ↦ squeeze true s | false ↦ str_append "_" (squeeze true s) ]
]

strip_left_underscores : String → String
strip_left_underscores String.[] = ""
strip_left_underscores (String.◌∷◌ c s) =
    let rest = strip_left_underscores s in if code c == b'_' then rest else String.◌∷◌ c s

kept_before : Bool → Char → String → String
kept_before true c String.[] = ""
kept_before _ c s = String.◌∷◌ c s

strip_right_underscores : String → String
unfolding kept_before
strip_right_underscores String.[] = ""
strip_right_underscores (String.◌∷◌ c s) =
    kept_before (code c == b'_') c (strip_right_underscores s)

-- The name that sanitize_filename checks.
unfoldable pub cleaned : String → String
unfolding replace_spaces squeeze strip_left_underscores strip_right_underscores sub_unsafe path_name
    strip
cleaned filename = strip_right_underscores (
    strip_left_underscores
      (squeeze false (sub_unsafe false (replace_spaces (strip (path_name filename))))))

checked_name : String → Outcome String String
checked_name name =
    if str_eq name "" || str_eq name "." || str_eq name ".."
    then raised "Uploaded file must include a safe filename."
    else returned name

unfoldable pub sanitize_filename : String → Outcome String String
unfolding checked_name cleaned
sanitize_filename filename = checked_name (cleaned filename)

sanitized : sanitize_filename "../in voice__#1.PDF" ≡ returned "in_voice_1.PDF"
unfolding sanitize_filename
sanitized = refl

-- What stands before and after the last ".", if there is one.
unfoldable pub split_last_dot : String → Option (String × String)
split_last_dot String.[] = none
split_last_dot (String.◌∷◌ c s) = elim (split_last_dot s) [
  | some (stem, extension) ↦ some (String.◌∷◌ c stem, extension)
  | none ↦ if code c == b'.' then some ("", s) else none
]

-- The character at a place of a text, or the given one after its end.
nth : ℕ → String → Char → Char
nth n String.[] default = default
nth zero (String.◌∷◌ c s) default = c
nth (suc n) (String.◌∷◌ c s) default = nth n s default

-- s.lower() for a name of ASCII characters
unfoldable pub lower_case : String → String
unfolding nth
lower_case String.[] = ""
lower_case (String.◌∷◌ c s) =
    let rest = lower_case s in
    if leb b'A' (code c) && leb (code c) b'Z'
    then String.◌∷◌ (nth (code c - 65) "abcdefghijklmnopqrstuvwxyz" c) rest
    else String.◌∷◌ c rest

suffix_of_split : Option (String × String) → String
suffix_of_split none = ""
suffix_of_split (some (stem, extension)) =
    if str_eq stem "" || str_eq extension "" then "" else str_append "." extension

-- Path(name).suffix.lower()
unfoldable pub suffix : String → String
unfolding suffix_of_split split_last_dot lower_case
suffix name = lower_case (suffix_of_split (split_last_dot name))

abbrev pub allowed_file_extensions : List String
allowed_file_extensions = ".csv" ∷ ".eml" ∷ ".pdf" ∷ ".txt" ∷ []

checked_suffix : Outcome String String → Outcome String String
unfolding suffix
checked_suffix (raised e) = raised e
checked_suffix (returned name) =
    if elem (suffix name) allowed_file_extensions
    then returned name
    else raised (
        str_append "Unsupported file type '"
          (str_append (suffix name) "'. Allowed types: .csv, .eml, .pdf, .txt."))

unfoldable pub validate_upload_filename : Option String → Outcome String String
unfolding checked_suffix sanitize_filename
validate_upload_filename none = raised "Uploaded file must include a filename."
validate_upload_filename (some filename) =
    if str_eq filename ""
    then raised "Uploaded file must include a filename."
    else checked_suffix (sanitize_filename filename)

accepts_upper_case : validate_upload_filename (some "a b.PDF") ≡ returned "a_b.PDF"
unfolding validate_upload_filename
accepts_upper_case = refl

refuses_hidden :
    validate_upload_filename (some ".csv")
    ≡ raised "Unsupported file type ''. Allowed types: .csv, .eml, .pdf, .txt."
unfolding validate_upload_filename
refuses_hidden = refl

-- The text of a number of bytes in MB with no decimals, `f"{max_mb:.0f}"`, is an argument.
module _ (megabytes : ℕ → String) (max_size_bytes : ℕ) where
  -- From the read of a chunk on; the ones before have `total_size` bytes.
  unfoldable pub read_from : ℕ → List Bytes → Outcome Bytes String
  read_from total_size [] = returned []
  read_from total_size ([] ∷ chunks) = returned []
  read_from total_size ((b ∷ chunk) ∷ chunks) =
      let total = total_size + length (b ∷ chunk) in
      let rest = read_from total chunks in
      if ltb max_size_bytes total
      then raised (
          str_append "Uploaded file exceeds the "
            (str_append (megabytes max_size_bytes) " MB limit."))
      else elim rest [ returned content ↦ returned ((b ∷ chunk) ++ content) | raised e ↦ raised e ]

  unfoldable pub read_upload_bytes : UploadFile → Outcome Bytes String
  unfolding read_from
  read_upload_bytes upload_file = read_from 0 upload_file.reads

-- `upload_file.content_type or "application/octet-stream"`
unfoldable pub type_of : Option String → String
type_of none = "application/octet-stream"
type_of (some t) = if str_eq t "" then "application/octet-stream" else t

module _ {W : Type 0} (sha256_bytes : Bytes → String) (megabytes : ℕ → String)
    (storage : ObjectStorageBackend W) (workspace_id : String) (max_size_bytes : ℕ)
    (file_id : String) (upload_file : UploadFile) where
  of_put :
      String
      → String
      → Bytes
      → Outcome StoredObject StorageFailure × W
      → Outcome StoredUpload StorageFailure × W
  unfolding type_of
  of_put name key content (raised e, w) = (raised e, w)
  of_put name key content (returned stored_object, w) = (
    returned (record {
      file_id = file_id;
      original_filename = name;
      content_type = type_of upload_file.content_type;
      size_bytes = length content;
      sha256_hash = sha256_bytes content;
      storage_path = stored_object.uri;
      object_key = key;
    }),
    w,
  )

  put_upload : String → Bytes → Outcome String String → W → Outcome StoredUpload StorageFailure × W
  unfolding of_put type_of
  put_upload name content (raised e) w = (raised (value_error e), w)
  put_upload name content (returned key) w =
      of_put name key content (storage.put_bytes key content (type_of upload_file.content_type) w)

  with_content : String → Outcome Bytes String → W → Outcome StoredUpload StorageFailure × W
  unfolding put_upload artifact_key
  with_content name (raised e) w = (raised (value_error e), w)
  with_content name (returned []) w = (raised (value_error "Uploaded file is empty."), w)
  with_content name (returned (b ∷ bs)) w =
      put_upload name (b ∷ bs) (artifact_key workspace_id file_id (some name)) w

  with_name : Outcome String String → W → Outcome StoredUpload StorageFailure × W
  unfolding with_content read_upload_bytes
  with_name (raised e) w = (raised (value_error e), w)
  with_name (returned name) w =
      with_content name (read_upload_bytes megabytes max_size_bytes upload_file) w

  unfoldable pub store_upload : W → Outcome StoredUpload StorageFailure × W
  unfolding with_name validate_upload_filename
  store_upload w = with_name (validate_upload_filename upload_file.filename) w
