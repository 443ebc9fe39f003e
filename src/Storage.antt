-- ===== src/Storage.antt =====
-- app/storage: the interface of an object store, and the choice of one in app/storage/factory.py.
-- Storage/Keys has the keys, Storage/Local the store in a directory. The store in S3 calls an SDK; it is
-- a parameter.
pub mod Keys
pub mod Local
mod Examples
use vendorops_ai.Base.{
  ℕ, String, Bool, true, false, Option, none, some, List, str_eq, str_append, if◌then◌else◌,
}
use vendorops_ai.Retry.{Outcome, returned, raised}

abbrev pub Bytes : Type 0
Bytes = List ℕ

pub record StoredObject : Type 0 where
  pub key : String
  pub uri : String
  pub size_bytes : ℕ
  pub content_type : String

-- What a store raises: a StorageError, a ValueError, or an error of the system.
pub data StorageFailure : Type 0 where
  storage_error value_error os_error : String → StorageFailure

-- The protocol ObjectStorageBackend, over the world that it acts on.
pub record ObjectStorageBackend (W : Type 0) : Type 0 where
  pub put_bytes : String → Bytes → String → W → Outcome StoredObject StorageFailure × W
  pub read_bytes : String → W → Outcome Bytes StorageFailure
  pub exists : String → W → Outcome Bool StorageFailure
  pub delete : String → W → Outcome Bool StorageFailure × W

pub record StorageSettings : Type 0 where
  pub storage_backend : String
  pub local_storage_dir : String
  pub reports_dir : String
  pub s3_bucket : Option String

module _ {W : Type 0} (local : String → ObjectStorageBackend W)
    (s3 : String → ObjectStorageBackend W) where
  s3_storage : Option String → Outcome (ObjectStorageBackend W) StorageFailure
  s3_storage none = raised (value_error "S3_BUCKET must be configured when STORAGE_BACKEND=s3.")
  s3_storage (some bucket) =
      if str_eq bucket ""
      then raised (value_error "S3_BUCKET must be configured when STORAGE_BACKEND=s3.")
      else returned (s3 bucket)

  unfoldable pub get_object_storage :
      StorageSettings → Outcome (ObjectStorageBackend W) StorageFailure
  unfolding s3_storage
  get_object_storage settings =
      if str_eq settings.storage_backend "local"
      then returned (local settings.local_storage_dir)
      else if str_eq settings.storage_backend "s3"
      then s3_storage settings.s3_bucket
      else raised (
          storage_error (
            str_append "Storage backend '" (
              str_append settings.storage_backend (
                str_append "' is configured but not implemented. "
                  "Use STORAGE_BACKEND=local or STORAGE_BACKEND=s3 for this build."))))

  unfoldable pub get_report_storage :
      StorageSettings → Outcome (ObjectStorageBackend W) StorageFailure
  unfolding get_object_storage
  get_report_storage settings =
      if str_eq settings.storage_backend "local"
      then returned (local settings.reports_dir)
      else get_object_storage settings
