-- ===== src/Storage/Local.antt =====
-- LocalObjectStorage of app/storage/backends.py over the file system, which is a parameter.
pub mod RoundTrip
use vendorops_ai.Base.{
  ℕ, String, ◌≡◌, refl, Bool, true, false, not, ◌&&◌, ◌||◌, List, length, str_append, if◌then◌else◌,
}
use vendorops_ai.Retry.{Outcome, returned, raised}
use vendorops_ai.Storage.{
  Bytes, StoredObject, StorageFailure, storage_error, os_error, ObjectStorageBackend,
}

-- What the store calls of pathlib, over the state of the disk. `write_bytes` stands for the creation of
-- the parent directories and the write.
pub record FileSystem (W : Type 0) : Type 1 where
  pub PosixPath : Type 0
  pub path_of : String → PosixPath
  pub text_of : PosixPath → String
  pub join : PosixPath → String → PosixPath
  pub resolve : PosixPath → W → PosixPath
  pub is_relative_to : PosixPath → PosixPath → Bool
  pub exists : PosixPath → W → Bool
  pub is_file : PosixPath → W → Bool
  pub write_bytes : PosixPath → Bytes → W → Outcome ℕ String × W
  pub read_bytes : PosixPath → W → Outcome Bytes String
  pub unlink : PosixPath → W → Outcome Bool String × W

module _ {W : Type 0} (fs : FileSystem W) (root_dir : String) where
  open fs use {PosixPath}

  -- The resolved path, if it is under the resolved root.
  unfoldable pub confined : PosixPath → PosixPath → String → Outcome PosixPath StorageFailure
  confined candidate root what =
      if not (fs.is_relative_to candidate root)
      then raised (storage_error (str_append what " resolves outside the configured storage root."))
      else returned candidate

  -- _path_for_key
  unfoldable pub path_for_key : String → W → Outcome PosixPath StorageFailure
  unfolding confined
  path_for_key key w =
      confined (fs.resolve (fs.join (fs.path_of root_dir) key) w)
        (fs.resolve (fs.path_of root_dir) w) "Storage key"

  -- _path_from_uri
  unfoldable pub path_from_uri : String → W → Outcome PosixPath StorageFailure
  unfolding confined
  path_from_uri uri w =
      confined (fs.resolve (fs.path_of uri) w) (fs.resolve (fs.path_of root_dir) w) "Storage URI"

  of_write :
      String
      → Bytes
      → String
      → PosixPath
      → Outcome ℕ String × W
      → Outcome StoredObject StorageFailure × W
  of_write key content content_type path (raised e, w) = (raised (os_error e), w)
  of_write key content content_type path (returned n, w) = (
    returned (record {
      key = key;
      uri = fs.text_of path;
      size_bytes = length content;
      content_type = content_type;
    }),
    w,
  )

  put_at :
      String
      → Bytes
      → String
      → Outcome PosixPath StorageFailure
      → W
      → Outcome StoredObject StorageFailure × W
  unfolding of_write
  put_at key content content_type (raised e) w = (raised e, w)
  put_at key content content_type (returned path) w =
      of_write key content content_type path (fs.write_bytes path content w)

  unfoldable pub put_bytes : String → Bytes → String → W → Outcome StoredObject StorageFailure × W
  unfolding put_at path_for_key
  put_bytes key content content_type w = put_at key content content_type (path_for_key key w) w

  of_read : Outcome Bytes String → Outcome Bytes StorageFailure
  of_read (returned content) = returned content
  of_read (raised e) = raised (os_error e)

  read_at : String → Outcome PosixPath StorageFailure → W → Outcome Bytes StorageFailure
  unfolding of_read
  read_at uri (raised e) w = raised e
  read_at uri (returned path) w =
      if not (fs.exists path w) || not (fs.is_file path w)
      then raised (storage_error (str_append "Stored object '" (str_append uri "' was not found.")))
      else of_read (fs.read_bytes path w)

  unfoldable pub read_bytes : String → W → Outcome Bytes StorageFailure
  unfolding read_at path_from_uri
  read_bytes uri w = read_at uri (path_from_uri uri w) w

  exists_at : Outcome PosixPath StorageFailure → W → Outcome Bool StorageFailure
  exists_at (raised e) w = raised e
  exists_at (returned path) w = returned (fs.exists path w && fs.is_file path w)

  unfoldable pub exists : String → W → Outcome Bool StorageFailure
  unfolding exists_at path_from_uri
  exists uri w = exists_at (path_from_uri uri w) w

  of_unlink : Outcome Bool String × W → Outcome Bool StorageFailure × W
  of_unlink (returned b, w) = (returned b, w)
  of_unlink (raised e, w) = (raised (os_error e), w)

  delete_at : String → Outcome PosixPath StorageFailure → W → Outcome Bool StorageFailure × W
  unfolding of_unlink
  delete_at uri (raised e) w = (raised e, w)
  delete_at uri (returned path) w =
      if not (fs.exists path w)
      then (returned false, w)
      else if not (fs.is_file path w)
      then (
        raised (storage_error (str_append "Stored object '" (str_append uri "' is not a file."))),
        w,
      )
      else of_unlink (fs.unlink path w)

  -- The Boolean says whether a file was unlinked; Python returns None.
  unfoldable pub delete : String → W → Outcome Bool StorageFailure × W
  unfolding delete_at path_from_uri
  delete uri w = delete_at uri (path_from_uri uri w) w

-- What the store relies on: a file that was written is there with its content; a write moves no path;
-- a path that was resolved is found again by its text; a file that was unlinked is gone.
pub record IsDisk {W : Type 0} (fs : FileSystem W) : Type 0 where
  pub written :
      (p : fs.PosixPath) (content : Bytes) (w w' : W) (n : ℕ)
      → fs.write_bytes p content w ≡ (returned n, w')
      → (fs.exists p w' ≡ true) × (fs.is_file p w' ≡ true) × (fs.read_bytes p w' ≡ returned content)
  pub write_moves_nothing :
      (p q : fs.PosixPath) (content : Bytes) (w w' : W) (n : ℕ)
      → fs.write_bytes p content w ≡ (returned n, w')
      → fs.resolve q w' ≡ fs.resolve q w
  pub resolved_again :
      (q : fs.PosixPath) (w : W)
      → fs.resolve (fs.path_of (fs.text_of (fs.resolve q w))) w ≡ fs.resolve q w
