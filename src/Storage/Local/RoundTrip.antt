-- ===== src/Storage/Local/RoundTrip.antt =====
-- What the store of app/storage/backends.py reads after it has written.
use vendorops_ai.Base.{ℕ, String, ◌≡◌, refl, ◌⊎◌, inl, inr, true, false, length, Bool-cases}
use vendorops_ai.Retry.{Outcome, returned, raised}
use vendorops_ai.Storage.{Bytes, StoredObject, StorageFailure, storage_error}
use vendorops_ai.Storage.Local.{
  FileSystem, IsDisk, confined, path_for_key, path_from_uri, of_write, put_at, put_bytes, of_read,
  read_at, read_bytes, exists_at, exists,
}

module _ {W : Type 0} (fs : FileSystem W) (root_dir key : String) (content : Bytes)
    (content_type : String) (w : W) where
  -- The path that a key stands for.
  abbrev pub target : fs.PosixPath
  target = fs.resolve (fs.join (fs.path_of root_dir) key) w

  abbrev pub root : fs.PosixPath
  root = fs.resolve (fs.path_of root_dir) w

  -- A put that succeeds is inside the root and can be read back; one that raises has left the disk
  -- alone, as the key leads outside the root, or failed in the write.
  abbrev pub IsPut : Outcome StoredObject StorageFailure × W → Type 0
  IsPut (returned o, w') =
      (fs.is_relative_to target root ≡ true)
      × (o.key ≡ key)
      × (o.size_bytes ≡ length content)
      × (o.content_type ≡ content_type)
      × (read_bytes fs root_dir o.uri w' ≡ returned content)
      × (exists fs root_dir o.uri w' ≡ returned true)
  IsPut (raised e, w') =
      ((fs.is_relative_to target root ≡ false)
        × (e ≡ storage_error "Storage key resolves outside the configured storage root.")
        × (w' ≡ w))
      ⊎ ((t : String) × (fs.write_bytes target content w ≡ (raised t, w')))

  found :
      (w' : W) (n : ℕ)
      → IsDisk fs
      → fs.write_bytes target content w ≡ (returned n, w')
      → fs.is_relative_to target root ≡ true
      → path_from_uri fs root_dir (fs.text_of target) w' ≡ returned target
  unfolding path_from_uri confined
  found w' n disk written inside =
      rw
        (
          disk.write_moves_nothing target (fs.path_of (fs.text_of target)) content w w' n written,
          disk.write_moves_nothing target (fs.path_of root_dir) content w w' n written,
          disk.resolved_again (fs.join (fs.path_of root_dir) key) w,
          inside,
        )
        refl

  IsPut-inside :
      IsDisk fs
      → fs.is_relative_to target root ≡ true
      → IsPut
          (of_write fs root_dir key content content_type target (fs.write_bytes target content w))
  unfolding of_write read_bytes exists read_at exists_at of_read
  IsPut-inside disk inside = by_write (fs.write_bytes target content w) refl
    where
      by_write :
          (x : Outcome ℕ String × W)
          → fs.write_bytes target content w ≡ x
          → IsPut (of_write fs root_dir key content content_type target x)
      by_write (raised t, w') q = inr (t, q)
      by_write (returned n, w') q =
          let at = found w' n disk q inside in
          let (there, file, same) = disk.written target content w w' n q in
          (inside, refl, refl, refl, rw (at, there, file, same) refl, rw (at, there, file) refl)

  -- On a disk, an object that was put is read back under its URI with the same bytes, and its key leads
  -- to a path inside the root; a put that raises has left the disk alone, since the key leads outside
  -- the root, or its write failed.
  pub put_bytes-IsPut : IsDisk fs → IsPut (put_bytes fs root_dir key content content_type w)
  unfolding put_bytes put_at path_for_key confined
  put_bytes-IsPut disk = elim (Bool-cases (fs.is_relative_to target root)) [
    | inl inside ↦ rw inside (IsPut-inside disk inside)
    | inr outside ↦ rw outside (inl (outside, refl, refl))
  ]
