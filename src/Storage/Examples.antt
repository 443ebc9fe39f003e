-- ===== src/Storage/Examples.antt =====
-- A disk that is a list of files by their paths, the latest first, and keys of two workspaces.
use vendorops_ai.Base.{
  ℕ, String, ◌≢◌, ◌≡◌, refl, Bool, true, false, Option, none, some, List, [], ◌∷◌, ◌&&◌, length,
  str_eq, eq_refl, unequal, subst, ap, str_append,
}
use Prim.Native.Char.{code}
use vendorops_ai.Base.{◌==◌}
use vendorops_ai.Retry.{Outcome, returned, raised}
use vendorops_ai.Storage.{Bytes}
use vendorops_ai.Storage.Keys.{is_safe, artifact_key}
use vendorops_ai.Storage.Keys.Apart.{all_safe, keys_apart}
use vendorops_ai.Storage.Local.{FileSystem, IsDisk, put_bytes}
use vendorops_ai.Storage.Local.RoundTrip.{IsPut, put_bytes-IsPut}

abbrev Disk : Type 0
Disk = List (String × Bytes)

-- Whether a text begins with another.
abbrev starts : String → String → Bool
starts s String.[] = true
starts String.[] (String.◌∷◌ d t) = false
starts (String.◌∷◌ c s) (String.◌∷◌ d t) = code c == code d && starts s t

abbrev lookup : String → Disk → Option Bytes
lookup p [] = none
lookup p ((q, content) ∷ files) =
    let rest = lookup p files in elim (str_eq p q) [ true ↦ some content | false ↦ rest ]

abbrev present : Option Bytes → Bool
present none = false
present (some content) = true

abbrev read_of : Option Bytes → Outcome Bytes String
read_of none = raised "no such file"
read_of (some content) = returned content

abbrev disk : FileSystem Disk
disk = record {
  PosixPath = String;
  path_of = λ s. s;
  text_of = λ p. p;
  join = λ p s. str_append p (str_append "/" s);
  resolve = λ p w. p;
  is_relative_to = starts;
  exists = λ p w. present (lookup p w);
  is_file = λ p w. present (lookup p w);
  write_bytes = λ p content w. (returned (length content), (p, content) ∷ w);
  read_bytes = λ p w. read_of (lookup p w);
  unlink = λ p w. (returned true, w);
}

latest : (p : String) (content : Bytes) (w : Disk) → lookup p ((p, content) ∷ w) ≡ some content
latest p content w =
    ap (λ (b : Bool). elim b [ true ↦ some content | false ↦ lookup p w ]) (eq_refl p)

kept :
    (p : String) (content : Bytes) (w w' : Disk) (n : ℕ)
    → disk.write_bytes p content w ≡ (returned n, w')
    → (disk.exists p w' ≡ true)
      × (disk.is_file p w' ≡ true)
      × (disk.read_bytes p w' ≡ returned content)
kept p content w w' n q =
    subst
      (λ (v : Disk).
        (disk.exists p v ≡ true)
        × (disk.is_file p v ≡ true)
        × (disk.read_bytes p v ≡ returned content))
      (ap (λ (x : Outcome ℕ String × Disk). x.1) q)
      (
        ap present (latest p content w),
        ap present (latest p content w),
        ap read_of (latest p content w),
      )

disk-IsDisk : IsDisk disk
disk-IsDisk = record {
  written = kept;
  write_moves_nothing = λ p q content w w' n e. refl;
  resolved_again = λ q w. refl;
}

put_bytes-IsPut_example :
    IsPut disk "/data" "workspaces/w1/artifacts/f1/a.txt"
      (1 ∷ 2 ∷ [])
      "text/plain"
      []
      (put_bytes disk "/data" "workspaces/w1/artifacts/f1/a.txt" (1 ∷ 2 ∷ []) "text/plain" [])
put_bytes-IsPut_example =
    put_bytes-IsPut disk "/data" "workspaces/w1/artifacts/f1/a.txt" (1 ∷ 2 ∷ []) "text/plain" []
      disk-IsDisk

first_key : artifact_key "w-1" "f1" (some "b/a.txt") ≡ returned "workspaces/w-1/artifacts/f1/a.txt"
unfolding artifact_key
first_key = refl

safe_id : all_safe "w-1" ≡ true
unfolding all_safe is_safe
safe_id = refl

other_safe_id : all_safe "w-2" ≡ true
unfolding all_safe is_safe
other_safe_id = refl

keys_apart_example :
    artifact_key "w-2" "../w-1" (some "a.txt") ≢ returned "workspaces/w-1/artifacts/f1/a.txt"
keys_apart_example =
    keys_apart "w-1" "w-2" "f1" "../w-1" (some "b/a.txt") (some "a.txt")
      "workspaces/w-1/artifacts/f1/a.txt" safe_id other_safe_id (unequal "w-1" "w-2" refl) first_key
