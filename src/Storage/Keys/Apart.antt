-- ===== src/Storage/Keys/Apart.antt =====
-- The keys of app/storage/keying.py tell workspaces apart.
use Prim.Native.Char.{Char, code}
use text.Mathlib.TextLemmas.{nil-append, cons-append, append_assoc}
use vendorops_ai.Base.{
  ℕ, zero, suc, ◌≤◌, String, ◌≢◌, ◌≡◌, refl, sym, ap, subst, ◌∙◌, Bool, true, false, ◌&&◌, ◌||◌,
  Option, none, some, inl, inr, ◌==◌, arith, str_eq, str_append, strip, strip_left, strip_right,
  is_space, Bool-cases, if◌then◌else◌,
}
use vendorops_ai.Retry.{Outcome, returned, raised}
use vendorops_ai.Storage.Keys.{
  is_safe, sub_unsafe, checked_segment, safe_segment, key_of, path_name, with_suffix, with_artifact,
  with_workspace, artifact_key,
}

-- Whether a text has only the characters that a key keeps, as a UUID has.
unfoldable pub all_safe : String → Bool
all_safe String.[] = true
all_safe (String.◌∷◌ c s) = is_safe c && all_safe s

until_slash : String → String
until_slash String.[] = ""
until_slash (String.◌∷◌ c s) =
    let rest = until_slash s in if code c == b'/' then "" else String.◌∷◌ c rest

drop : ℕ → String → String
drop zero s = s
drop (suc n) String.[] = ""
drop (suc n) (String.◌∷◌ c s) = drop n s

-- What stands between "workspaces/" and the next "/".
workspace_of : String → String
unfolding until_slash drop
workspace_of key = until_slash (drop 11 key)

both : (a b : Bool) → a && b ≡ true → (a ≡ true) × (b ≡ true)
both a b h = ground arith

is_safe-bounds : (c : Char) → is_safe c ≡ true → (45 ≤ code c) × (code c ≤ 122)
unfolding is_safe
is_safe-bounds c h = (ground arith, ground arith)

safe_not_slash : (c : Char) → is_safe c ≡ true → code c == b'/' ≡ false
unfolding is_safe
safe_not_slash c h = ground arith

not_space : (n : ℕ) → 45 ≤ n → n ≤ 122 → is_space n ≡ false
unfolding is_space
not_space n h k = ground arith

safe_not_space : (c : Char) → is_safe c ≡ true → is_space (code c) ≡ false
safe_not_space c h = let (l, u) = is_safe-bounds c h in not_space (code c) l u

at_slash : (rest : String) → until_slash (str_append "/" rest) ≡ ""
unfolding until_slash
at_slash rest = rw (cons-append "/" "" rest) refl

until_slash-append :
    (s rest : String) → all_safe s ≡ true → until_slash (str_append s (str_append "/" rest)) ≡ s
unfolding all_safe until_slash
until_slash-append String.[] rest h = rw (nil-append (str_append "/" rest)) (at_slash rest)
until_slash-append (String.◌∷◌ c s) rest h =
    let (safe, all) = both (is_safe c) (all_safe s) h in
    rw (cons-append c s (str_append "/" rest), safe_not_slash c safe, until_slash-append s rest all)
      refl

size : String → ℕ
size String.[] = 0
size (String.◌∷◌ c s) = suc (size s)

drop-append : (p s : String) → drop (size p) (str_append p s) ≡ s
unfolding drop size
drop-append String.[] s = rw (nil-append s) refl
drop-append (String.◌∷◌ c p) s = rw (cons-append c p s) (drop-append p s)

-- A text of safe characters is its own segment, and the segment has safe characters only.
abbrev IsSegment : String → Outcome String String → Type 0
IsSegment v (returned x) = (all_safe x ≡ true) × (all_safe v ≡ true → x ≡ v)
IsSegment v (raised e) = true ≡ true

sub-keeps :
    (b : Bool) (c : Char) (s : String)
    → is_safe c ≡ true
    → sub_unsafe b (String.◌∷◌ c s) ≡ String.◌∷◌ c (sub_unsafe false s)
unfolding sub_unsafe is_safe
sub-keeps b c s e = rw (e, sub_unsafe) refl

sub-replaces :
    (b : Bool) (c : Char) (s : String)
    → is_safe c ≡ false
    → sub_unsafe b (String.◌∷◌ c s)
      ≡ (if b then sub_unsafe true s else String.◌∷◌ "_" (sub_unsafe true s))
unfolding sub_unsafe is_safe
sub-replaces true c s e = rw (e, sub_unsafe) refl
sub-replaces false c s e =
    rw (e, sub_unsafe)
      (cons-append "_" "" (sub_unsafe true s)
        ∙ ap (String.◌∷◌ "_") (nil-append (sub_unsafe true s)))

sub_unsafe-safe : (inside : Bool) (s : String) → all_safe (sub_unsafe inside s) ≡ true
unfolding all_safe sub_unsafe
sub_unsafe-safe inside String.[] = refl
sub_unsafe-safe inside (String.◌∷◌ c s) = elim (Bool-cases (is_safe c)) [
  | inl e ↦ rw (sub-keeps inside c s e, e) (sub_unsafe-safe false s)
  | inr e ↦ elim (Bool-cases inside) [
    | inl b ↦ rw (sub-replaces inside c s e, b) (sub_unsafe-safe true s)
    | inr b ↦ rw (sub-replaces inside c s e, b) (sub_unsafe-safe true s)
  ]
]

sub_unsafe-same : (s : String) → all_safe s ≡ true → sub_unsafe false s ≡ s
unfolding all_safe sub_unsafe
sub_unsafe-same String.[] h = refl
sub_unsafe-same (String.◌∷◌ c s) h =
    let (safe, all) = both (is_safe c) (all_safe s) h in
    sub-keeps false c s safe ∙ ap (String.◌∷◌ c) (sub_unsafe-same s all)

strip_left-same : (s : String) → all_safe s ≡ true → strip_left s ≡ s
unfolding all_safe strip_left
strip_left-same String.[] h = refl
strip_left-same (String.◌∷◌ c s) h = rw (safe_not_space c (both (is_safe c) (all_safe s) h).0) refl

strip_right-same : (s : String) → all_safe s ≡ true → strip_right s ≡ s
unfolding all_safe strip_right
strip_right-same String.[] h = refl
strip_right-same (String.◌∷◌ c s) h =
    let (safe, all) = both (is_safe c) (all_safe s) h in
    rw (safe_not_space c safe, strip_right-same s all) refl

strip-same : (s : String) → all_safe s ≡ true → strip s ≡ s
unfolding strip
strip-same s h = rw (strip_left-same s h) (strip_right-same s h)

safe_segment-IsSegment : (v field_name : String) → IsSegment v (safe_segment v field_name)
unfolding safe_segment checked_segment
safe_segment-IsSegment v field_name =
    elim (Bool-cases (str_eq x "" || str_eq x "." || str_eq x "..")) [
      | inl e ↦ rw e refl
      | inr e ↦ rw e (sub_unsafe-safe false (strip v), same)
    ]
  where
    x : String
    x = sub_unsafe false (strip v)

    same : all_safe v ≡ true → x ≡ v
    same h = rw (strip-same v h) (sub_unsafe-same v h)

-- A key names its workspace, if the workspace's id has only safe characters.
abbrev Names : String → Outcome String String → Type 0
Names v (returned key) = all_safe v ≡ true → workspace_of key ≡ v
Names v (raised e) = true ≡ true

key_of-Names :
    (v workspace artifact suffix : String)
    → all_safe workspace ≡ true
    → (all_safe v ≡ true → workspace ≡ v)
    → Names v (returned (key_of workspace artifact suffix))
unfolding key_of workspace_of size
key_of-Names v workspace artifact suffix safe same h =
    let rest = str_append artifact suffix in
    ap until_slash
      (drop-append "workspaces/" (str_append workspace (str_append "/artifacts/" rest)))
    ∙ ap (λ x. until_slash (str_append workspace x)) (append_assoc "/" "artifacts/" rest)
    ∙ until_slash-append workspace (str_append "artifacts/" rest) safe
    ∙ same h

with_suffix-Names :
    (v workspace artifact : String) (filename : Option String)
    → all_safe workspace ≡ true
    → (all_safe v ≡ true → workspace ≡ v)
    → Names v (with_suffix workspace artifact filename)
unfolding with_suffix
with_suffix-Names v workspace artifact none safe same =
    key_of-Names v workspace artifact "" safe same
with_suffix-Names v workspace artifact (some filename) safe same =
    elim (Bool-cases (str_eq filename "")) [
      | inl e ↦ rw e (key_of-Names v workspace artifact "" safe same)
      | inr e ↦ rw e (by_name (safe_segment (path_name filename) "filename"))
    ]
  where
    by_name :
        (o : Outcome String String)
        → Names v (elim o [
          | raised e ↦ raised e
          | returned name ↦ returned (key_of workspace artifact (str_append "/" name))
        ])
    by_name (raised e) = refl
    by_name (returned name) = key_of-Names v workspace artifact (str_append "/" name) safe same

artifact_key-Names :
    (v artifact_id : String) (filename : Option String)
    → Names v (artifact_key v artifact_id filename)
unfolding artifact_key with_workspace with_artifact
artifact_key-Names v artifact_id filename =
    by_workspace (safe_segment v "workspace_id") (safe_segment-IsSegment v "workspace_id")
  where
    by_artifact :
        (x : String) (o : Outcome String String)
        → all_safe x ≡ true
        → (all_safe v ≡ true → x ≡ v)
        → Names v (with_artifact x o filename)
    by_artifact x (raised e) safe same = refl
    by_artifact x (returned artifact) safe same = with_suffix-Names v x artifact filename safe same

    by_workspace :
        (o : Outcome String String)
        → IsSegment v o
        → Names v (with_workspace o artifact_id filename)
    by_workspace (raised e) h = refl
    by_workspace (returned x) (safe, same) =
        by_artifact x (safe_segment artifact_id "artifact_id") safe same

-- Two different workspaces whose ids have only characters that a key keeps, as UUIDs have, share no
-- key, whatever their artifacts and filenames are.
pub keys_apart :
    (v v' artifact_id artifact_id' : String) (filename filename' : Option String) (key : String)
    → all_safe v ≡ true
    → all_safe v' ≡ true
    → v ≢ v'
    → artifact_key v artifact_id filename ≡ returned key
    → artifact_key v' artifact_id' filename' ≢ returned key
keys_apart v v' artifact_id artifact_id' filename filename' key safe safe' differ q q' = differ (
    sym (subst (Names v) q (artifact_key-Names v artifact_id filename) safe)
    ∙ subst (Names v') q' (artifact_key-Names v' artifact_id' filename') safe')
