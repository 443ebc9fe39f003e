-- ===== src/Storage/Keys.antt =====
-- app/storage/keying.py: the keys of stored objects. Also the last component of a path, which
-- app/ingestion/storage.py reads too.
pub mod Apart
use Prim.Native.Char.{Char, code}
use vendorops_ai.Base.{
  ℕ, String, ◌≡◌, refl, ap, ◌∙◌, sym, Bool, true, false, ◌&&◌, ◌||◌, Option, none, some, List, [],
  ◌∷◌, leb, ◌==◌, str_eq, str_append, strip, if◌then◌else◌,
}
use vendorops_ai.Retry.{Outcome, returned, raised}

-- The characters of [A-Za-z0-9._-].
unfoldable pub is_safe : Char → Bool
is_safe c =
    leb b'A' (code c) && leb (code c) b'Z'
    || leb b'a' (code c) && leb (code c) b'z'
    || leb b'0' (code c) && leb (code c) b'9'
    || code c == b'.'
    || code c == b'_'
    || code c == b'-'

-- re.sub(r"[^A-Za-z0-9._-]+", "_", s): a run of other characters becomes one "_"; the flag says whether
-- the text follows such a character.
unfoldable pub sub_unsafe : Bool → String → String
unfolding is_safe
sub_unsafe inside String.[] = ""
sub_unsafe inside (String.◌∷◌ c s) = elim (is_safe c) [
  | true ↦ String.◌∷◌ c (sub_unsafe false s)
  | false ↦ elim inside [ true ↦ sub_unsafe true s | false ↦ str_append "_" (sub_unsafe true s) ]
]

sub_one_run : sub_unsafe false "a b//c.txt" ≡ "a_b_c.txt"
unfolding sub_unsafe
sub_one_run = refl

-- The first part of a split text, with a character before it.
prepend : Char → List String → List String
prepend c [] = String.◌∷◌ c "" ∷ []
prepend c (p ∷ ps) = String.◌∷◌ c p ∷ ps

-- s.split("/")
unfoldable pub parts : String → List String
unfolding prepend
parts String.[] = "" ∷ []
parts (String.◌∷◌ c s) = let rest = parts s in if code c == b'/' then "" ∷ rest else prepend c rest

-- The last of the parts that a path keeps; empty parts and "." are dropped.
last_part : List String → String
last_part [] = ""
last_part (p ∷ ps) =
    let rest = last_part ps in if str_eq rest "" then (if str_eq p "." then "" else p) else rest

-- PurePath(s).name
unfoldable pub path_name : String → String
unfolding last_part parts
path_name s = last_part (parts s)

last_component : path_name "a/b.txt/./" ≡ "b.txt"
unfolding path_name
last_component = refl

-- Of a text that has been cleaned: the ValueError for one that is not safe.
checked_segment : String → String → Outcome String String
checked_segment cleaned field_name =
    if str_eq cleaned "" || str_eq cleaned "." || str_eq cleaned ".."
    then raised (str_append field_name " must contain a safe value.")
    else returned cleaned

-- _safe_segment; a ValueError is its text.
unfoldable pub safe_segment : String → String → Outcome String String
unfolding checked_segment sub_unsafe strip
safe_segment value field_name = checked_segment (sub_unsafe false (strip value)) field_name

-- The two segments of the key, and what comes after them.
unfoldable pub key_of : String → String → String → String
key_of workspace artifact suffix =
    str_append "workspaces/"
      (str_append workspace (str_append "/artifacts/" (str_append artifact suffix)))

-- From the filename on.
with_suffix : String → String → Option String → Outcome String String
unfolding key_of safe_segment path_name
with_suffix workspace artifact none = returned (key_of workspace artifact "")
with_suffix workspace artifact (some filename) =
    if str_eq filename ""
    then returned (key_of workspace artifact "")
    else elim (safe_segment (path_name filename) "filename") [
      | raised e ↦ raised e
      | returned name ↦ returned (key_of workspace artifact (str_append "/" name))
    ]

with_artifact : String → Outcome String String → Option String → Outcome String String
unfolding with_suffix
with_artifact workspace (raised e) filename = raised e
with_artifact workspace (returned artifact) filename = with_suffix workspace artifact filename

with_workspace : Outcome String String → String → Option String → Outcome String String
unfolding with_artifact safe_segment
with_workspace (raised e) artifact_id filename = raised e
with_workspace (returned workspace) artifact_id filename =
    with_artifact workspace (safe_segment artifact_id "artifact_id") filename

unfoldable pub artifact_key : String → String → Option String → Outcome String String
unfolding with_workspace safe_segment
artifact_key workspace_id artifact_id filename =
    with_workspace (safe_segment workspace_id "workspace_id") artifact_id filename

-- The ids "a/b" and "a_b" of two workspaces give one key.
colliding_ids : artifact_key "a/b" "x" none ≡ artifact_key "a_b" "x" none
unfolding artifact_key
colliding_ids = refl
