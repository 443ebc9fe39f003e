-- ===== src/Api/Guard.antt =====
-- app/api/dependencies.py: the token of a request and the permission that a route asks for.
use Prim.Native.Char.{code}
use vendorops_ai.Base.{
  ℕ, ◌+◌, String, ◌&&◌, Option, none, some, List, [], ◌∷◌, leb, ◌==◌, strip, if◌then◌else◌,
}
use vendorops_ai.Db.{Database}
use vendorops_ai.Auth.{Tables, AuthContext, Checked, accepted, rejected, get_context_from_token}
use vendorops_ai.Auth.Roles.{Permission, permitted, forbidden, require_permission}

-- What a route answers: a status code with a body, or an HTTPException.
pub data Reply (A : Type 0) : Type 0 where
  replies : ℕ → A → Reply A
  http_error : ℕ → String → Reply A

-- The context of a request, or the HTTPException of a dependency.
pub data Admission : Type 0 where
  admitted : AuthContext → Admission
  turned_away : ℕ → String → Admission

-- The code of the lower-case letter; no other character is one of "bearer " in lower case.
lower : ℕ → ℕ
lower c = if leb b'A' c && leb c b'Z' then c + 32 else c

-- What follows the codes, whose letters are lower-case, at the start of a text in any case.
after : List ℕ → String → Option String
unfolding lower
after [] s = some s
after (k ∷ ks) String.[] = none
after (k ∷ ks) (String.◌∷◌ c s) =
    let rest = after ks s in if lower (code c) == k then rest else none

-- The token of an Authorization header: no header, or one that does not begin with "bearer ", is none.
unfoldable pub bearer_token : Option String → Option String
unfolding after strip
bearer_token none = none
bearer_token (some header) =
    elim (after (b'b' ∷ b'e' ∷ b'a' ∷ b'r' ∷ b'e' ∷ b'r' ∷ b' ' ∷ []) header) [
      | none ↦ none
      | some rest ↦ some (strip rest)
    ]

unfoldable pub of_checked : Checked AuthContext → Admission
of_checked (accepted c) = admitted c
of_checked (rejected e) = turned_away 401 e

of_permission : AuthContext → Permission → Admission
of_permission c permitted = admitted c
of_permission c (forbidden e) = turned_away 403 e

module _ (hash_token : String → String) where
  unfoldable pub of_token : ℕ → Tables → Option String → Admission
  unfolding of_checked get_context_from_token
  of_token now t none = turned_away 401 "Bearer token is required."
  of_token now t (some token) = of_checked (get_context_from_token hash_token now token t)

  unfoldable pub get_current_context : ℕ → Option String → Tables → Admission
  unfolding of_token bearer_token
  get_current_context now header t = of_token now t (bearer_token header)

  unfoldable pub permission_of : String → Admission → Admission
  unfolding of_permission require_permission
  permission_of permission (admitted c) = of_permission c (require_permission c permission)
  permission_of permission (turned_away code e) = turned_away code e

  -- require_permission_dependency(permission)
  unfoldable pub require_permission_dependency : String → ℕ → Option String → Tables → Admission
  unfolding permission_of get_current_context
  require_permission_dependency permission now header t =
      permission_of permission (get_current_context now header t)

-- A route behind its dependency.
unfoldable pub guarded :
    {A : Type 0} → Admission → (AuthContext → Tables → Reply A × Tables) → Tables → Reply A × Tables
guarded (admitted c) body t = body c t
guarded (turned_away code e) body t = (http_error code e, t)

-- A body that reads and writes the pipeline's tables.
unfoldable pub on_db : {A : Type 0} → Reply A × Database → Tables → Reply A × Tables
on_db (r, db) t = (r, record t { db = db })

-- tenant_ids
unfoldable pub organization_id : AuthContext → Option String
organization_id c = some c.organization.id

unfoldable pub workspace_id : AuthContext → Option String
workspace_id c = some c.workspace.id
