-- ===== src/Auth/Roles.antt =====
-- ROLE_PERMISSIONS and require_permission of app/auth/service.py.
use vendorops_ai.Base.{String, List, [], ◌∷◌, str_eq, str_append, elem, if◌then◌else◌}
use vendorops_ai.Auth.{AuthContext}

-- ROLE_PERMISSIONS.get(role, [])
unfoldable pub permissions_for_role : String → List String
permissions_for_role role =
    if str_eq role "owner"
    then "workspace:admin" ∷ "pipeline:write" ∷ "report:read" ∷ "report:write" ∷ "analytics:read"
      ∷ "audit:read" ∷ []
    else if str_eq role "admin"
    then "pipeline:write" ∷ "report:read" ∷ "report:write" ∷ "analytics:read" ∷ "audit:read" ∷ []
    else if str_eq role "analyst"
    then "pipeline:write" ∷ "report:read" ∷ "report:write" ∷ "analytics:read" ∷ []
    else if str_eq role "viewer"
    then "analytics:read" ∷ "report:read" ∷ []
    else []

-- None, or an AuthorizationError with its text.
pub data Permission : Type 0 where
  permitted : Permission
  forbidden : String → Permission

-- The text of the AuthorizationError.
unfoldable pub role_error : String → String → String
role_error role permission =
    str_append "Role '"
      (str_append role (str_append "' cannot perform '" (str_append permission "'.")))

unfoldable pub require_permission : AuthContext → String → Permission
unfolding permissions_for_role role_error
require_permission context permission =
    if elem permission (permissions_for_role context.membership.role)
    then permitted
    else forbidden (role_error context.membership.role permission)
