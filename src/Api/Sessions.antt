-- ===== src/Api/Sessions.antt =====
-- app/api/routes/auth.py: the login and the caller's own context.
use vendorops_ai.Base.{ℕ, String, Bool, Option, List}
use vendorops_ai.Auth.{
  Tables, AuthContext, LoginResult, Checked, accepted, rejected, Draw, authenticate_user,
}
use vendorops_ai.Auth.Roles.{permissions_for_role}
use vendorops_ai.Api.Guard.{Reply, replies, http_error, get_current_context, guarded}

pub record OrganizationSummaryResponse : Type 0 where
  pub organization_id : String
  pub name : String
  pub slug : String
  pub plan : String

pub record WorkspaceSummaryResponse : Type 0 where
  pub workspace_id : String
  pub name : String
  pub slug : String
  pub role : String

pub record AuthUserResponse : Type 0 where
  pub user_id : String
  pub email : String
  pub full_name : String
  pub organization : OrganizationSummaryResponse
  pub workspace : WorkspaceSummaryResponse
  pub permissions : List String

unfoldable pub to_auth_user_response : AuthContext → AuthUserResponse
unfolding permissions_for_role
to_auth_user_response c = record {
  user_id = c.user.id;
  email = c.user.email;
  full_name = c.user.full_name;
  organization = record {
    organization_id = c.organization.id;
    name = c.organization.name;
    slug = c.organization.slug;
    plan = c.organization.plan;
  };
  workspace = record {
    workspace_id = c.workspace.id;
    name = c.workspace.name;
    slug = c.workspace.slug;
    role = c.membership.role;
  };
  permissions = permissions_for_role c.membership.role;
}

pub record LoginResponse : Type 0 where
  pub access_token : String
  pub token_type : String
  pub expires_at : ℕ
  pub user : AuthUserResponse

login_reply : Checked LoginResult × Tables → Reply LoginResponse × Tables
unfolding to_auth_user_response
login_reply (rejected e, t) = (http_error 401 e, t)
login_reply (accepted r, t) = (
  replies 200 (record {
    access_token = r.access_token;
    token_type = "bearer";
    expires_at = r.expires_at;
    user = to_auth_user_response r.context;
  }),
  t,
)

module _ (hash_token : String → String) where
  -- POST /auth/login
  unfoldable pub login :
      (String → String)
      → (String → String → Bool)
      → Draw
      → String
      → String
      → Tables
      → Reply LoginResponse × Tables
  unfolding login_reply authenticate_user
  login normalize verify_password d email password t =
      login_reply (authenticate_user hash_token normalize verify_password d email password t)

  -- GET /auth/me
  unfoldable pub get_me : ℕ → Option String → Tables → Reply AuthUserResponse × Tables
  unfolding guarded get_current_context to_auth_user_response
  get_me now header t =
      guarded (get_current_context hash_token now header t)
        (λ c u. (replies 200 (to_auth_user_response c), u)) t
