-- ===== src/Auth/Examples.antt =====
-- A login of the only user of a workspace.
use vendorops_ai.Base.{
  String, ◌≡◌, ◌⊎◌, refl, true, some, [], ◌∷◌, str_eq, str_append, ltb, if◌then◌else◌,
}
use vendorops_ai.Db.{UserAccount, empty_database}
use vendorops_ai.Auth.{
  Tables, AuthContext, accepted, rejected, Draw, get_user_by_email, get_primary_auth_context,
  authenticate_user, get_context_from_token,
}
use vendorops_ai.Auth.Sessions.{IsLoggedIn, authenticate_user_checks, token_expires}

abbrev hash : String → String
hash s = str_append "h" s

abbrev as_given : String → String
as_given s = s

abbrev user : UserAccount
user = record {
  id = "u1";
  email = "a@x";
  full_name = "A";
  password_hash = "pw";
  is_active = true;
  created_at = 0;
  updated_at = 0;
}

abbrev context : AuthContext
context = record {
  user = user;
  organization = record {
    id = "o1";
    name = "O";
    slug = "o";
    plan = "demo";
    created_at = 0;
    updated_at = 0;
  };
  workspace = record {
    id = "w1";
    organization_id = "o1";
    name = "W";
    slug = "w";
    created_at = 0;
    updated_at = 0;
  };
  membership = record {
    id = "m1";
    user_id = "u1";
    organization_id = "o1";
    workspace_id = "w1";
    role = "owner";
    created_at = 0;
  };
}

abbrev tables : Tables
tables = record {
  users = user ∷ [];
  organizations = context.organization ∷ [];
  workspaces = context.workspace ∷ [];
  memberships = context.membership ∷ [];
  sessions = [];
  db = empty_database;
}

abbrev draw : Draw
draw = record {
  now = 10;
  flushed_at = 11;
  ttl = 100;
  token = "t";
  session_id = "s1";
  audit_id = "a1";
}

knows_user : get_user_by_email as_given tables "a@x" ≡ some user
unfolding get_user_by_email
knows_user = refl

user_has_workspace : get_primary_auth_context tables user ≡ accepted context
unfolding get_primary_auth_context
user_has_workspace = refl

authenticate_user_checks_example :
    ((authenticate_user hash as_given str_eq draw "a@x" "pw" tables).1 ≡ tables)
    ⊎ IsLoggedIn hash as_given str_eq draw "a@x" "pw" tables
        (authenticate_user hash as_given str_eq draw "a@x" "pw" tables)
authenticate_user_checks_example =
    authenticate_user_checks hash as_given str_eq draw "a@x" "pw" tables

token_expires_example :
    get_context_from_token hash 60 "t"
      (authenticate_user hash as_given str_eq draw "a@x" "pw" tables).1
    ≡ (if ltb 60 110 then accepted context else rejected "Invalid or expired bearer token.")
token_expires_example =
    token_expires hash as_given str_eq draw "a@x" "pw" user context tables 60 tt refl knows_user
      refl refl user_has_workspace
