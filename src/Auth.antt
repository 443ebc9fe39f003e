-- ===== src/Auth.antt =====
-- app/auth/service.py: login, bearer tokens and role permissions. The password check, the token's hash
-- and the normal form of an email are arguments; the token, the ids and the instants are drawn.
pub mod Sessions
pub mod Roles
mod Examples
use vendorops_ai.Base.{
  ℕ, ◌+◌, String, Bool, true, false, not, ◌&&◌, ◌||◌, Option, none, some, List, [], ◌∷◌, ◌++◌, leb,
  ltb, str_eq, elem, find_if, if◌then◌else◌,
}
use vendorops_ai.Db.{
  text, Organization, Workspace, UserAccount, Membership, AuthSession, Database, create_audit_log,
}

pub record Tables : Type 0 where
  pub users : List UserAccount
  pub organizations : List Organization
  pub workspaces : List Workspace
  pub memberships : List Membership
  pub sessions : List AuthSession
  pub db : Database

pub record AuthContext : Type 0 where
  pub user : UserAccount
  pub organization : Organization
  pub workspace : Workspace
  pub membership : Membership

pub record LoginResult : Type 0 where
  pub access_token : String
  pub expires_at : ℕ
  pub context : AuthContext

-- A value, or the text of an AuthenticationError.
pub data Checked (A : Type 0) : Type 0 where
  accepted : A → Checked A
  rejected : String → Checked A

-- The join of a membership with its organization and its workspace.
joined_one : UserAccount → Membership → Option Organization → Option Workspace → Option AuthContext
joined_one u m (some o) (some w) =
    some (record { user = u; organization = o; workspace = w; membership = m })
joined_one u m _ _ = none

-- The first of the joined rows in the order of created_at; `best` is the one of the rows before.
earlier_of : Option AuthContext → Option AuthContext → Option AuthContext
earlier_of none c = c
earlier_of (some b) none = some b
earlier_of (some b) (some c) =
    if leb b.membership.created_at c.membership.created_at then some b else some c

first_joined :
    UserAccount → List Organization → List Workspace → List Membership → Option AuthContext
unfolding joined_one earlier_of
first_joined u os ws [] = none
first_joined u os ws (m ∷ ms) =
    let rest = first_joined u os ws ms in
    if str_eq m.user_id u.id
    then earlier_of
        (joined_one u m (find_if (λ (o : Organization). str_eq o.id m.organization_id) os)
          (find_if (λ (w : Workspace). str_eq w.id m.workspace_id) ws))
        rest
    else rest

assigned : Option AuthContext → Checked AuthContext
assigned none = rejected "User is not assigned to a workspace."
assigned (some c) = accepted c

unfoldable pub get_primary_auth_context : Tables → UserAccount → Checked AuthContext
unfolding first_joined assigned
get_primary_auth_context t u = assigned (first_joined u t.organizations t.workspaces t.memberships)

unfoldable pub get_user_by_email : (String → String) → Tables → String → Option UserAccount
get_user_by_email normalize t email =
    find_if (λ (u : UserAccount). str_eq u.email (normalize email)) t.users

-- What authenticate_user draws, and the lifetime of a session.
pub record Draw : Type 0 where
  pub now : ℕ
  pub flushed_at : ℕ
  pub ttl : ℕ
  pub token : String
  pub session_id : String
  pub audit_id : String

module _ (hash_token : String → String) where
  unfoldable pub new_session : Draw → UserAccount → AuthSession
  new_session d u = record {
    id = d.session_id;
    user_id = u.id;
    token_hash = hash_token d.token;
    expires_at = d.now + d.ttl;
    revoked_at = none;
    created_at = d.flushed_at;
  }

  unfoldable pub log_in : Draw → UserAccount → AuthContext → Tables → Checked LoginResult × Tables
  unfolding new_session create_audit_log
  log_in d u c t = (
    accepted (record { access_token = d.token; expires_at = d.now + d.ttl; context = c }),
    record t {
      sessions = t.sessions ++ new_session d u ∷ [];
      db =
          create_audit_log d.flushed_at d.audit_id u.email "auth.login" "user_account" (some u.id)
            (some c.organization.id) (some c.workspace.id)
            (some (
              ("organization_id", text c.organization.id)
              ∷ ("workspace_id", text c.workspace.id)
              ∷ ("role", text c.membership.role)
              ∷ []))
            t.db;
    },
  )

  with_context : Draw → UserAccount → Checked AuthContext → Tables → Checked LoginResult × Tables
  unfolding log_in
  with_context d u (rejected e) t = (rejected e, t)
  with_context d u (accepted c) t = log_in d u c t

  with_user :
      (String → String → Bool)
      → Draw
      → String
      → Option UserAccount
      → Tables
      → Checked LoginResult × Tables
  unfolding with_context get_primary_auth_context
  with_user verify_password d password none t = (rejected "Invalid email or password.", t)
  with_user verify_password d password (some u) t =
      if not u.is_active || not (verify_password password u.password_hash)
      then (rejected "Invalid email or password.", t)
      else with_context d u (get_primary_auth_context t u) t

  unfoldable pub authenticate_user :
      (String → String)
      → (String → String → Bool)
      → Draw
      → String
      → String
      → Tables
      → Checked LoginResult × Tables
  unfolding with_user get_user_by_email
  authenticate_user normalize verify_password d email password t =
      with_user verify_password d password (get_user_by_email normalize t email) t

  -- Whether the query finds the session: its hash, and not revoked.
  unfoldable pub answers : String → AuthSession → Bool
  answers token s =
      str_eq s.token_hash (hash_token token) && elim s.revoked_at [ none ↦ true | some x ↦ false ]

  unexpired : ℕ → Option AuthSession → Option AuthSession
  unexpired now none = none
  unexpired now (some s) = if leb s.expires_at now then none else some s

  unfoldable pub get_auth_session : ℕ → String → Tables → Option AuthSession
  unfolding unexpired answers
  get_auth_session now token t = unexpired now (find_if (answers token) t.sessions)

  context_of_user : Option UserAccount → Tables → Checked AuthContext
  unfolding get_primary_auth_context
  context_of_user none t = rejected "Invalid or expired bearer token."
  context_of_user (some u) t =
      if not u.is_active
      then rejected "Invalid or expired bearer token."
      else get_primary_auth_context t u

  context_of_session : Option AuthSession → Tables → Checked AuthContext
  unfolding context_of_user
  context_of_session none t = rejected "Invalid or expired bearer token."
  context_of_session (some s) t =
      context_of_user (find_if (λ (u : UserAccount). str_eq u.id s.user_id) t.users) t

  unfoldable pub get_context_from_token : ℕ → String → Tables → Checked AuthContext
  unfolding get_auth_session context_of_session
  get_context_from_token now token t = context_of_session (get_auth_session now token t) t
