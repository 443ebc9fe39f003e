-- ===== src/Auth/Sessions.antt =====
-- What a token that a login gave is good for.
use vendorops_ai.Base.{
  ℕ, ◌+◌, String, ◌≡◌, ◌≢◌, refl, ap, ◌∙◌, inl, inr, ◌⊎◌, Bool, true, false, not, ◌||◌, Option,
  none, some, List, [], ◌∷◌, ◌++◌, leb, ltb, arith, str_eq, eq_iff, eq_refl, All, find_if,
  Bool-cases, if◌then◌else◌,
}
use vendorops_ai.Db.{UserAccount, AuthSession, Database}
use vendorops_ai.Auth.{
  Tables, AuthContext, LoginResult, Checked, accepted, rejected, get_primary_auth_context, Draw,
  new_session, log_in, answers, unexpired, get_auth_session, context_of_user, context_of_session,
  get_context_from_token, get_user_by_email, with_user, with_context, authenticate_user,
}

find-last :
    (hash : String → String) (token : String) (s : AuthSession) (xs : List AuthSession)
    → All (λ (x : AuthSession). x.token_hash ≢ hash token) xs
    → answers hash token s ≡ true
    → find_if (answers hash token) (xs ++ s ∷ []) ≡ some s
unfolding answers
find-last hash token s [] h a = rw a refl
find-last hash token s (x ∷ xs) h a = elim (Bool-cases (str_eq x.token_hash (hash token))) [
  | inl e ↦ absurd (h.0 ((eq_iff x.token_hash (hash token)).0 e))
  | inr e ↦ rw e (find-last hash token s xs h.1 a)
]

answered :
    (hash : String → String) (d : Draw) (u : UserAccount)
    → answers hash d.token (new_session hash d u) ≡ true
unfolding answers new_session
answered hash d u = rw (eq_refl (hash d.token)) refl

active_context :
    (hash : String → String) (u : UserAccount) (c : AuthContext) (t : Tables)
    → u.is_active ≡ true
    → get_primary_auth_context t u ≡ accepted c
    → context_of_user hash (some u) t ≡ accepted c
unfolding context_of_user
active_context hash u c t active primary =
    ap
      (λ (b : Bool).
        if not b then rejected "Invalid or expired bearer token." else get_primary_auth_context t u)
      active
    ∙ primary

same_primary :
    (hash : String → String) (d : Draw) (u : UserAccount) (c : AuthContext) (t : Tables)
    → get_primary_auth_context (log_in hash d u c t).1 u ≡ get_primary_auth_context t u
unfolding get_primary_auth_context log_in
same_primary hash d u c t = refl

-- The context of a token does not read the pipeline's tables.
pub get_context-ignores_db :
    (hash : String → String) (now : ℕ) (token : String) (t : Tables) (db : Database)
    → get_context_from_token hash now token (record t { db = db })
      ≡ get_context_from_token hash now token t
unfolding get_context_from_token get_auth_session context_of_session context_of_user
    get_primary_auth_context
get_context-ignores_db hash now token t db =
    by_session (unexpired hash now (find_if (answers hash token) t.sessions))
  where
    by_user :
        (u : Option UserAccount)
        → context_of_user hash u (record t { db = db }) ≡ context_of_user hash u t
    by_user none = refl
    by_user (some u) = refl

    by_session :
        (s : Option AuthSession)
        → context_of_session hash s (record t { db = db }) ≡ context_of_session hash s t
    by_session none = refl
    by_session (some s) = by_user (find_if (λ (u : UserAccount). str_eq u.id s.user_id) t.users)

login_expires :
    (hash : String → String) (d : Draw) (u : UserAccount) (c : AuthContext) (t : Tables) (later : ℕ)
    → All (λ (x : AuthSession). x.token_hash ≢ hash d.token) t.sessions
    → find_if (λ (v : UserAccount). str_eq v.id u.id) t.users ≡ some u
    → u.is_active ≡ true
    → get_primary_auth_context t u ≡ accepted c
    → get_context_from_token hash later d.token (log_in hash d u c t).1 ≡ (
        if ltb later (d.now + d.ttl)
        then accepted c
        else rejected "Invalid or expired bearer token.")
unfolding get_context_from_token get_auth_session unexpired context_of_session context_of_user
    log_in new_session
login_expires hash d u c t later fresh found active primary =
    elim (Bool-cases (leb (d.now + d.ttl) later)) [
      | inl e ↦ rw (last, e, late e) refl
      | inr e ↦
          rw (last, e, early e, found)
            (active_context hash u c (log_in hash d u c t).1 active
              (same_primary hash d u c t ∙ primary))
    ]
  where
    late : leb (d.now + d.ttl) later ≡ true → ltb later (d.now + d.ttl) ≡ false
    late e = ground arith

    early : leb (d.now + d.ttl) later ≡ false → ltb later (d.now + d.ttl) ≡ true
    early e = ground arith

    last :
        find_if (answers hash d.token) (t.sessions ++ new_session hash d u ∷ [])
        ≡ some (new_session hash d u)
    last = find-last hash d.token (new_session hash d u) t.sessions fresh (answered hash d u)

module _ (hash normalize : String → String) (verify : String → String → Bool) where
  -- What stands behind a login that adds a session: the user of the email is active, the password is
  -- theirs, and they have a workspace.
  pub record IsLoggedIn (d : Draw) (email password : String) (t : Tables)
      (x : Checked LoginResult × Tables) : Type 0 where
    pub user : UserAccount
    pub context : AuthContext
    pub known : get_user_by_email normalize t email ≡ some user
    pub active : user.is_active ≡ true
    pub password_is_theirs : verify password user.password_hash ≡ true
    pub assigned_to : get_primary_auth_context t user ≡ accepted context
    pub logged_in : x ≡ log_in hash d user context t

  -- A login either changes no table, or the user of the email is active, the password is verified,
  -- the user has a workspace, and a session and an audit log are added.
  pub authenticate_user_checks :
      (d : Draw) (email password : String) (t : Tables)
      → ((authenticate_user hash normalize verify d email password t).1 ≡ t)
        ⊎ IsLoggedIn d email password t (authenticate_user hash normalize verify d email password t)
  unfolding authenticate_user with_user with_context
  authenticate_user_checks d email password t = by_user (get_user_by_email normalize t email) refl
    where
      by_user :
          (o : Option UserAccount)
          → get_user_by_email normalize t email ≡ o
          → ((with_user hash verify d password o t).1 ≡ t)
            ⊎ IsLoggedIn d email password t (with_user hash verify d password o t)
      by_user none e = inl refl
      by_user (some u) e =
          by_checks u e u.is_active (verify password u.password_hash) refl refl
            (get_primary_auth_context t u) refl
        where
          by_checks :
              (u : UserAccount)
              → get_user_by_email normalize t email ≡ some u
              → (a v : Bool) → u.is_active ≡ a
              → verify password u.password_hash ≡ v
              → (p : Checked AuthContext) → get_primary_auth_context t u ≡ p
              → ((if not a || not v
                    then (rejected "Invalid email or password.", t)
                    else with_context hash d u p t).1
                  ≡ t)
                ⊎ IsLoggedIn d email password t (
                    if not a || not v
                    then (rejected "Invalid email or password.", t)
                    else with_context hash d u p t)
          by_checks u e false v x y p z = inl refl
          by_checks u e true false x y p z = inl refl
          by_checks u e true true x y (rejected m) z = inl refl
          by_checks u e true true x y (accepted c) z = inr (record {
            user = u;
            context = c;
            known = e;
            active = x;
            password_is_theirs = y;
            assigned_to = z;
            logged_in = refl;
          })

  authenticated :
      (d : Draw) (email password : String) (u : UserAccount) (c : AuthContext) (t : Tables)
      → get_user_by_email normalize t email ≡ some u
      → u.is_active ≡ true
      → verify password u.password_hash ≡ true
      → get_primary_auth_context t u ≡ accepted c
      → authenticate_user hash normalize verify d email password t ≡ log_in hash d u c t
  unfolding authenticate_user with_user with_context
  authenticated d email password u c t known active theirs primary =
      ap (λ o. with_user hash verify d password o t) known
      ∙ ap
          (λ (b : Bool).
            if not b || not (verify password u.password_hash)
            then (rejected "Invalid email or password.", t)
            else with_context hash d u (get_primary_auth_context t u) t)
          active
      ∙ ap
          (λ (b : Bool).
            if not b
            then (rejected "Invalid email or password.", t)
            else with_context hash d u (get_primary_auth_context t u) t)
          theirs
      ∙ ap (λ p. with_context hash d u p t) primary

  -- When the user of an email is active, is the row of its own id and has a workspace, a login with
  -- their password, under a token whose hash no session has, makes that token good: it gives the
  -- user's context at every instant before the session expires, and is refused from then on.
  pub token_expires :
      (d : Draw) (email password : String) (u : UserAccount) (c : AuthContext) (t : Tables)
      (later : ℕ)
      → All (λ (x : AuthSession). x.token_hash ≢ hash d.token) t.sessions
      → find_if (λ (v : UserAccount). str_eq v.id u.id) t.users ≡ some u
      → get_user_by_email normalize t email ≡ some u
      → u.is_active ≡ true
      → verify password u.password_hash ≡ true
      → get_primary_auth_context t u ≡ accepted c
      → get_context_from_token hash later d.token
          (authenticate_user hash normalize verify d email password t).1
        ≡ (if ltb later (d.now + d.ttl)
            then accepted c
            else rejected "Invalid or expired bearer token.")
  token_expires d email password u c t later fresh found known active theirs primary =
      ap (λ x. get_context_from_token hash later d.token x.1)
        (authenticated d email password u c t known active theirs primary)
      ∙ login_expires hash d u c t later fresh found active primary
