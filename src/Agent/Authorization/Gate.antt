-- ===== src/Agent/Authorization/Gate.antt =====
-- When the policy gate lets an action pass.
use vendorops_ai.Base.{
  ℕ, ◌≤◌, ◌<◌, String, ◌≡◌, ◌≢◌, ◌↔◌, true, false, Option, none, some, List, arith, eq_iff, elem,
  All, Bool-cases, Option-cases, inl, inr, sym, ap, ◌∙◌,
}
use vendorops_ai.Agent.Tools.{write, resource, risk_rank, is_resource}
use vendorops_ai.Agent.Registry.{subset}
use vendorops_ai.Agent.Registry.Discovery.{subset_iff}
use vendorops_ai.Agent.Authorization.{
  AuthorizationRequest, ApprovalGrant, Policy, Digest, canonical, is_valid_for, refusal, authorize,
  identity_refusal, scope_refusal, write_refusal, unapproved, outside, is_write,
}

-- The grant is for this tenant and this very action, and is not over.
pub record IsApproved (digest : Digest) (a : ApprovalGrant) (r : AuthorizationRequest) (now : ℕ)
    : Type 0 where
  pub organization : a.organization_id ≡ r.organization_id
  pub workspace : a.workspace_id ≡ r.workspace_id
  pub action : a.action_fingerprint ≡ digest (canonical r)
  pub unexpired : (t : ℕ) → a.expires_at ≡ some t → now < t

-- What the security contract asks of an action.
pub record IsPermitted (digest : Digest) (p : Policy) (r : AuthorizationRequest)
    (approval : Option ApprovalGrant) (now : ℕ) : Type 0 where
  pub named : r.action ≡ r.tool.name
  pub policy_allows : All (λ c. elem c p.allowed_capabilities ≡ true) r.tool.required_capabilities
  pub actor_holds : All (λ c. elem c r.capabilities ≡ true) r.tool.required_capabilities
  pub risk : risk_rank r.tool.risk ≤ risk_rank p.max_risk
  pub scoped :
      r.tool.scope_level ≡ resource
      → (id : String) × (r.resource_id ≡ some id)
        × (id ≢ "")
        × ((ids : List String) → p.allowed_resource_ids ≡ some ids → elem id ids ≡ true)
  pub writable : r.tool.side_effect ≡ write → elem r.action p.writable_actions ≡ true
  pub approved :
      r.tool.side_effect ≡ write
      → p.require_approval_for_writes ≡ true
      → (a : ApprovalGrant) × (approval ≡ some a) × IsApproved digest a r now

is_valid_for_iff :
    (digest : Digest) (a : ApprovalGrant) (r : AuthorizationRequest) (now : ℕ)
    → (is_valid_for digest a r now ≡ true) ↔ IsApproved digest a r now
unfolding is_valid_for
is_valid_for_iff digest a r now = (to, from)
  where
    to : is_valid_for digest a r now ≡ true → IsApproved digest a r now
    to h = record {
      organization = ground (arith, eq_iff a.organization_id r.organization_id);
      workspace = ground (arith, eq_iff a.workspace_id r.workspace_id);
      action = ground (arith, eq_iff a.action_fingerprint (digest (canonical r)));
      unexpired = λ t e. ground arith;
    }

    from : IsApproved digest a r now → is_valid_for digest a r now ≡ true
    from h = elim (Option-cases a.expires_at) [
      | inl e ↦ ground (
        arith,
        eq_iff a.organization_id r.organization_id,
        eq_iff a.workspace_id r.workspace_id,
        eq_iff a.action_fingerprint (digest (canonical r)),
        h.organization,
        h.workspace,
        h.action,
      )
      | inr (t, e) ↦ ground (
        arith,
        eq_iff a.organization_id r.organization_id,
        eq_iff a.workspace_id r.workspace_id,
        eq_iff a.action_fingerprint (digest (canonical r)),
        h.organization,
        h.workspace,
        h.action,
        h.unexpired t e,
      )
    ]

module _ (digest : Digest) (p : Policy) (r : AuthorizationRequest) (approval : Option ApprovalGrant)
    (now : ℕ) where
  abbrev Permitted : Type 0
  Permitted = IsPermitted digest p r approval now

  identity_passes :
      identity_refusal p r ≡ none
      → (r.action ≡ r.tool.name)
        × (subset r.tool.required_capabilities p.allowed_capabilities ≡ true)
        × (subset r.tool.required_capabilities r.capabilities ≡ true)
        × (risk_rank r.tool.risk ≤ risk_rank p.max_risk)
  unfolding identity_refusal
  identity_passes h = ground (arith, eq_iff r.action r.tool.name)

  identity_refusal-none : Permitted → identity_refusal p r ≡ none
  unfolding identity_refusal
  identity_refusal-none h =
      let allows =
        (subset_iff r.tool.required_capabilities p.allowed_capabilities).1 h.policy_allows in
      let holds = (subset_iff r.tool.required_capabilities r.capabilities).1 h.actor_holds in
      ground (arith, eq_iff r.action r.tool.name, h.named, h.risk, allows, holds)

  scope_passes :
      scope_refusal p r ≡ none
      → r.tool.scope_level ≡ resource
      → (id : String) × (r.resource_id ≡ some id)
        × (id ≢ "")
        × ((ids : List String) → p.allowed_resource_ids ≡ some ids → elem id ids ≡ true)
  unfolding scope_refusal outside
  scope_passes h e = elim (Option-cases r.resource_id) [
    | inl n ↦ absurd (ground arith)
    | inr (id, q) ↦ (id, q, (λ z. ground (arith, eq_iff id "")), (λ ids z. ground arith))
  ]

  scope_refusal-none : Permitted → scope_refusal p r ≡ none
  unfolding scope_refusal outside
  scope_refusal-none h = elim (Bool-cases (is_resource r.tool.scope_level)) [
    | inl e ↦
        let (id, q, filled, allowed) = h.scoped (ground arith) in
        elim (Option-cases p.allowed_resource_ids) [
          | inl n ↦ ground (arith, eq_iff id "", filled)
          | inr (ids, m) ↦ ground (arith, eq_iff id "", filled, allowed ids m)
        ]
    | inr e ↦ rw e
  ]

  write_passes :
      write_refusal digest p r approval now ≡ none
      → r.tool.side_effect ≡ write
      → (elem r.action p.writable_actions ≡ true)
        × (p.require_approval_for_writes ≡ true
            → (a : ApprovalGrant) × (approval ≡ some a) × IsApproved digest a r now)
  unfolding write_refusal unapproved
  write_passes h e = (ground arith, approved)
    where
      approved :
          p.require_approval_for_writes ≡ true
          → (a : ApprovalGrant) × (approval ≡ some a) × IsApproved digest a r now
      approved q = elim (Option-cases approval) [
        | inl n ↦ absurd (ground arith)
        | inr (a, m) ↦ (a, m, (is_valid_for_iff digest a r now).0 (ground arith))
      ]

  write_refusal-none : Permitted → write_refusal digest p r approval now ≡ none
  unfolding write_refusal unapproved
  write_refusal-none h = elim (Bool-cases (is_write r.tool.side_effect)) [
    | inl e ↦ elim (Bool-cases p.require_approval_for_writes) [
      | inl q ↦
          let (a, m, ok) = h.approved (ground arith) q in
          ground (arith, h.writable (ground arith), (is_valid_for_iff digest a r now).1 ok)
      | inr q ↦ ground (arith, h.writable (ground arith))
    ]
    | inr e ↦ rw e
  ]

  refusal-none : Permitted → refusal digest p r approval now ≡ none
  unfolding refusal
  refusal-none h =
      ground (arith, identity_refusal-none h, scope_refusal-none h, write_refusal-none h)

  refusal_parts :
      refusal digest p r approval now ≡ none
      → (identity_refusal p r ≡ none)
        × (scope_refusal p r ≡ none)
        × (write_refusal digest p r approval now ≡ none)
  unfolding refusal
  refusal_parts h = ground arith

  passes : refusal digest p r approval now ≡ none → Permitted
  passes h =
      let (i, s, w) = refusal_parts h in
      let (named, allows, holds, risk) = identity_passes i in
      record {
        named = named;
        policy_allows = (subset_iff r.tool.required_capabilities p.allowed_capabilities).0 allows;
        actor_holds = (subset_iff r.tool.required_capabilities r.capabilities).0 holds;
        risk = risk;
        scoped = scope_passes s;
        writable = λ e. (write_passes w e).0;
        approved = λ e. (write_passes w e).1;
      }

  allowed-refusal :
      (authorize digest p r approval now).allowed ≡ true → refusal digest p r approval now ≡ none
  unfolding authorize
  allowed-refusal h = ground arith

  refusal-allowed :
      refusal digest p r approval now ≡ none → (authorize digest p r approval now).allowed ≡ true
  unfolding authorize
  refusal-allowed h = ground arith

  -- The gate allows a request exactly when the security contract permits it: the action names its
  -- tool, policy and actor have every required capability, the risk is at most the policy's, a
  -- resource-scoped tool names a resource that the policy's list (if any) contains, and a write is
  -- on the list of writable actions and, where the policy asks for approval, comes with an unexpired
  -- grant for its tenant and its fingerprint.
  pub authorize_iff :
      ((authorize digest p r approval now).allowed ≡ true) ↔ IsPermitted digest p r approval now
  authorize_iff = ((λ h. passes (allowed-refusal h)), (λ h. refusal-allowed (refusal-none h)))

-- A grant that lets one write through lets through no other request whose fingerprint differs, under
-- any policy that asks for approvals and at any instant.
pub approval_not_replayed :
    (digest : Digest) (p p' : Policy) (r r' : AuthorizationRequest) (a : ApprovalGrant)
    (now now' : ℕ)
    → r.tool.side_effect ≡ write
    → p.require_approval_for_writes ≡ true
    → (authorize digest p r (some a) now).allowed ≡ true
    → r'.tool.side_effect ≡ write
    → p'.require_approval_for_writes ≡ true
    → digest (canonical r) ≢ digest (canonical r')
    → (authorize digest p' r' (some a) now').allowed ≡ false
approval_not_replayed digest p p' r r' a now now' w q ok w' q' differ =
    elim (Bool-cases (authorize digest p' r' (some a) now').allowed) [
      | inl t ↦
          let (b, e, g) = ((authorize_iff digest p r (some a) now).0 ok).approved w q in
          let (b', e', g') = ((authorize_iff digest p' r' (some a) now').0 t).approved w' q' in
          absurd (
            differ (
              sym g.action
              ∙ ap (λ (x : ApprovalGrant). x.action_fingerprint) (some_inj e e')
              ∙ g'.action))
      | inr f ↦ f
    ]
  where
    some_inj : {b b' : ApprovalGrant} → some a ≡ some b → some a ≡ some b' → b ≡ b'
    some_inj x y = cc
