-- ===== src/Agent/Authorization.antt =====
-- app/agent/authorization.py: the deny-by-default policy gate. The digest is sha256 of the canonical
-- JSON text, which the standard library computes; it is an argument of what uses it.
pub mod Gate
use vendorops_ai.Base.{
  ℕ, String, Bool, true, false, not, ◌&&◌, ◌||◌, Option, none, some, List, [], ◌∷◌, str_eq, elem,
  leb, ltb, if◌then◌else◌,
}
use vendorops_ai.Db.{Details}
use vendorops_ai.Agent.Tools.{
  SideEffectClass, read, write, RiskClass, low, ToolDefinition, identity, risk_rank, is_resource,
  is_missing,
}
use vendorops_ai.Agent.Registry.{subset}

pub record AuthorizationRequest : Type 0 where
  pub organization_id : String
  pub workspace_id : String
  pub actor_id : String
  pub action : String
  pub tool : ToolDefinition
  pub input_payload : Details
  pub capabilities : List String
  pub resource_id : Option String

-- The dictionary that is digested.
pub record Canonical : Type 0 where
  pub organization_id : String
  pub workspace_id : String
  pub actor_id : String
  pub action : String
  pub tool : String
  pub input_payload : Details
  pub resource_id : Option String

unfoldable pub canonical : AuthorizationRequest → Canonical
canonical r = record {
  organization_id = r.organization_id;
  workspace_id = r.workspace_id;
  actor_id = r.actor_id;
  action = r.action;
  tool = identity r.tool;
  input_payload = r.input_payload;
  resource_id = r.resource_id;
}

abbrev pub Digest : Type 0
Digest = Canonical → String

abbrev pub action_fingerprint : Digest → AuthorizationRequest → String
action_fingerprint digest r = digest (canonical r)

pub record ApprovalGrant : Type 0 where
  pub approval_id : String
  pub organization_id : String
  pub workspace_id : String
  pub approved_by : String
  pub action_fingerprint : String
  pub approved_at : ℕ
  pub expires_at : Option ℕ

unfoldable pub is_valid_for : Digest → ApprovalGrant → AuthorizationRequest → ℕ → Bool
is_valid_for digest a r now =
    if not (str_eq a.organization_id r.organization_id)
    then false
    else if not (str_eq a.workspace_id r.workspace_id)
    then false
    else if not (str_eq a.action_fingerprint (action_fingerprint digest r))
    then false
    else if elim a.expires_at [ none ↦ false | some t ↦ leb t now ]
    then false
    else true

pub record Policy : Type 0 where
  pub allowed_capabilities : List String
  pub max_risk : RiskClass
  pub writable_actions : List String
  pub require_approval_for_writes : Bool
  pub allowed_resource_ids : Option (List String)

abbrev pub default_policy : Policy
default_policy = record {
  allowed_capabilities = [];
  max_risk = low;
  writable_actions = [];
  require_approval_for_writes = true;
  allowed_resource_ids = none;
}

pub record AuthorizationDecision : Type 0 where
  pub allowed : Bool
  pub reason : String
  pub action_fingerprint : String
  pub approval_id : Option String

deny : Digest → AuthorizationRequest → String → AuthorizationDecision
deny digest r reason = record {
  allowed = false;
  reason = reason;
  action_fingerprint = action_fingerprint digest r;
  approval_id = none;
}

abbrev pub is_write : SideEffectClass → Bool
is_write read = false
is_write write = true

outside : Option (List String) → Option String → Bool
outside none r = false
outside (some ids) none = true
outside (some ids) (some r) = not (elem r ids)

-- `approval is None or not approval.is_valid_for(request, current_time)`
unapproved : Digest → Option ApprovalGrant → AuthorizationRequest → ℕ → Bool
unfolding is_valid_for
unapproved digest none r now = true
unapproved digest (some a) r now = not (is_valid_for digest a r now)

abbrev approval_id_of : Option ApprovalGrant → Option String
approval_id_of none = none
approval_id_of (some a) = some a.approval_id

-- The checks from the side effect on; `none` lets the request pass.
write_refusal : Digest → Policy → AuthorizationRequest → Option ApprovalGrant → ℕ → Option String
unfolding unapproved
write_refusal digest p r approval now =
    if is_write r.tool.side_effect
    then (if not (elem r.action p.writable_actions)
        then some "write action is not explicitly allowed; approval is required for writes"
        else if p.require_approval_for_writes && unapproved digest approval r now
        then some "valid approval for the exact action is required"
        else none)
    else none

scope_refusal : Policy → AuthorizationRequest → Option String
unfolding outside
scope_refusal p r =
    if is_resource r.tool.scope_level
    then (if is_missing r.resource_id
        then some "resource-scoped action requires resource_id"
        else if outside p.allowed_resource_ids r.resource_id
        then some "resource is outside the allowed policy scope"
        else none)
    else none

identity_refusal : Policy → AuthorizationRequest → Option String
identity_refusal p r =
    if not (str_eq r.action r.tool.name)
    then some "authorization action must match the registered tool name"
    else if not (subset r.tool.required_capabilities p.allowed_capabilities)
    then some "required capability is not allowed by policy"
    else if not (subset r.tool.required_capabilities r.capabilities)
    then some "actor is missing a required capability"
    else if ltb (risk_rank p.max_risk) (risk_rank r.tool.risk)
    then some "tool risk exceeds policy maximum"
    else none

-- The first refusal, in the order of the code.
unfoldable pub refusal :
    Digest → Policy → AuthorizationRequest → Option ApprovalGrant → ℕ → Option String
unfolding identity_refusal scope_refusal write_refusal
refusal digest p r approval now = elim (identity_refusal p r) [
  | some reason ↦ some reason
  | none ↦ elim (scope_refusal p r) [
    | some reason ↦ some reason
    | none ↦ write_refusal digest p r approval now
  ]
]

unfoldable pub authorize :
    Digest → Policy → AuthorizationRequest → Option ApprovalGrant → ℕ → AuthorizationDecision
unfolding refusal deny
authorize digest p r approval now = elim (refusal digest p r approval now) [
  | some reason ↦ deny digest r reason
  | none ↦ record {
    allowed = true;
    reason = "authorized";
    action_fingerprint = action_fingerprint digest r;
    approval_id = approval_id_of approval;
  }
]

pub data Enforced : Type 0 where
  permitted : AuthorizationDecision → Enforced
  authorization_denied : String → Enforced

unfoldable pub enforce :
    Digest → Policy → AuthorizationRequest → Option ApprovalGrant → ℕ → Enforced
unfolding authorize
enforce digest p r approval now =
    let d = authorize digest p r approval now in
    if d.allowed then permitted d else authorization_denied d.reason
