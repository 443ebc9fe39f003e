-- ===== src/Agent/Examples.antt =====
-- The default tools, a policy for them and a connector, and the theorems at them.
use vendorops_ai.Base.{
  ℕ, suc, unequal, ◌⊎◌, ◌≡◌, ◌≢◌, ◌↔◌, refl, String, Bool, true, false, Option, none, some, [], ◌∷◌,
  arith, Has, eq_iff, is_blank, leb,
}
use vendorops_ai.Db.{Details, text, flag}
use vendorops_ai.Agent.Tools.{
  write, low, high, critical, resource, valid, ToolDefinition, validate_input,
}
use vendorops_ai.Agent.Tools.{identity}
use vendorops_ai.Agent.Registry.{
  ToolRegistry, empty_registry, register, discover, get, get_identity,
}
use vendorops_ai.Agent.Registry.Discovery.{register-get, discover_iff, IsVisible, IsSorted}
use vendorops_ai.Agent.Authorization.{
  AuthorizationRequest, ApprovalGrant, Policy, Digest, canonical, authorize,
}
use vendorops_ai.Agent.Authorization.Gate.{IsPermitted, authorize_iff, approval_not_replayed}
use vendorops_ai.Agent.Execution.{
  ExecutionAdapter, returned, new_engine, Call, receipt_of, ExecutionReceipt, execute, get_receipt,
  succeeded, verified_result, rejected, round, attempts_loop, no_output,
}
use vendorops_ai.Agent.Execution.Receipts.{
  execute-get_receipt, execute_denied, execute_replays, execute_attempts, EndMeant,
}

-- `VendorUpdate` of the catalog, with its schemas as any payload.
abbrev vendor_update : ToolDefinition
vendor_update = record {
  name = "vendor.update";
  version = "1.0";
  description = "Update vendor status through an approved vendor system adapter";
  input_schema = valid;
  output_schema = valid;
  side_effect = write;
  risk = high;
  required_capabilities = "vendor.write" ∷ [];
  scope_level = resource;
  resource_type = some "vendor";
}

abbrev payload : Details
payload = ("vendor_id", text "v1") ∷ ("status", text "active") ∷ []

abbrev request : String → AuthorizationRequest
request id = record {
  organization_id = "o1";
  workspace_id = "w1";
  actor_id = "agent";
  action = "vendor.update";
  tool = vendor_update;
  input_payload = payload;
  capabilities = "vendor.write" ∷ [];
  resource_id = some id;
}

-- A digest that tells resources apart.
abbrev digest : Digest
digest c = elim c.resource_id [ none ↦ "" | some id ↦ id ]

abbrev policy : Policy
policy = record {
  allowed_capabilities = "vendor.write" ∷ [];
  max_risk = critical;
  writable_actions = "vendor.update" ∷ [];
  require_approval_for_writes = true;
  allowed_resource_ids = none;
}

abbrev grant : ApprovalGrant
grant = record {
  approval_id = "a1";
  organization_id = "o1";
  workspace_id = "w1";
  approved_by = "boss";
  action_fingerprint = "v1";
  approved_at = 10;
  expires_at = some 100;
}

grant_allows : (authorize digest policy (request "v1") (some grant) 20).allowed ≡ true
unfolding authorize canonical
grant_allows = refl

approval_not_replayed_example :
    (authorize digest policy (request "v2") (some grant) 21).allowed ≡ false
unfolding canonical
approval_not_replayed_example =
    approval_not_replayed digest policy policy (request "v1") (request "v2") grant 20 21 refl refl
      grant_allows refl refl (λ e. cc ((eq_iff "v1" "v2").1 e))

authorize_iff_example :
    ((authorize digest policy (request "v1") (some grant) 20).allowed ≡ true)
    ↔ IsPermitted digest policy (request "v1") (some grant) 20
authorize_iff_example = authorize_iff digest policy (request "v1") (some grant) 20

abbrev second : ℕ → Bool
second n = leb 2 n

-- A connector that counts its calls and is verified at the second.
abbrev connector : ExecutionAdapter ℕ
connector = record {
  execute = λ tool p key n. (returned payload, suc n);
  verify = λ tool p output n. (returned (("verified", flag (second n)) ∷ []), n);
}

abbrev call : String → Option ApprovalGrant → Call
call id a = record {
  request = request id;
  approval = a;
  idempotency_key = "k1";
  max_attempts = 3;
  now = 20;
  completed_now = 21;
  execution_id = "x1";
}

key_not_blank : is_blank "k1" ≡ false
unfolding is_blank
key_not_blank = refl

no_receipt : get_receipt new_engine "k1" ≡ none
unfolding get_receipt
no_receipt = refl

execute_attempts_example :
    EndMeant connector
      (call "v1" (some grant))
      payload
      0
      (execute digest policy connector (call "v1" (some grant)) new_engine 0)
unfolding validate_input
execute_attempts_example =
    execute_attempts digest policy connector (call "v1" (some grant)) new_engine 0 payload
      key_not_blank (omega arith) no_receipt grant_allows refl

-- The receipt of that call: the connector was called twice.
abbrev ran : ExecutionReceipt
ran = record {
  execution_id = "x1";
  organization_id = "o1";
  workspace_id = "w1";
  actor_id = "agent";
  tool_identity = "vendor.update@1.0";
  action_fingerprint = "v1";
  idempotency_key = "k1";
  status = succeeded;
  attempts = 2;
  output = verified_result payload (("verified", flag true) ∷ []);
  error = none;
  created_at = 20;
  completed_at = some 21;
}

call_runs :
    ((execute digest policy connector (call "v1" (some grant)) new_engine 0).0 ≡ receipt_of ran)
    × ((execute digest policy connector (call "v1" (some grant)) new_engine 0).2 ≡ 2)
unfolding execute authorize canonical validate_input attempts_loop is_blank get_receipt round
call_runs = (refl, refl)

execute-get_receipt_example :
    get_receipt (execute digest policy connector (call "v1" (some grant)) new_engine 0).1 "k1"
    ≡ some ran
execute-get_receipt_example =
    execute-get_receipt digest policy connector (call "v1" (some grant)) new_engine 0 ran
      call_runs.0

-- Another organization that sends the same key gets the receipt of the first one.
abbrev stranger : Call
stranger = record (call "v9" none) {
  request = record (request "v9") {
    organization_id = "o2";
    workspace_id = "w2";
    capabilities = [];
  };
}

execute_replays_example :
    execute digest policy connector stranger
      (execute digest policy connector (call "v1" (some grant)) new_engine 0).1
      2
    ≡ (receipt_of ran, (execute digest policy connector (call "v1" (some grant)) new_engine 0).1, 2)
execute_replays_example =
    execute_replays digest policy policy connector connector (call "v1" (some grant)) stranger
      new_engine 0 2 ran call_runs.0 refl (omega arith)

denied : (authorize digest policy (request "v1") none 20).allowed ≡ false
unfolding authorize canonical
denied = refl

execute_denied_example :
    (q : ExecutionReceipt) × ((execute digest policy connector (call "v1" none) new_engine 0).0
      ≡ receipt_of q)
    × (get_receipt (execute digest policy connector (call "v1" none) new_engine 0).1 "k1" ≡ some q)
    × (get_receipt (execute digest policy connector (call "v1" none) new_engine 0).1 "k2"
        ≡ get_receipt new_engine "k2")
    × ((execute digest policy connector (call "v1" none) new_engine 0).2 ≡ 0)
    × (q.idempotency_key ≡ "k1")
    × (q.status ≡ rejected)
    × (q.attempts ≡ 0)
    × (q.error ≡ some (authorize digest policy (request "v1") none 20).reason)
    × (q.output ≡ no_output)
execute_denied_example =
    execute_denied digest policy connector (call "v1" none) new_engine 0 "k2" key_not_blank
      (omega arith) no_receipt denied (unequal "k2" "k1" refl)

abbrev registry : ToolRegistry
registry = record { tools = vendor_update ∷ [] }

other_identity : "other@1" ≢ identity vendor_update
other_identity = unequal "other@1" "vendor.update@1.0" refl

register-get_example :
    ((get empty_registry "vendor.update" "1.0" ≡ none)
      × (r' : ToolRegistry) × (register empty_registry vendor_update ≡ some r')
      × (get r' "vendor.update" "1.0" ≡ some vendor_update)
      × (get_identity r' "other@1" ≡ get_identity empty_registry "other@1"))
    ⊎ ((u : ToolDefinition) × (get empty_registry "vendor.update" "1.0" ≡ some u)
        × (register empty_registry vendor_update ≡ none))
register-get_example = register-get empty_registry vendor_update "other@1" other_identity

discover_iff_example :
    (Has vendor_update (discover registry ("vendor.write" ∷ []) none (some low)) ↔ (
      Has vendor_update (vendor_update ∷ [])
      × IsVisible ("vendor.write" ∷ []) none (some low) vendor_update))
    × IsSorted (discover registry ("vendor.write" ∷ []) none (some low))
discover_iff_example = discover_iff registry ("vendor.write" ∷ []) none (some low) vendor_update
