-- ===== src/Agent/Execution.antt =====
-- app/agent/execution.py: the execution engine. The adapter is an external connector: two functions
-- that act on a world of their own and may raise, whose exceptions are their texts.
pub mod Loop
pub mod Receipts
use vendorops_ai.Base.{
  ℕ, zero, suc, ◌+◌, String, Bool, true, false, not, Option, none, some, List, [], ◌∷◌, str_eq,
  is_blank, str_of_number, ltb, if◌then◌else◌, ◌==◌,
}
use vendorops_ai.Db.{Details, Value, null, text, number, flag}
use vendorops_ai.Agent.Tools.{
  ToolDefinition, Validated, valid, invalid, identity, validate_input, validate_output,
}
use vendorops_ai.Agent.Authorization.{
  AuthorizationRequest, ApprovalGrant, Policy, Digest, action_fingerprint, AuthorizationDecision,
  authorize,
}

pub data ExecutionStatus : Type 0 where
  requested executing verifying succeeded failed rejected : ExecutionStatus

-- {"result": ..., "verification": ...} of a success, or the bare output of a failure.
pub data ReceiptOutput : Type 0 where
  no_output : ReceiptOutput
  bare : Details → ReceiptOutput
  verified_result : Details → Details → ReceiptOutput

pub record ExecutionReceipt : Type 0 where
  pub execution_id : String
  pub organization_id : String
  pub workspace_id : String
  pub actor_id : String
  pub tool_identity : String
  pub action_fingerprint : String
  pub idempotency_key : String
  pub status : ExecutionStatus
  pub attempts : ℕ
  pub output : ReceiptOutput
  pub error : Option String
  pub created_at : ℕ
  pub completed_at : Option ℕ

pub record ExecutionResult : Type 0 where
  pub output : Details
  pub verification : Details

pub record ExecutionRecord : Type 0 where
  pub receipt : ExecutionReceipt
  pub result : Option ExecutionResult

pub data Attempted : Type 0 where
  returned : Details → Attempted
  raised : String → Attempted

-- ExecutionAdapter over the connector's world.
pub record ExecutionAdapter (W : Type 0) : Type 0 where
  pub execute : ToolDefinition → Details → String → W → Attempted × W
  pub verify : ToolDefinition → Details → Details → W → Attempted × W

-- The two dictionaries of the engine.
pub record ExecutionEngine : Type 0 where
  pub executions : List (String × ExecutionRecord)
  pub receipts_by_idempotency : List (String × ExecutionReceipt)

abbrev pub new_engine : ExecutionEngine
new_engine = record { executions = []; receipts_by_idempotency = [] }

-- d.get(k)
unfoldable pub dict_get : {V : Type 0} → String → List (String × V) → Option V
dict_get k [] = none
dict_get k ((j, v) ∷ d) = if str_eq j k then some v else dict_get k d

-- d[k] = v
unfoldable pub dict_put : {V : Type 0} → String → V → List (String × V) → List (String × V)
dict_put k v [] = (k, v) ∷ []
dict_put k v ((j, w) ∷ d) = if str_eq j k then (j, v) ∷ d else (j, w) ∷ dict_put k v d

unfoldable pub get_receipt : ExecutionEngine → String → Option ExecutionReceipt
unfolding dict_get
get_receipt e key = dict_get key e.receipts_by_idempotency

-- _store
unfoldable pub store : ExecutionReceipt → Option ExecutionResult → ExecutionEngine → ExecutionEngine
unfolding dict_put
store r result e = record {
  executions = dict_put r.execution_id (record { receipt = r; result = result }) e.executions;
  receipts_by_idempotency = dict_put r.idempotency_key r e.receipts_by_idempotency;
}

-- Whether a value counts as true.
truthy : Value → Bool
truthy null = false
truthy (text s) = not (str_eq s "")
truthy (number n) = not (n == 0)
truthy (flag b) = b

-- verification.get("verified", False)
unfoldable pub is_verified : Details → Bool
unfolding truthy dict_get
is_verified v = elim (dict_get "verified" v) [ none ↦ false | some x ↦ truthy x ]

-- The text of the value as an exception's message.
reason_text : Value → String
unfolding str_of_number
reason_text null = "None"
reason_text (text s) = s
reason_text (number n) = str_of_number n
reason_text (flag true) = "True"
reason_text (flag false) = "False"

verification_error : Details → String
unfolding reason_text dict_get
verification_error v = elim (dict_get "reason" v) [
  | none ↦ "external action could not be verified"
  | some x ↦ reason_text x
]

-- What one round of the `try` ends with: success, or the text of the exception. `output` is the
-- variable of that name, which a round that raises before its assignment leaves as it was.
pub data Round : Type 0 where
  passed : Details → Details → Round
  raised_with : Option Details → String → Round

-- What the loop over the attempts ends with.
pub data Ended : Type 0 where
  success : ℕ → Details → Details → Ended
  exhausted : ℕ → Option Details → Option String → Ended

module _ {W : Type 0} (adapter : ExecutionAdapter W) (tool : ToolDefinition)
    (payload : Details) where
  check_verification : Details → Attempted × W → Round × W
  unfolding is_verified verification_error
  check_verification output (raised e, w) = (raised_with (some output) e, w)
  check_verification output (returned v, w) =
      if is_verified v
      then (passed output v, w)
      else (raised_with (some output) (verification_error v), w)

  check_output : Details → Validated → W → Round × W
  unfolding check_verification
  check_output output (invalid e) w = (raised_with (some output) e, w)
  check_output output (valid dumped) w =
      check_verification output (adapter.verify tool payload output w)

  after_execute : Option Details → Attempted × W → Round × W
  unfolding check_output validate_output
  after_execute previous (raised e, w) = (raised_with previous e, w)
  after_execute previous (returned output, w) = check_output output (validate_output tool output) w

  unfoldable pub round : String → Option Details → W → Round × W
  unfolding after_execute
  round key previous w = after_execute previous (adapter.execute tool payload key w)

  -- The rounds that are left, the rounds made, `output`, `last_error`, and the world.
  unfoldable pub attempts_loop : String → ℕ → ℕ → Option Details → Option String → W → Ended × W
  attempts_loop key zero k output last_error w = (exhausted k output last_error, w)
  attempts_loop key (suc n) k output last_error w =
      let (r, w') = round key output w in
      elim r [
        | passed o v ↦ (success (suc k) o v, w')
        | raised_with o e ↦ attempts_loop key n (suc k) o (some e) w'
      ]

bare_output : Option Details → ReceiptOutput
bare_output none = no_output
bare_output (some o) = bare o

-- The keyword arguments of `execute`, with the ids and instants that it draws.
pub record Call : Type 0 where
  pub request : AuthorizationRequest
  pub approval : Option ApprovalGrant
  pub idempotency_key : String
  pub max_attempts : ℕ
  pub now : ℕ
  pub completed_now : ℕ
  pub execution_id : String

-- _receipt
receipt :
    Digest
    → Call
    → ExecutionStatus
    → ℕ
    → Option String
    → ReceiptOutput
    → Option ℕ
    → ExecutionReceipt
receipt digest c status attempts error output completed_at = record {
  execution_id = c.execution_id;
  organization_id = c.request.organization_id;
  workspace_id = c.request.workspace_id;
  actor_id = c.request.actor_id;
  tool_identity = identity c.request.tool;
  action_fingerprint = action_fingerprint digest c.request;
  idempotency_key = c.idempotency_key;
  status = status;
  attempts = attempts;
  output = output;
  error = error;
  created_at = c.now;
  completed_at = completed_at;
}

pub data Executed : Type 0 where
  receipt_of : ExecutionReceipt → Executed
  empty_idempotency_key non_positive_max_attempts : Executed

stored : ExecutionReceipt → Option ExecutionResult → ExecutionEngine → Executed × ExecutionEngine
unfolding store
stored r result e = (receipt_of r, store r result e)

-- From the end of the loop on.
conclude : Digest → Call → Ended → ExecutionEngine → Executed × ExecutionEngine
unfolding receipt stored bare_output
conclude digest c (success k output verification) e =
    stored
      (receipt digest c succeeded k none (verified_result output verification)
        (some c.completed_now))
      (some (record { output = output; verification = verification })) e
conclude digest c (exhausted k output last_error) e =
    stored (receipt digest c failed k last_error (bare_output output) (some c.completed_now)) none e

module _ {W : Type 0} (digest : Digest) (policy : Policy) (adapter : ExecutionAdapter W)
    (c : Call) where
  validated_run : Validated → ExecutionEngine → W → Executed × ExecutionEngine × W
  unfolding conclude
  validated_run (invalid message) e w =
      let (x, e') = stored (receipt digest c failed 0 (some message) no_output none) none e in
      (x, e', w)
  validated_run (valid payload) e w =
      let (ended, w') =
        attempts_loop adapter c.request.tool payload c.idempotency_key c.max_attempts 0 none none
          w in
      let (x, e') = conclude digest c ended e in (x, e', w')

  decided_run : AuthorizationDecision → ExecutionEngine → W → Executed × ExecutionEngine × W
  unfolding validated_run validate_input
  decided_run d e w =
      let (x, e') = stored (receipt digest c rejected 0 (some d.reason) no_output none) none e in
      if not d.allowed
      then (x, e', w)
      else validated_run (validate_input c.request.tool c.request.input_payload) e w

  keyed_run : Option ExecutionReceipt → ExecutionEngine → W → Executed × ExecutionEngine × W
  unfolding decided_run
  keyed_run (some r) e w = (receipt_of r, e, w)
  keyed_run none e w = decided_run (authorize digest policy c.request c.approval c.now) e w

  unfoldable pub execute : ExecutionEngine → W → Executed × ExecutionEngine × W
  unfolding keyed_run
  execute e w =
      if is_blank c.idempotency_key
      then (empty_idempotency_key, e, w)
      else if ltb c.max_attempts 1
      then (non_positive_max_attempts, e, w)
      else keyed_run (get_receipt e c.idempotency_key) e w
