-- ===== src/Agent/Execution/Receipts.antt =====
-- Idempotency and the boundary of the gate.
use vendorops_ai.Base.{
  ℕ, suc, ◌≤◌, ◌<◌, String, ◌≡◌, ◌≢◌, refl, ap, ◌∙◌, true, false, Option, none, some, List, [], ◌∷◌,
  arith, eq_iff, is_blank, ◌⊎◌, Bool-cases, inl, inr, ltb,
}
use vendorops_ai.Db.{Details}
use vendorops_ai.Agent.Tools.{validate_input, Validated, valid, invalid}
use vendorops_ai.Agent.Authorization.{Digest, Policy, authorize, AuthorizationDecision}
use vendorops_ai.Agent.Execution.Loop.{Verified, world_at, FailsFor, Meant, attempts_loop-Meant}
use vendorops_ai.Agent.Execution.{
  rejected, succeeded, failed, ExecutionReceipt, ExecutionEngine, ExecutionAdapter, Call, Executed,
  receipt_of, no_output, dict_get, dict_put, get_receipt, store, stored, receipt, execute,
  keyed_run, decided_run, validated_run, conclude, attempts_loop, Ended, empty_idempotency_key,
  non_positive_max_attempts, success, exhausted, ExecutionResult,
}

get-put :
    {V : Type 0} (k : String) (v : V) (d : List (String × V)) → dict_get k (dict_put k v d) ≡ some v
unfolding dict_get dict_put
get-put k v [] = ground (arith, eq_iff k k)
get-put k v ((j, w) ∷ d) = ground (arith, eq_iff j k, get-put k v d)

get_receipt-store :
    (r : ExecutionReceipt) (x : Option ExecutionResult) (e : ExecutionEngine)
    → get_receipt (store r x e) r.idempotency_key ≡ some r
unfolding get_receipt store
get_receipt-store r x e = get-put r.idempotency_key r e.receipts_by_idempotency

get-put_ne :
    {V : Type 0} (k key : String) (v : V) (d : List (String × V))
    → key ≢ k
    → dict_get key (dict_put k v d) ≡ dict_get key d
unfolding dict_get dict_put
get-put_ne k key v [] n = ground (arith, eq_iff k key)
get-put_ne k key v ((j, w) ∷ d) n = ground (arith, eq_iff j k, eq_iff j key, get-put_ne k key v d n)

get_receipt-other :
    (r : ExecutionReceipt) (x : Option ExecutionResult) (e : ExecutionEngine) (key : String)
    → key ≢ r.idempotency_key
    → get_receipt (store r x e) key ≡ get_receipt e key
unfolding get_receipt store
get_receipt-other r x e key n = get-put_ne r.idempotency_key key r e.receipts_by_idempotency n

not_below : (n : ℕ) → 1 ≤ n → ltb n 1 ≡ false
not_below n h = ground arith

module _ {W : Type 0} (digest : Digest) (policy : Policy) (adapter : ExecutionAdapter W)
    (c : Call) where
  stored_receipt :
      (r : ExecutionReceipt) (x : Option ExecutionResult) (e : ExecutionEngine)
      → r.idempotency_key ≡ c.idempotency_key
      → (q : ExecutionReceipt) → (stored r x e).0 ≡ receipt_of q
      → get_receipt (stored r x e).1 c.idempotency_key ≡ some q
  unfolding stored
  stored_receipt r x e k q h = cc (get_receipt-store r x e)

  conclude_receipt :
      (ended : Ended) (e : ExecutionEngine) (q : ExecutionReceipt)
      → (conclude digest c ended e).0 ≡ receipt_of q
      → get_receipt (conclude digest c ended e).1 c.idempotency_key ≡ some q
  unfolding conclude receipt
  conclude_receipt (success k o v) e q h = stored_receipt _ _ e refl q h
  conclude_receipt (exhausted k o l) e q h = stored_receipt _ _ e refl q h

  validated_receipt :
      (v : Validated) (e : ExecutionEngine) (w : W) (q : ExecutionReceipt)
      → (validated_run digest policy adapter c v e w).0 ≡ receipt_of q
      → get_receipt (validated_run digest policy adapter c v e w).1 c.idempotency_key ≡ some q
  unfolding validated_run receipt
  validated_receipt (invalid m) e w q h = stored_receipt _ _ e refl q h
  validated_receipt (valid payload) e w q h = conclude_receipt _ e q h

  decided_receipt :
      (d : AuthorizationDecision) (e : ExecutionEngine) (w : W) (q : ExecutionReceipt)
      → (decided_run digest policy adapter c d e w).0 ≡ receipt_of q
      → get_receipt (decided_run digest policy adapter c d e w).1 c.idempotency_key ≡ some q
  unfolding decided_run receipt
  decided_receipt d e w q h = elim (Bool-cases d.allowed) [
    | inl a ↦ rw a (validated_receipt _ e w q (rw a at h))
    | inr a ↦ rw a (stored_receipt _ _ e refl q (rw a at h))
  ]

  keyed_receipt :
      (o : Option ExecutionReceipt) (e : ExecutionEngine) (w : W) (q : ExecutionReceipt)
      → get_receipt e c.idempotency_key ≡ o
      → (keyed_run digest policy adapter c o e w).0 ≡ receipt_of q
      → get_receipt (keyed_run digest policy adapter c o e w).1 c.idempotency_key ≡ some q
  unfolding keyed_run
  keyed_receipt (some r) e w q g h = cc
  keyed_receipt none e w q g h =
      decided_receipt (authorize digest policy c.request c.approval c.now) e w q h

  -- A call that returns a receipt has stored it under its key: get_receipt then returns it.
  pub execute-get_receipt :
      (e : ExecutionEngine) (w : W) (q : ExecutionReceipt)
      → (execute digest policy adapter c e w).0 ≡ receipt_of q
      → get_receipt (execute digest policy adapter c e w).1 c.idempotency_key ≡ some q
  unfolding execute
  execute-get_receipt e w q h = elim (Bool-cases (is_blank c.idempotency_key)) [
    | inl b ↦ absurd (cc (rw b at h))
    | inr b ↦ elim (Bool-cases (ltb c.max_attempts 1)) [
      | inl m ↦ absurd (cc (rw (b, m) at h))
      | inr m ↦
          rw (b, m) (keyed_receipt (get_receipt e c.idempotency_key) e w q refl (rw (b, m) at h))
    ]
  ]

  -- Only a key that is not blank gives a receipt.
  pub execute-key :
      (e : ExecutionEngine) (w : W) (q : ExecutionReceipt)
      → (execute digest policy adapter c e w).0 ≡ receipt_of q
      → is_blank c.idempotency_key ≡ false
  unfolding execute
  execute-key e w q h = elim (Bool-cases (is_blank c.idempotency_key)) [
    | inl b ↦ absurd (cc (rw b at h))
    | inr b ↦ b
  ]

  pub execute_known :
      (e : ExecutionEngine) (w : W) (q : ExecutionReceipt)
      → is_blank c.idempotency_key ≡ false
      → 1 ≤ c.max_attempts
      → get_receipt e c.idempotency_key ≡ some q
      → execute digest policy adapter c e w ≡ (receipt_of q, e, w)
  unfolding execute keyed_run
  execute_known e w q b m g = rw (b, not_below c.max_attempts m, g, keyed_run)

  -- A request that the gate denies, under a new key, is rejected: the receipt carries the reason and
  -- no attempt, and is found under the call's key; the receipt under any other key is as before, and
  -- the world of the adapter is not touched.
  pub execute_denied :
      (e : ExecutionEngine) (w : W) (other : String)
      → is_blank c.idempotency_key ≡ false
      → 1 ≤ c.max_attempts
      → get_receipt e c.idempotency_key ≡ none
      → (authorize digest policy c.request c.approval c.now).allowed ≡ false
      → other ≢ c.idempotency_key
      → (q : ExecutionReceipt) × ((execute digest policy adapter c e w).0 ≡ receipt_of q)
        × (get_receipt (execute digest policy adapter c e w).1 c.idempotency_key ≡ some q)
        × (get_receipt (execute digest policy adapter c e w).1 other ≡ get_receipt e other)
        × ((execute digest policy adapter c e w).2 ≡ w)
        × (q.idempotency_key ≡ c.idempotency_key)
        × (q.status ≡ rejected)
        × (q.attempts ≡ 0)
        × (q.error ≡ some (authorize digest policy c.request c.approval c.now).reason)
        × (q.output ≡ no_output)
  unfolding execute keyed_run decided_run receipt stored
  execute_denied e w other b m g d differ =
      let q =
        receipt digest c rejected 0
          (some (authorize digest policy c.request c.approval c.now).reason) no_output none in
      let run : execute digest policy adapter c e w ≡ (receipt_of q, store q none e, w) =
        rw (b, not_below c.max_attempts m, g, keyed_run) (rw d refl) in
      (
        q,
        ap (λ x. x.0) run,
        ap (λ x. get_receipt x.1 c.idempotency_key) run ∙ get_receipt-store q none e,
        ap (λ x. get_receipt x.1 other) run ∙ get_receipt-other q none e other differ,
        ap (λ x. x.2) run,
        refl,
        refl,
        refl,
        refl,
        refl,
      )

-- What the attempts of a call mean for its receipt, the world before it and the world after it.
abbrev pub EndMeant :
    {W : Type 0} → ExecutionAdapter W → Call → Details → W → Executed × ExecutionEngine × W → Type 0
EndMeant adapter c payload w (receipt_of q, e', w') =
    let tool = c.request.tool in
    let key = c.idempotency_key in
    ((q.status ≡ succeeded)
      × (i : ℕ) × (q.attempts ≡ suc i)
      × (i < c.max_attempts)
      × FailsFor adapter tool payload key i w
      × Verified adapter tool payload key (world_at adapter tool payload key i w)
      × (w' ≡ world_at adapter tool payload key (suc i) w))
    ⊎ ((q.status ≡ failed)
        × (q.attempts ≡ c.max_attempts)
        × FailsFor adapter tool payload key c.max_attempts w
        × (w' ≡ world_at adapter tool payload key c.max_attempts w))
EndMeant adapter c payload w (empty_idempotency_key, e', w') = ⊥
EndMeant adapter c payload w (non_positive_max_attempts, e', w') = ⊥

-- A second call under a key that returned a receipt returns that receipt again, whatever its request,
-- approval, policy and adapter are, and changes neither the engine nor the world.
pub execute_replays :
    {W : Type 0} (digest : Digest) (policy policy' : Policy) (adapter adapter' : ExecutionAdapter W)
    (c c' : Call) (e : ExecutionEngine) (w w' : W) (q : ExecutionReceipt)
    → (execute digest policy adapter c e w).0 ≡ receipt_of q
    → c'.idempotency_key ≡ c.idempotency_key
    → 1 ≤ c'.max_attempts
    → execute digest policy' adapter' c' (execute digest policy adapter c e w).1 w'
      ≡ (receipt_of q, (execute digest policy adapter c e w).1, w')
execute_replays digest policy policy' adapter adapter' c c' e w w' q h k m =
    execute_known digest policy' adapter' c' (execute digest policy adapter c e w).1 w' q
      (rw k (execute-key digest policy adapter c e w q h)) m
      (rw k (execute-get_receipt digest policy adapter c e w q h))

conclude-Meant :
    {W : Type 0} (digest : Digest) (adapter : ExecutionAdapter W) (c : Call) (payload : Details)
    (e : ExecutionEngine) (w : W) (x : Ended × W)
    → Meant adapter c.request.tool payload c.idempotency_key 0 c.max_attempts w x
    → EndMeant adapter c payload w ((conclude digest c x.0 e).0, (conclude digest c x.0 e).1, x.1)
unfolding conclude stored receipt
conclude-Meant digest adapter c payload e w (success k o v, w') (i, q, lt, fails, ok, same) =
    inl (refl, i, omega arith, lt, fails, ok, same)
conclude-Meant digest adapter c payload e w (exhausted k o l, w') (q, fails, same) =
    inr (refl, omega arith, fails, same)

-- An allowed request with a valid payload, under a new key, runs its attempts: either the receipt says
-- succeeded at the first attempt that the adapter verifies, at most max_attempts, all earlier ones
-- having failed, or it says failed after max_attempts attempts that all failed; and the adapter has
-- acted on the world just as often as the receipt says.
pub execute_attempts :
    {W : Type 0} (digest : Digest) (policy : Policy) (adapter : ExecutionAdapter W) (c : Call)
    (e : ExecutionEngine) (w : W) (payload : Details)
    → is_blank c.idempotency_key ≡ false
    → 1 ≤ c.max_attempts
    → get_receipt e c.idempotency_key ≡ none
    → (authorize digest policy c.request c.approval c.now).allowed ≡ true
    → validate_input c.request.tool c.request.input_payload ≡ valid payload
    → EndMeant adapter c payload w (execute digest policy adapter c e w)
unfolding execute keyed_run decided_run validated_run
execute_attempts digest policy adapter c e w payload b m g a v =
    rw (b, not_below c.max_attempts m, g, keyed_run)
      (rw a (
        rw (v, validated_run)
          (conclude-Meant digest adapter c payload e w
            (attempts_loop adapter c.request.tool payload c.idempotency_key c.max_attempts 0 none
              none w)
            (attempts_loop-Meant adapter c.request.tool payload c.idempotency_key c.max_attempts 0
              none none w))))
