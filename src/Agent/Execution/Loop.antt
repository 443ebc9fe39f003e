-- ===== src/Agent/Execution/Loop.antt =====
-- The loop over the attempts: it stops at the first attempt that is verified.
use vendorops_ai.Base.{
  ℕ, zero, suc, ◌+◌, ◌<◌, String, ◌≡◌, ◌≢◌, refl, sym, ap, ◌∙◌, subst, true, false, Option, none,
  some, arith, inl, inr, Bool-cases, eq_iff,
}
use vendorops_ai.Db.{Details, Value, null, text, number, flag}
use vendorops_ai.Agent.Tools.{ToolDefinition, Validated, valid, invalid, validate_output}
use vendorops_ai.Agent.Execution.{
  ExecutionAdapter, Attempted, returned, raised, Round, passed, raised_with, round, Ended, success,
  exhausted, attempts_loop, after_execute, check_output, check_verification, is_verified, truthy,
  dict_get,
}

-- The values that count as true.
abbrev pub IsTrue : Value → Type 0
IsTrue null = ⊥
IsTrue (text s) = s ≢ ""
IsTrue (number n) = n ≢ 0
IsTrue (flag b) = b ≡ true

-- The connector's answer says that the action is verified.
abbrev pub Confirms : Details → Type 0
Confirms v = (x : Value) × (dict_get "verified" v ≡ some x) × IsTrue x

truthy-IsTrue : (x : Value) → truthy x ≡ true → IsTrue x
unfolding truthy
truthy-IsTrue null h = cc
truthy-IsTrue (text s) h = λ e. ground (arith, eq_iff s "")
truthy-IsTrue (number n) h = λ e. ground arith
truthy-IsTrue (flag b) h = h

truthy-false : (x : Value) → truthy x ≡ false → ¬ IsTrue x
unfolding truthy
truthy-false null h = λ t. t
truthy-false (text s) h = λ n. ground (arith, eq_iff s "")
truthy-false (number n) h = λ t. ground arith
truthy-false (flag b) h = λ t. cc

is_verified-Confirms : (v : Details) → is_verified v ≡ true → Confirms v
unfolding is_verified
is_verified-Confirms v h = by_value (dict_get "verified" v) refl h
  where
    by_value :
        (o : Option Value)
        → dict_get "verified" v ≡ o
        → elim o [ none ↦ false | some x ↦ truthy x ] ≡ true
        → Confirms v
    by_value none q t = cc
    by_value (some x) q t = (x, q, truthy-IsTrue x t)

is_verified-refuses : (v : Details) → is_verified v ≡ false → ¬ Confirms v
unfolding is_verified
is_verified-refuses v h (x, q, t) =
    truthy-false x (sym (ap (λ o. elim o [ none ↦ false | some y ↦ truthy y ]) q) ∙ h) t

clash : (e : String) (v : Details) → raised e ≢ returned v
clash e v h = cc h

mismatch : (e : String) (v : Details) → invalid e ≢ valid v
mismatch e v h = cc h

module _ {W : Type 0} (adapter : ExecutionAdapter W) (tool : ToolDefinition) (payload : Details)
    (key : String) where
  -- The attempt at a world is verified: the connector acts and returns an output that is valid for the
  -- tool, and then answers the question whether the action took place with a value that is true.
  abbrev pub Verified : W → Type 0
  Verified w =
      (output dumped v : Details) × (w' : W) × (adapter.execute tool payload key w
        ≡ (returned output, w'))
      × (validate_output tool output ≡ valid dumped)
      × ((adapter.verify tool payload output w').0 ≡ returned v)
      × Confirms v

  world_checked : Details → Validated → W → W
  world_checked output (invalid e) w = w
  world_checked output (valid dumped) w = (adapter.verify tool payload output w).1

  world_acted : Attempted × W → W
  unfolding world_checked
  world_acted (raised e, w) = w
  world_acted (returned output, w) = world_checked output (validate_output tool output) w

  -- The world after an attempt: the connector has acted once, and was asked once if its output is valid.
  unfoldable pub world_after : W → W
  unfolding world_acted
  world_after w = world_acted (adapter.execute tool payload key w)

  abbrev pub world_at : ℕ → W → W
  world_at zero w = w
  world_at (suc n) w = world_at n (world_after w)

  -- The first `n` attempts fail.
  abbrev pub FailsFor : ℕ → W → Type 0
  FailsFor zero w = Unit
  FailsFor (suc n) w = (¬ Verified w) × FailsFor n (world_after w)

  -- What a round at `w` means that leaves the world `z`.
  abbrev RoundMeant : W → W → Round × W → Type 0
  RoundMeant w z (passed o v, w') = Verified w × (w' ≡ z)
  RoundMeant w z (raised_with o e, w') = (¬ Verified w) × (w' ≡ z)

  -- What a verified attempt says of the output that the connector is known to return.
  after_output :
      (w w' : W) (output : Details)
      → adapter.execute tool payload key w ≡ (returned output, w')
      → Verified w
      → (dumped v : Details) × (validate_output tool output ≡ valid dumped)
        × ((adapter.verify tool payload output w').0 ≡ returned v)
        × Confirms v
  after_output w w' output q (o, dumped, v, u, q', val, s, t) =
      let same : o ≡ output = cc (q, q') in
      let world : u ≡ w' = cc (q, q') in (dumped, v, rw (← same) val, rw (← same, ← world) s, t)

  verification-Meant :
      (w w' : W) (output dumped : Details) (r : Attempted × W)
      → adapter.execute tool payload key w ≡ (returned output, w')
      → validate_output tool output ≡ valid dumped
      → adapter.verify tool payload output w' ≡ r
      → RoundMeant w r.1 (check_verification adapter tool payload output r)
  unfolding check_verification
  verification-Meant w w' output dumped (raised e, v') q val s = (
    (λ found.
        let (p, v, val', s', t) = after_output w w' output q found in
        clash e v (sym (ap (λ (x : Attempted × W). x.0) s) ∙ s')),
    refl,
  )
  verification-Meant w w' output dumped (returned v, v') q val s =
      elim (Bool-cases (is_verified v)) [
        | inl h ↦ rw h (
          (
            output,
            dumped,
            v,
            w',
            q,
            val,
            ap (λ (x : Attempted × W). x.0) s,
            is_verified-Confirms v h,
          ),
          refl,
        )
        | inr h ↦ rw h (
          (λ found.
              let (p, x, val', s', t) = after_output w w' output q found in
              let same : x ≡ v = cc (sym (ap (λ (x : Attempted × W). x.0) s) ∙ s') in
              is_verified-refuses v h (subst Confirms same t)),
          refl,
        )
      ]

  output-Meant :
      (w w' : W) (output : Details) (val : Validated)
      → adapter.execute tool payload key w ≡ (returned output, w')
      → validate_output tool output ≡ val
      → RoundMeant w (world_checked output val w') (check_output adapter tool payload output val w')
  unfolding check_output world_checked
  output-Meant w w' output (invalid e) q val = (
    (λ found.
        let (p, v, val', s', t) = after_output w w' output q found in
        mismatch e p (sym val ∙ val')),
    refl,
  )
  output-Meant w w' output (valid dumped) q val =
      verification-Meant w w' output dumped (adapter.verify tool payload output w') q val refl

  round-Meant :
      (o : Option Details) (w : W)
      → RoundMeant w (world_after w) (round adapter tool payload key o w)
  unfolding round world_after
  round-Meant o w = by_execution (adapter.execute tool payload key w) refl
    where
      by_execution :
          (r : Attempted × W)
          → adapter.execute tool payload key w ≡ r
          → RoundMeant w (world_acted r) (after_execute adapter tool payload o r)
      by_execution (raised e, v) q = (
        (λ (o, p, x, u, q', val', s', t). clash e o (ap (λ (x : Attempted × W). x.0) (sym q ∙ q'))),
        refl,
      )
      by_execution (returned d, v) q = output-Meant w v d (validate_output tool d) q refl

  -- What is meant by the end of a loop that had made `k` rounds and had `n` left.
  abbrev pub Meant : ℕ → ℕ → W → Ended × W → Type 0
  Meant k n w (success m o v, w') =
      (i : ℕ) × (m ≡ k + suc i)
      × (i < n)
      × FailsFor i w
      × Verified (world_at i w)
      × (w' ≡ world_at (suc i) w)
  Meant k n w (exhausted m o e, w') = (m ≡ k + n) × FailsFor n w × (w' ≡ world_at n w)

  earlier :
      (k n : ℕ) (w : W) (x : Ended × W)
      → ¬ Verified w
      → Meant (suc k) n (world_after w) x
      → Meant k (suc n) w x
  earlier k n w (success m o v, w') f (i, e, lt, fails, ok, same) =
      (suc i, omega arith, omega arith, (f, fails), ok, same)
  earlier k n w (exhausted m o e, w') f (q, fails, same) = (omega arith, (f, fails), same)

  pub attempts_loop-Meant :
      (n k : ℕ) (output : Option Details) (last_error : Option String) (w : W)
      → Meant k n w (attempts_loop adapter tool payload key n k output last_error w)
  unfolding attempts_loop
  attempts_loop-Meant zero k output last_error w = (omega arith, tt, refl)
  attempts_loop-Meant (suc n) k output last_error w =
      go (round adapter tool payload key output w) (round-Meant output w)
        (λ o e. attempts_loop-Meant n (suc k) o (some e))
    where
      go :
          (x : Round × W)
          → RoundMeant w (world_after w) x
          → ((o : Option Details) (e : String) (v : W)
              → Meant (suc k) n v (attempts_loop adapter tool payload key n (suc k) o (some e) v))
          → Meant k (suc n) w (elim x.0 [
            | passed o v ↦ (success (suc k) o v, x.1)
            | raised_with o e ↦ attempts_loop adapter tool payload key n (suc k) o (some e) x.1
          ])
      go (passed o v, w') (p, q) ih = (zero, omega arith, omega arith, tt, p, q)
      go (raised_with o e, w') (p, q) ih = earlier k n w _ p (rw (← q) (ih o e w'))
