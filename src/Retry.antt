-- ===== src/Retry.antt =====
-- app/observability/retry.py: retry_async over an operation that changes a world of its own. The
-- callback and the sleep of a retry are an event in a list, in the order of their calls; an exponent
-- of two on delays that are numbers of ticks.
pub mod Attempts
mod Examples
use vendorops_ai.Base.{
  ℕ, zero, suc, ◌+◌, ◌-◌, ◌*◌, ◌^◌, Bool, Option, none, some, List, [], ◌∷◌, ◌++◌, leb,
  if◌then◌else◌,
}

-- What one call of the operation does.
pub data Outcome (T E : Type 0) : Type 0 where
  returned : T → Outcome T E
  raised : E → Outcome T E

-- on_retry(attempt, exc, delay), then sleep(delay).
pub record Scheduled (E : Type 0) : Type 0 where
  pub attempt : ℕ
  pub exc : E
  pub delay : ℕ

-- What retry_async ends with: the value, an exception that is not retryable, or
-- RetryExhaustedError, whose cause is missing when no attempt was made.
pub data Result (T E : Type 0) : Type 0 where
  value : T → Result T E
  unhandled : E → Result T E
  retry_exhausted : ℕ → Option E → Result T E

module _ {T E W : Type 0} (operation : W → Outcome T E × W) (is_retryable : E → Bool)
    (attempts base_delay : ℕ) where
  -- base_delay_seconds * (2 ** (attempt - 1))
  unfoldable pub delay : ℕ → ℕ
  delay attempt = base_delay * 2 ^ (attempt - 1)

  -- The attempts that are left, the number of the next one, and the world.
  unfoldable pub attempt_from : ℕ → ℕ → W → Result T E × List (Scheduled E) × W
  unfolding delay
  attempt_from zero k w = (retry_exhausted attempts none, [], w)
  attempt_from (suc n) k w =
      let (o, w') = operation w in
      let (r, es, w'') = attempt_from n (suc k) w' in
      elim o [
        | returned t ↦ (value t, [], w')
        | raised e ↦
            if is_retryable e
            then (if leb attempts k
                then (retry_exhausted attempts (some e), [], w')
                else (r, record { attempt = k; exc = e; delay = delay k } ∷ es, w''))
            else (unhandled e, [], w')
      ]

  unfoldable pub retry_async : W → Result T E × List (Scheduled E) × W
  unfolding attempt_from
  retry_async w = attempt_from attempts 1 w
