-- ===== src/Retry/Examples.antt =====
-- An operation that fails until its third call.
use vendorops_ai.Base.{ℕ, suc, String, Bool, true, [], ◌∷◌, arith, ltb, if◌then◌else◌, ◌≡◌, refl}
use vendorops_ai.Retry.{Outcome, returned, raised, value, retry_async}
use vendorops_ai.Retry.Attempts.{Meant, retry_async-Meant}

abbrev flaky : ℕ → Outcome String String × ℕ
flaky n = if ltb n 2 then (raised "busy", suc n) else (returned "done", suc n)

abbrev always : String → Bool
always e = true

flaky_runs : retry_async flaky always 5 100 0 ≡ (
  value "done",
  record { attempt = 1; exc = "busy"; delay = 100 }
      ∷ record { attempt = 2; exc = "busy"; delay = 200 }
      ∷ [],
  3,
)
unfolding retry_async
flaky_runs = refl

retry_async-Meant_example : Meant flaky always 5 100 1 5 0 (retry_async flaky always 5 100 0)
retry_async-Meant_example = retry_async-Meant flaky always 5 100 0 (omega arith)
