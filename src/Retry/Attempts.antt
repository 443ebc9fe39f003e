-- ===== src/Retry/Attempts.antt =====
-- What retry_async of app/observability/retry.py does, attempt by attempt.
use vendorops_ai.Base.{
  ℕ, zero, suc, ◌+◌, ◌-◌, ◌*◌, ◌^◌, ◌<◌, ◌≡◌, refl, ap, Bool, true, false, some, List, [], ◌∷◌,
  arith, leb, if◌then◌else◌, Bool-cases, inl, inr,
}
use vendorops_ai.Retry.{
  Outcome, returned, raised, Scheduled, Result, value, unhandled, retry_exhausted, delay,
  attempt_from, retry_async,
}

module _ {T E W : Type 0} (operation : W → Outcome T E × W) (is_retryable : E → Bool)
    (attempts base_delay : ℕ) where
  -- The world after `n` attempts.
  abbrev pub world_at : ℕ → W → W
  world_at zero w = w
  world_at (suc n) w = world_at n (operation w).1

  -- From attempt `k` on, `i` attempts fail with retryable exceptions, and the retries that they
  -- schedule have the attempt's number and the base delay doubled for each attempt before it.
  abbrev pub Failures : ℕ → ℕ → W → List (Scheduled E) → Type 0
  Failures k zero w es = es ≡ []
  Failures k (suc i) w es =
      (e : E) × (rest : List (Scheduled E)) × ((operation w).0 ≡ raised e)
      × (is_retryable e ≡ true)
      × (es ≡ record { attempt = k; exc = e; delay = base_delay * 2 ^ (k - 1) } ∷ rest)
      × Failures (suc k) i (operation w).1 rest

  -- What the attempt number `i` of `n`, counted from 0, does when it is the last.
  abbrev pub EndsWith : ℕ → ℕ → W → Result T E → Type 0
  EndsWith i n w (value t) = (operation w).0 ≡ returned t
  EndsWith i n w (unhandled e) = ((operation w).0 ≡ raised e) × (is_retryable e ≡ false)
  EndsWith i n w (retry_exhausted m c) =
      (e : E) × ((operation w).0 ≡ raised e)
      × (is_retryable e ≡ true)
      × (c ≡ some e)
      × (m ≡ attempts)
      × (suc i ≡ n)

  abbrev pub Meant : ℕ → ℕ → W → Result T E × List (Scheduled E) × W → Type 0
  Meant k n w (r, es, w') =
      (i : ℕ) × (i < n)
      × Failures k i w es
      × (w' ≡ world_at (suc i) w)
      × EndsWith i n (world_at i w) r

  earlier :
      (k n : ℕ) (w : W) (e : E) (x : Result T E × List (Scheduled E) × W)
      → (operation w).0 ≡ raised e
      → is_retryable e ≡ true
      → Meant (suc k) n (operation w).1 x
      → Meant k
          (suc n)
          w
          (x.0, record { attempt = k; exc = e; delay = base_delay * 2 ^ (k - 1) } ∷ x.1, x.2)
  earlier k n w e (value t, es, v) o q (i, lt, f, s, z) =
      (suc i, omega arith, (e, es, o, q, refl, f), s, z)
  earlier k n w e (unhandled y, es, v) o q (i, lt, f, s, z) =
      (suc i, omega arith, (e, es, o, q, refl, f), s, z)
  earlier k n w e (retry_exhausted m c, es, v) o q (i, lt, f, s, (y, a, b, d, g, h)) =
      (suc i, omega arith, (e, es, o, q, refl, f), s, (y, a, b, d, g, ap suc h))

  attempt_from-Meant :
      (n k : ℕ) (w : W)
      → 0 < n
      → k + n ≡ suc attempts
      → Meant k n w (attempt_from operation is_retryable attempts base_delay n k w)
  unfolding attempt_from delay
  attempt_from-Meant zero k w p q = absurd (omega (arith, p))
  attempt_from-Meant (suc n) k w p q =
      by_outcome (operation w).0 refl
        (λ m. attempt_from-Meant n (suc k) (operation w).1 m (omega (arith, q)))
    where
      next : Result T E × List (Scheduled E) × W
      next = attempt_from operation is_retryable attempts base_delay n (suc k) (operation w).1

      by_outcome :
          (o : Outcome T E)
          → (operation w).0 ≡ o
          → (0 < n → Meant (suc k) n (operation w).1 next)
          → Meant k (suc n) w (elim o [
            | returned t ↦ (value t, [], (operation w).1)
            | raised e ↦
                if is_retryable e
                then (if leb attempts k
                    then (retry_exhausted attempts (some e), [], (operation w).1)
                    else (
                      next.0,
                      record { attempt = k; exc = e; delay = base_delay * 2 ^ (k - 1) } ∷ next.1,
                      next.2,
                    ))
                else (unhandled e, [], (operation w).1)
          ])
      by_outcome (returned t) o ih = (zero, omega arith, refl, refl, o)
      by_outcome (raised e) o ih = elim (Bool-cases (is_retryable e)) [
        | inr f ↦ rw f (zero, omega arith, refl, refl, (o, f))
        | inl f ↦ elim (Bool-cases (leb attempts k)) [
          | inl g ↦
              rw (f, g) (zero, omega arith, refl, refl, (e, o, f, refl, refl, ground (arith, g, q)))
          | inr g ↦ rw (f, g) (earlier k n w e next o f (ih (ground (arith, g, q))))
        ]
      ]

  -- With at least one attempt allowed, retry_async makes some number of attempts, at most `attempts`:
  -- all but the last failed with a retryable exception and scheduled a retry after the base delay,
  -- doubled each time; and the last returned the value that is returned, or raised an exception that
  -- is not retryable and is raised on, or was the last one allowed and is the cause of the
  -- RetryExhaustedError.
  pub retry_async-Meant :
      (w : W)
      → 0 < attempts
      → Meant 1 attempts w (retry_async operation is_retryable attempts base_delay w)
  unfolding retry_async
  retry_async-Meant w p = attempt_from-Meant attempts 1 w p (omega arith)
