-- ===== src/Retry/Trace.antt =====
-- src/retry.rs, `execute_with_retry`: which attempts are made, against a description that does not
-- mention the loop.
use kou_router.Prelude.{
  ◌∙◌, not, ◌||◌, Bool-cases, ltb, ℕ, zero, suc, ◌≤◌, ◌<◌, ◌≡◌, refl, ◌+◌, ◌*◌, ◌^◌, ◌%◌, ◌⊎◌, inl,
  inr, some, none, Option, arith, false, true, String,
}
use kou_router.Errors.{
  UpstreamErrorKind, connection_error, Result, ok, err, is_success, is_retriable,
  classify_upstream_error,
}
use kou_router.Upstream.{ProviderResponse, UpstreamResult, buffered, streaming}
use native.Mathlib.Decide.{dec_lt}
use native.Mathlib.Nat.{add-zero}
use kou_router.Retry.{
  retry_after_of, RetryConfig, RetryOutcome, Verdict, finish, sleep, verdict, retry_loop,
  calculate_delay, execute_with_retry,
}
use kou_router.Retry.Delay.{calculate_delay-le-max}

-- An answer that is worth another attempt: a failed request, or a buffered response that is no
-- success and whose kind is retriable.
abbrev pub IsRetried : Result UpstreamResult → Type 0
IsRetried (ok (streaming s)) = ⊥
IsRetried (ok (buffered r)) =
    (is_success r.status ≡ false) × (is_retriable (classify_upstream_error r.status r.body) ≡ true)
IsRetried (err e) = Unit

-- What the loop returns for the answer of its last attempt: the answer, the number of attempts, and
-- the delays so far.
abbrev pub Reports : ℕ → ℕ → Result UpstreamResult → Result RetryOutcome → Type 0
Reports n total (ok u) r =
    (o : RetryOutcome) × (r ≡ ok o)
    × (o.result ≡ u)
    × (o.attempts ≡ n)
    × (o.total_retry_delay_ms ≡ total)
Reports n total (err e) r = r ≡ err e

abbrev kind_of : ProviderResponse → UpstreamErrorKind
kind_of r = classify_upstream_error r.status r.body

module _ (ceil_secs : String → Option ℕ) (config : RetryConfig) where
  abbrev outcome : UpstreamResult → ℕ → ℕ → Option ℕ → RetryOutcome
  outcome u n total retry_after = record {
    result = u;
    attempts = n;
    total_retry_delay_ms = total;
    retry_after_secs = retry_after;
  }

  abbrev Decided : ℕ → ℕ → Result UpstreamResult → Verdict → Type 0
  Decided n total x v =
      ((r : Result RetryOutcome) × (v ≡ finish r)
        × Reports n total x r
        × ((config.max_retries < n) ⊎ ¬ IsRetried x))
      ⊎ ((d : ℕ) × (v ≡ sleep d)
          × IsRetried x
          × (n ≤ config.max_retries)
          × (d ≤ config.max_delay_ms))

  verdict-Decided :
      (n total j : ℕ) (x : Result UpstreamResult)
      → Decided n total x (verdict ceil_secs config n total j x)
  unfolding verdict
  verdict-Decided n total j (ok (streaming s)) =
      inl (_, refl, (_, refl, refl, refl, refl), inr (λ h. h))
  verdict-Decided n total j (ok (buffered r)) = elim (Bool-cases (is_success r.status)) [
    | inl good ↦ inl (
      ok (outcome (buffered r) n total none),
      ground arith,
      (_, refl, refl, refl, refl),
      inr (λ h. cc),
    )
    | inr bad ↦ elim (Bool-cases (ltb config.max_retries n || not (is_retriable (kind_of r)))) [
      | inl stop ↦ inl (
        ok (outcome (buffered r) n total (retry_after_of ceil_secs config r.response_headers)),
        ground arith,
        (_, refl, refl, refl, refl),
        ground arith,
      )
      | inr again ↦ inr (
        calculate_delay config n (retry_after_of ceil_secs config r.response_headers) (kind_of r) j,
        rw (bad, again),
        ground arith,
        ground arith,
        calculate_delay-le-max config n _ (kind_of r) j,
      )
    ]
  ]
  verdict-Decided n total j (err e) = elim (Bool-cases (ltb config.max_retries n)) [
    | inl over ↦ inl (err e, ground arith, refl, ground arith)
    | inr under ↦
        inr (_, rw under, tt, ground arith, calculate_delay-le-max config n none connection_error j)
  ]

  module _ (execute : ℕ → Result UpstreamResult) (jitter : ℕ → ℕ) where
    -- The attempts after the first `a`: all but the last are retried, the last is not or is one more
    -- than the retries allowed, and the delays add up to at most the maximum for each retry.
    pub record Ends (a total : ℕ) (r : Result RetryOutcome) : Type 0 where
      pub retries : ℕ
      pub delays : ℕ
      pub within : a + retries ≤ config.max_retries
      pub retried : (m : ℕ) → a < m → m < a + 1 + retries → IsRetried (execute m)
      pub stopped :
          (a + 1 + retries ≡ config.max_retries + 1) ⊎ ¬ IsRetried (execute (a + 1 + retries))
      pub reports : Reports (a + 1 + retries) delays (execute (a + 1 + retries)) r
      pub bounded : delays ≤ total + retries * config.max_delay_ms

    Ends-first :
        {a total : ℕ} {r : Result RetryOutcome}
        → a ≤ config.max_retries
        → Reports (a + 1) total (execute (a + 1)) r
        → (config.max_retries < a + 1) ⊎ ¬ IsRetried (execute (a + 1))
        → Ends a total r
    Ends-first {a} {total} {r} le reports stop = record {
      retries = 0;
      delays = total;
      within = omega arith;
      retried = λ m h k. absurd (omega arith);
      stopped = rw (add-zero (a + 1)) (elim stop [ inl h ↦ inl (omega arith) | inr h ↦ inr h ]);
      reports = rw (add-zero (a + 1)) reports;
      bounded = omega arith;
    }

    Ends-next :
        {a total d : ℕ} {r : Result RetryOutcome}
        → IsRetried (execute (a + 1))
        → d ≤ config.max_delay_ms
        → Ends (a + 1) ((total + d) % 2 ^ 64) r
        → Ends a total r
    Ends-next {a} {total} {d} {r} retried short later = record {
      retries = later.retries + 1;
      delays = later.delays;
      within = omega (arith, later.within);
      retried = λ m h k. elim (dec_lt (a + 1) m) [
        | yes p ↦ later.retried m p (omega (arith, shift))
        | no p ↦ let e : m ≡ a + 1 = omega arith in rw e retried
      ];
      stopped = rw shift later.stopped;
      reports = rw shift later.reports;
      bounded = omega (arith, later.bounded);
    }
      where
        shift : a + 1 + (later.retries + 1) ≡ a + 1 + 1 + later.retries
        shift = omega arith

    module _ (fuel a total : ℕ) (small : (a + 1) % 2 ^ 32 ≡ a + 1) where
      abbrev seen : Verdict
      seen = verdict ceil_secs config (a + 1) total (jitter (a + 1)) (execute (a + 1))

      retry_loop-finish :
          {r : Result RetryOutcome}
          → seen ≡ finish r
          → retry_loop ceil_secs config execute jitter (suc fuel) a total ≡ some r
      unfolding retry_loop
      retry_loop-finish v = rw (small, v, retry_loop)

      retry_loop-sleep :
          {d : ℕ}
          → seen ≡ sleep d
          → retry_loop ceil_secs config execute jitter (suc fuel) a total
            ≡ retry_loop ceil_secs config execute jitter fuel (a + 1) ((total + d) % 2 ^ 64)
      unfolding retry_loop
      retry_loop-sleep v = rw (small, v, retry_loop, small)

    retry_loop-Ends :
        (fuel a total : ℕ)
        → a + fuel ≡ config.max_retries + 1
        → config.max_retries + 1 < 2 ^ 32
        → 0 < fuel
        → (r : Result RetryOutcome) × (retry_loop ceil_secs config execute jitter fuel a total
            ≡ some r)
          × Ends a total r
    retry_loop-Ends zero a total e small pos = elim pos [ ]
    retry_loop-Ends (suc fuel) a total e small pos =
        let same : (a + 1) % 2 ^ 32 ≡ a + 1 = omega arith in
        elim (verdict-Decided (a + 1) total (jitter (a + 1)) (execute (a + 1))) [
          | inl (r, v, reports, stop) ↦
              (r, retry_loop-finish fuel a total same v, Ends-first (omega arith) reports stop)
          | inr (d, v, retried, le, short) ↦
              let (r, run, ends) =
                retry_loop-Ends fuel (a + 1) ((total + d) % 2 ^ 64) (omega arith) small
                  (omega arith) in
              (r, retry_loop-sleep fuel a total same v ∙ run, Ends-next retried short ends)
        ]

  -- The loop ends within its fuel, `max_retries + 1` rounds, if that is below 2^32. Some number of
  -- retries, at most `max_retries`, comes before the last attempt: all attempts before the last were
  -- worth another one; the last was not, or no retry was left; the result is the answer to the last
  -- attempt with the count of attempts, or its error; and the delays reported add up to at most the
  -- configured maximum for each retry.
  pub execute_with_retry-Ends :
      (execute : ℕ → Result UpstreamResult) (jitter : ℕ → ℕ)
      → config.max_retries + 1 < 2 ^ 32
      → (r : Result RetryOutcome) × (execute_with_retry ceil_secs config execute jitter ≡ some r)
        × Ends execute jitter 0 0 r
  unfolding execute_with_retry
  execute_with_retry-Ends execute jitter small =
      retry_loop-Ends execute jitter (config.max_retries + 1) 0 0 (omega arith) small (omega arith)
