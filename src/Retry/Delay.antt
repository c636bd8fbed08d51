-- ===== src/Retry/Delay.antt =====
-- src/retry.rs, `calculate_delay`: its range, its value where nothing overflows, and where it wraps.
use kou_router.Prelude.{
  zero, suc, ℕ, ◌≤◌, ◌<◌, ◌≡◌, ◌+◌, ◌-◌, ◌*◌, ◌^◌, min, some, none, Option, arith,
}
use kou_router.Errors.{UpstreamErrorKind, rate_limit}
use kou_router.Retry.{
  RetryConfig, calculate_delay, backoff_delay, backoff_base, exp_delay, shifted_one, jitter_bound,
}

-- On every branch the delay is at most the configured maximum.
pub calculate_delay-le-max :
    (config : RetryConfig) (attempt : ℕ) (retry_after : Option ℕ) (kind : UpstreamErrorKind)
    (jitter : ℕ)
    → calculate_delay config attempt retry_after kind jitter ≤ config.max_delay_ms
unfolding calculate_delay backoff_delay
calculate_delay-le-max config attempt (some s) kind jitter = ground arith
calculate_delay-le-max config attempt none kind jitter = ground arith

exp_delay_exact :
    (base attempt : ℕ)
    → 1 ≤ attempt
    → attempt ≤ 64
    → base * 2 ^ (attempt - 1) < 2 ^ 64
    → exp_delay base attempt ≡ base * 2 ^ (attempt - 1)
unfolding exp_delay shifted_one
exp_delay_exact base zero l h k = omega arith
exp_delay_exact base (suc n) l h k = ground arith

-- Without a Retry-After and without overflow the delay of an attempt from the first to the 64th is
-- the documented one: base * 2^(attempt - 1) plus the jitter, capped at the maximum, where the base
-- is halved for a timeout. So with a jitter below its bound it is at least the capped power, and
-- less than the capped power plus that bound.
pub calculate_delay_exponential :
    (config : RetryConfig) (attempt : ℕ) (kind : UpstreamErrorKind) (jitter : ℕ)
    → 1 ≤ attempt
    → attempt ≤ 64
    → jitter < jitter_bound config kind
    → backoff_base config kind * 2 ^ (attempt - 1) + jitter < 2 ^ 64
    → let power = backoff_base config kind * 2 ^ (attempt - 1) in
      let delay = calculate_delay config attempt none kind jitter in
      (delay ≡ min (power + jitter) config.max_delay_ms)
      × (min power config.max_delay_ms ≤ delay)
      × (delay < min power config.max_delay_ms + jitter_bound config kind)
unfolding calculate_delay backoff_delay
calculate_delay_exponential config attempt kind jitter l h j k =
    let e = exp_delay_exact (backoff_base config kind) attempt l h (omega arith) in
    (omega (arith, e), omega (arith, e), omega (arith, e))

-- A Retry-After on a rate limit decides the delay, whatever the attempt and the jitter: the seconds
-- in milliseconds, capped at the maximum, as long as the product fits in 64 bits.
pub calculate_delay_retry_after :
    (config : RetryConfig) (attempt secs jitter : ℕ)
    → secs * 1000 < 2 ^ 64
    → calculate_delay config attempt (some secs) rate_limit jitter
      ≡ min (secs * 1000) config.max_delay_ms
unfolding calculate_delay
calculate_delay_retry_after config attempt secs jitter h = omega arith

-- A Retry-After whose milliseconds pass 2^64 by less than the maximum wraps: the router then waits
-- only for the excess, and not for the maximum that the cap is meant to give.
pub calculate_delay_retry_after_wraps :
    (config : RetryConfig) (attempt secs jitter : ℕ)
    → 2 ^ 64 ≤ secs * 1000
    → secs * 1000 < 2 ^ 64 + config.max_delay_ms
    → config.max_delay_ms < 2 ^ 64
    → (calculate_delay config attempt (some secs) rate_limit jitter ≡ secs * 1000 - 2 ^ 64)
      × (calculate_delay config attempt (some secs) rate_limit jitter < config.max_delay_ms)
unfolding calculate_delay
calculate_delay_retry_after_wraps config attempt secs jitter h k m = (omega arith, omega arith)

exp_delay_saturated :
    (base attempt : ℕ) → 0 < base → 64 < attempt → exp_delay base attempt ≡ 2 ^ 64 - 1
unfolding exp_delay shifted_one
exp_delay_saturated base zero h k = omega arith
exp_delay_saturated base (suc n) h k = ground arith

-- From the 65th attempt on the saturated power and a positive jitter wrap: the backoff collapses to
-- the jitter less one.
pub calculate_delay_collapses :
    (config : RetryConfig) (attempt : ℕ) (kind : UpstreamErrorKind) (jitter : ℕ)
    → 0 < backoff_base config kind
    → 64 < attempt
    → 0 < jitter
    → jitter < 2 ^ 64
    → calculate_delay config attempt none kind jitter ≡ min (jitter - 1) config.max_delay_ms
unfolding calculate_delay backoff_delay
calculate_delay_collapses config attempt kind jitter b h j k =
    omega (arith, exp_delay_saturated (backoff_base config kind) attempt b h)
