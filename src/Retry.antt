-- ===== src/Retry.antt =====
-- src/retry.rs: retries of one request at one target, with backoff. A run of the router in release
-- mode: `u64` and `u32` arithmetic wraps where the source does not say otherwise. The client's calls,
-- the jitter and the reading of a Retry-After that is no integer (an `f64`) are parameters.
pub mod Delay
pub mod Trace
pub mod Laws
mod Tests
use kou_router.Prelude.{
  ℕ, zero, suc, ◌+◌, ◌-◌, ◌*◌, ◌/◌, ◌%◌, ◌^◌, max, min, String, Bool, true, false, not, ◌||◌,
  Option, none, some, List, [], ◌∷◌, ltb, if◌then◌else◌,
}
use kou_router.Text.{eq_ignore_ascii_case, parse_u64}
use kou_router.Errors.{
  Result, ok, err, UpstreamErrorKind, rate_limit, timeout, connection_error, is_retriable,
  is_success, classify_upstream_error,
}
use kou_router.Upstream.{Headers, UpstreamResult, buffered, streaming}

abbrev pub u64_max : ℕ
u64_max = 2 ^ 64 - 1

pub record RetryConfig : Type 0 where
  pub max_retries : ℕ
  pub base_delay_ms : ℕ
  pub max_delay_ms : ℕ
  pub respect_retry_after : Bool

abbrev pub default_config : RetryConfig
default_config = record {
  max_retries = 3;
  base_delay_ms = 500;
  max_delay_ms = 16000;
  respect_retry_after = true;
}

pub record RetryOutcome : Type 0 where
  pub result : UpstreamResult
  pub attempts : ℕ
  pub total_retry_delay_ms : ℕ
  pub retry_after_secs : Option ℕ

abbrev pub is_rate_limit : UpstreamErrorKind → Bool
is_rate_limit rate_limit = true
is_rate_limit _ = false

abbrev pub is_timeout : UpstreamErrorKind → Bool
is_timeout timeout = true
is_timeout _ = false

-- The base of the backoff: half for a timeout.
unfoldable pub backoff_base : RetryConfig → UpstreamErrorKind → ℕ
backoff_base config kind =
    if is_timeout kind then config.base_delay_ms / 2 else config.base_delay_ms

-- `1u64.checked_shl(n).unwrap_or(u64::MAX)`.
unfoldable pub shifted_one : ℕ → ℕ
shifted_one n = if ltb n 64 then 2 ^ n else u64_max

-- `attempt - 1` on a `u32`, which wraps at 0.
abbrev pub one_less : ℕ → ℕ
one_less zero = 2 ^ 32 - 1
one_less (suc n) = n

-- The exponential part, `base.saturating_mul(...)`.
unfoldable pub exp_delay : ℕ → ℕ → ℕ
unfolding shifted_one
exp_delay base attempt = min (base * shifted_one (one_less attempt)) u64_max

unfoldable pub backoff_delay : RetryConfig → ℕ → UpstreamErrorKind → ℕ → ℕ
unfolding backoff_base exp_delay
backoff_delay config attempt kind jitter =
    min ((exp_delay (backoff_base config kind) attempt + jitter) % 2 ^ 64) config.max_delay_ms

-- `calculate_delay`, with the random jitter as an argument.
unfoldable pub calculate_delay : RetryConfig → ℕ → Option ℕ → UpstreamErrorKind → ℕ → ℕ
calculate_delay config attempt (some retry_secs) kind jitter =
    if is_rate_limit kind
    then min (retry_secs * 1000 % 2 ^ 64) config.max_delay_ms
    else backoff_delay config attempt kind jitter
calculate_delay config attempt none kind jitter = backoff_delay config attempt kind jitter

-- The exclusive upper bound of the jitter: `base.max(2) / 2`.
unfoldable pub jitter_bound : RetryConfig → UpstreamErrorKind → ℕ
unfolding backoff_base
jitter_bound config kind = max (backoff_base config kind) 2 / 2

-- What the loop does after an attempt.
pub data Verdict : Type 0 where
  finish : Result RetryOutcome → Verdict
  sleep : ℕ → Verdict

module _ (ceil_secs : String → Option ℕ) where
  -- `parse_retry_after_from_headers`; `ceil_secs` parses an `f64` and rounds it up to a `u64`.
  unfoldable pub parse_retry_after_from_headers : Headers → Option ℕ
  parse_retry_after_from_headers [] = none
  parse_retry_after_from_headers ((name, value) ∷ headers) =
      let rest = parse_retry_after_from_headers headers in
      if eq_ignore_ascii_case name "retry-after"
      then elim (parse_u64 value) [
        | some secs ↦ some secs
        | none ↦ elim (ceil_secs value) [ some secs ↦ some secs | none ↦ rest ]
      ]
      else rest

  module _ (config : RetryConfig) where
    abbrev pub retry_after_of : Headers → Option ℕ
    retry_after_of headers =
        if config.respect_retry_after then parse_retry_after_from_headers headers else none

    -- The body of the loop in `execute_with_retry`, once `attempts` is counted.
    unfoldable pub verdict : ℕ → ℕ → ℕ → Result UpstreamResult → Verdict
    verdict attempts total_delay jitter (ok (streaming s)) = finish (
        ok (record {
          result = streaming s;
          attempts = attempts;
          total_retry_delay_ms = total_delay;
          retry_after_secs = none;
        }))
    verdict attempts total_delay jitter (ok (buffered r)) =
        if is_success r.status
        then finish (
            ok (record {
              result = buffered r;
              attempts = attempts;
              total_retry_delay_ms = total_delay;
              retry_after_secs = none;
            }))
        else let kind = classify_upstream_error r.status r.body in
          let retry_after = retry_after_of r.response_headers in
          if ltb config.max_retries attempts || not (is_retriable kind)
          then finish (
              ok (record {
                result = buffered r;
                attempts = attempts;
                total_retry_delay_ms = total_delay;
                retry_after_secs = retry_after;
              }))
          else sleep (calculate_delay config attempts retry_after kind jitter)
    verdict attempts total_delay jitter (err e) =
        if ltb config.max_retries attempts
        then finish (err e)
        else sleep (calculate_delay config attempts none connection_error jitter)

    module _ (execute : ℕ → Result UpstreamResult) (jitter : ℕ → ℕ) where
      -- The loop of `execute_with_retry`: `execute n` is the answer to the n-th call of
      -- `execute_prepared`. `none` means that the fuel ran out.
      unfoldable pub retry_loop : ℕ → ℕ → ℕ → Option (Result RetryOutcome)
      retry_loop zero attempts total_delay = none
      retry_loop (suc fuel) attempts total_delay =
          let n = (attempts + 1) % 2 ^ 32 in
          elim (verdict n total_delay (jitter n) (execute n)) [
            | finish r ↦ some r
            | sleep delay_ms ↦ retry_loop fuel n ((total_delay + delay_ms) % 2 ^ 64)
          ]

      unfoldable pub execute_with_retry : Option (Result RetryOutcome)
      unfolding retry_loop
      execute_with_retry = retry_loop (config.max_retries + 1) 0 0
