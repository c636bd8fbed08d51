-- ===== src/Retry/Tests.antt =====
-- Runs of the retry loop, and its theorems at concrete inputs.
use kou_router.Prelude.{
  inl, if◌then◌else◌, ◌==◌, ℕ, String, false, Option, none, some, [], ◌∷◌, ◌≡◌, refl, min, ◌+◌, ◌-◌,
  ◌*◌, ◌^◌, ◌≤◌, ◌<◌, arith,
}
use kou_router.Text.{parse_u64, eq_ignore_ascii_case}
use kou_router.Errors.{
  upstream, Result, ok, err, rate_limit, server_error, timeout, is_success, is_retriable,
  classify_upstream_error,
}
use kou_router.Upstream.{ProviderResponse, UpstreamResult, buffered, chunk, idle}
use kou_router.Upstream.Stream.{watchdog_stream, tee_stream, received, bytes}
use kou_router.Upstream.Stream.Laws.{relay_exact, closing}
use kou_router.Retry.Laws.{verdict-sleep_iff}
use kou_router.Retry.{
  sleep, RetryOutcome, default_config, calculate_delay, backoff_base, jitter_bound,
  parse_retry_after_from_headers, execute_with_retry, verdict, backoff_delay,
}
use kou_router.Retry.Delay.{
  calculate_delay-le-max, calculate_delay_exponential, calculate_delay_retry_after_wraps,
  calculate_delay_collapses,
}
use kou_router.Retry.Trace.{Ends, execute_with_retry-Ends}

-- The values that parse as an `f64` and no integer, at the two texts used below.
abbrev ceil_secs : String → Option ℕ
ceil_secs s = none

abbrev busy : ProviderResponse
busy = record {
  status = 429;
  body = "";
  is_stream = false;
  response_headers = ("Retry-After", "2") ∷ [];
}

abbrev fine : ProviderResponse
fine = record { status = 200; body = "{}"; is_stream = false; response_headers = [] }

-- A rate limit, a failed connection, and then a success.
abbrev answers : ℕ → Result UpstreamResult
answers n =
    if n == 1
    then ok (buffered busy)
    else if n == 2
    then err (upstream "reset")
    else ok (buffered fine)

third_attempt :
    execute_with_retry ceil_secs default_config answers (λ n. 7)
    ≡ some (
        ok (record {
          result = buffered fine;
          attempts = 3;
          total_retry_delay_ms = 3007;
          retry_after_secs = none;
        }))
unfolding execute_with_retry verdict parse_retry_after_from_headers parse_u64 eq_ignore_ascii_case
    calculate_delay backoff_delay is_success is_retriable classify_upstream_error
third_attempt = refl

calculate_delay-le-max_example : calculate_delay default_config 70 none server_error 9 ≤ 16000
calculate_delay-le-max_example = calculate_delay-le-max default_config 70 none server_error 9

calculate_delay_exponential_example :
    (calculate_delay default_config 3 none timeout 100 ≡ min (1000 + 100) 16000)
    × (min 1000 16000 ≤ calculate_delay default_config 3 none timeout 100)
    × (calculate_delay default_config 3 none timeout 100 < 1000 + 125)
unfolding backoff_base jitter_bound
calculate_delay_exponential_example =
    calculate_delay_exponential default_config 3 timeout 100 (omega arith) (omega arith)
      (omega arith) (omega arith)

calculate_delay_retry_after_wraps_example :
    (calculate_delay default_config 1 (some 18446744073709552) rate_limit 3
      ≡ 18446744073709552 * 1000 - 2 ^ 64)
    × (calculate_delay default_config 1 (some 18446744073709552) rate_limit 3 < 16000)
calculate_delay_retry_after_wraps_example =
    calculate_delay_retry_after_wraps default_config 1 18446744073709552 3 (omega arith)
      (omega arith) (omega arith)

calculate_delay_collapses_example :
    calculate_delay default_config 65 none server_error 1 ≡ min (1 - 1) 16000
unfolding backoff_base
calculate_delay_collapses_example =
    calculate_delay_collapses default_config 65 server_error 1 (omega arith) (omega arith)
      (omega arith) (omega arith)

execute_with_retry-Ends_example :
    (r : Result RetryOutcome) × (execute_with_retry ceil_secs default_config answers (λ n. 7)
      ≡ some r)
    × Ends ceil_secs default_config answers (λ n. 7) 0 0 r
execute_with_retry-Ends_example =
    execute_with_retry-Ends ceil_secs default_config answers (λ n. 7) (omega arith)

relay_exact_example :
    ((tee_stream (watchdog_stream "60" (chunk "a" ∷ chunk "b" ∷ idle ∷ chunk "c" ∷ [])) "").0
      ≡ bytes "a" ∷ bytes "b" ∷ closing "60" idle)
    × ((tee_stream (watchdog_stream "60" (chunk "a" ∷ chunk "b" ∷ idle ∷ chunk "c" ∷ [])) "").1
        ≡ received (bytes "a" ∷ bytes "b" ∷ closing "60" idle))
relay_exact_example = relay_exact "60" ("a" ∷ "b" ∷ []) idle (chunk "c" ∷ []) tt

verdict-sleep_iff_example :
    (delay_ms : ℕ) × (verdict ceil_secs default_config 3 0 7 (ok (buffered busy)) ≡ sleep delay_ms)
unfolding is_success
verdict-sleep_iff_example =
    (verdict-sleep_iff ceil_secs default_config 3 0 7 busy).1 (refl, omega arith, inl refl)
