-- ===== src/Retry/Laws.antt =====
-- src/retry.rs: which Retry-After header counts.
use kou_router.Prelude.{false, ◌≢◌, ◌⊎◌, ◌↔◌, ◌≤◌}
use kou_router.Text.{to_ascii_lowercase}
use kou_router.Errors.{ok, is_success, is_retriable, classify_upstream_error}
use kou_router.Errors.Laws.{BodyRetriable, is_retriable-classify_upstream_error_iff}
use kou_router.Upstream.{ProviderResponse, buffered}
use kou_router.Retry.{RetryConfig, verdict, sleep, calculate_delay, retry_after_of}
use kou_router.Prelude.{
  ℕ, String, Option, none, some, [], ◌∷◌, ◌++◌, ◌≡◌, refl, true, All, or_else, arith,
}
use kou_router.Text.{eq_ignore_ascii_case, parse_u64}
use kou_router.Upstream.{Headers}
use kou_router.Retry.{parse_retry_after_from_headers}

module _ (ceil_secs : String → Option ℕ) where
  -- The seconds of a header's value: an integer, or else a number that is rounded up.
  abbrev pub seconds : String → Option ℕ
  seconds value = or_else (parse_u64 value) (ceil_secs value)

  -- The header is no Retry-After, in any case of its letters, or its value is no number.
  abbrev pub SaysNothing : String × String → Type 0
  SaysNothing (name, value) = eq_ignore_ascii_case name "retry-after" ≡ true → seconds value ≡ none

  -- The headers in front that say nothing are skipped: the seconds are those of the first header
  -- named Retry-After, in any case, whose value is a number; without one there are none.
  pub parse_retry_after_first :
      (front rest : Headers) (name value : String) {secs : ℕ}
      → All SaysNothing front
      → eq_ignore_ascii_case name "retry-after" ≡ true
      → seconds value ≡ some secs
      → (parse_retry_after_from_headers ceil_secs (front ++ (name, value) ∷ rest) ≡ some secs)
        × (parse_retry_after_from_headers ceil_secs front ≡ none)
  unfolding parse_retry_after_from_headers
  parse_retry_after_first [] rest name value _ named number = (ground arith, refl)
  parse_retry_after_first ((n, v) ∷ front) rest name value (quiet, all) named number =
      let ih = parse_retry_after_first front rest name value all named number in
      (ground arith, ground arith)

  sleeps_only :
      (config : RetryConfig) (attempts total_delay jitter : ℕ) (r : ProviderResponse)
      → ((delay_ms : ℕ) × (verdict ceil_secs config attempts total_delay jitter (ok (buffered r))
            ≡ sleep delay_ms))
        ↔ ((is_success r.status ≡ false)
            × (attempts ≤ config.max_retries)
            × (is_retriable (classify_upstream_error r.status r.body) ≡ true))
  unfolding verdict
  sleeps_only config attempts total_delay jitter r = (
    λ s. let e = s.1 in (ground arith, ground arith, ground arith),
    λ k. (
      calculate_delay config attempts (retry_after_of ceil_secs config r.response_headers)
          (classify_upstream_error r.status r.body) jitter,
      ground arith,
    ),
  )

  -- After a buffered response the loop sleeps and tries again exactly when the response is no
  -- success, at most `max_retries` attempts were made, and either the status is 408, 429 or 529, or
  -- it is none of 401, 403 and 404 and the lowered body shows no prompt that is too long and either
  -- names a rate limit or an overload, or names neither a content filter nor an authentication
  -- problem while the status is a server error.
  pub verdict-sleep_iff :
      (config : RetryConfig) (attempts total_delay jitter : ℕ) (r : ProviderResponse)
      → ((delay_ms : ℕ) × (verdict ceil_secs config attempts total_delay jitter (ok (buffered r))
            ≡ sleep delay_ms))
        ↔ ((is_success r.status ≡ false)
            × (attempts ≤ config.max_retries)
            × ((r.status ≡ 429)
                ⊎ (r.status ≡ 408)
                ⊎ (r.status ≡ 529)
                ⊎ ((r.status ≢ 401)
                    × (r.status ≢ 403)
                    × (r.status ≢ 404)
                    × BodyRetriable r.status (to_ascii_lowercase r.body))))
  verdict-sleep_iff config attempts total_delay jitter r =
      let loop = sleeps_only config attempts total_delay jitter r in
      let kinds = is_retriable-classify_upstream_error_iff r.status r.body in
      (λ s. let k = loop.0 s in (k.0, k.1, kinds.0 k.2), λ k. loop.1 (k.0, k.1, kinds.1 k.2))
