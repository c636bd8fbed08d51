-- ===== src/Errors/Laws.antt =====
-- src/error.rs and `fallback_error`: what the classification guarantees.
use kou_router.Prelude.{ℕ, String, true, false, ◌≡◌, refl, ◌≢◌, ◌⊎◌, ◌↔◌, arith}
use kou_router.Text.{to_ascii_lowercase}
use kou_router.Errors.{
  AppError, not_found, status_code, connection_error, is_retriable, is_server_error, contains_any,
  prompt_patterns, rate_patterns, overload_patterns, filter_patterns, auth_patterns,
  classify_status, classify_body, classify_upstream_error, fallback_error, http_status, contains,
}
use kou_router.Errors.Body.{into_response}

-- The status that `status_code` reports is the status of the response that `into_response` builds,
-- for every error.
pub status_code-into_response : (e : AppError) → status_code e ≡ (into_response e).0
unfolding status_code into_response
status_code-into_response (not_found m) = refl
status_code-into_response _ = refl

-- Two bodies that differ only in the case of ASCII letters are classified alike and have the same
-- failover decision, under every status.
pub classify_upstream_error-case_insensitive :
    (status : ℕ) (a b : String)
    → to_ascii_lowercase a ≡ to_ascii_lowercase b
    → (classify_upstream_error status a ≡ classify_upstream_error status b)
      × (fallback_error status a ≡ fallback_error status b)
unfolding classify_upstream_error fallback_error
classify_upstream_error-case_insensitive status a b h = (rw h, rw h)

-- The body's patterns that decide between the kinds that are retried and those that are not.
abbrev pub BodyRetriable : ℕ → String → Type 0
BodyRetriable status lower =
    (contains_any lower prompt_patterns ≡ false)
    × ((contains_any lower rate_patterns ≡ true)
        ⊎ (contains_any lower overload_patterns ≡ true)
        ⊎ ((contains_any lower filter_patterns ≡ false)
            × (contains_any lower auth_patterns ≡ false)
            × (is_server_error status ≡ true)))

classify_status-retriable_iff :
    (status : ℕ) → (is_retriable (classify_status status) ≡ true) ↔ (is_server_error status ≡ true)
unfolding classify_status is_retriable
classify_status-retriable_iff status = ground arith

classify_body-retriable_iff :
    (status : ℕ) (lower : String)
    → (is_retriable (classify_body status lower) ≡ true) ↔ BodyRetriable status lower
unfolding classify_body is_retriable
classify_body-retriable_iff status lower = ground (arith, classify_status-retriable_iff status)

-- A response is classified as a kind of error that may be retried exactly when its status is 408,
-- 429 or 529, or when its status is none of 401, 403 and 404 and its lowered body shows no prompt
-- that is too long and either names a rate limit or an overload, or names neither a content filter
-- nor an authentication problem while the status is a server error.
pub is_retriable-classify_upstream_error_iff :
    (status : ℕ) (body : String)
    → (is_retriable (classify_upstream_error status body) ≡ true) ↔ (
        (status ≡ 429)
        ⊎ (status ≡ 408)
        ⊎ (status ≡ 529)
        ⊎ ((status ≢ 401)
            × (status ≢ 403)
            × (status ≢ 404)
            × BodyRetriable status (to_ascii_lowercase body)))
unfolding classify_upstream_error is_retriable
is_retriable-classify_upstream_error_iff status body =
    ground (arith, classify_body-retriable_iff status (to_ascii_lowercase body))

-- A response is never classified as a connection error: that kind is left to failed requests.
pub classify_upstream_error-ne-connection_error :
    (status : ℕ) (body : String) → classify_upstream_error status body ≢ connection_error
unfolding classify_upstream_error classify_status
classify_upstream_error-ne-connection_error status body = ground arith

-- A 400 response whose lowered body has "rate_limit" or "too many requests", but neither "rate
-- limit" nor "quota", and that does not look like a prompt that is too long, is retried at the same
-- target and reported to the client as 429, and yet the router never goes on to another target.
pub rate_limited_400_no_failover :
    (body : String)
    → contains_any (to_ascii_lowercase body) prompt_patterns ≡ false
    → (contains (to_ascii_lowercase body) "rate_limit" ≡ true)
      ⊎ (contains (to_ascii_lowercase body) "too many requests" ≡ true)
    → contains (to_ascii_lowercase body) "rate limit" ≡ false
    → contains (to_ascii_lowercase body) "quota" ≡ false
    → (is_retriable (classify_upstream_error 400 body) ≡ true)
      × (http_status (classify_upstream_error 400 body) ≡ 429)
      × (fallback_error 400 body ≡ false)
unfolding classify_upstream_error is_retriable fallback_error contains_any http_status
rate_limited_400_no_failover body p r s q = ground arith
