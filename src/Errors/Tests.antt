-- ===== src/Errors/Tests.antt =====
-- Runs of the classification, and the theorems at concrete inputs.
use kou_router.Prelude.{String, true, false, ◌≡◌, refl, inr, Option, none}
use kou_router.Text.{to_ascii_lowercase, contains}
use kou_router.Json.{Value}
use kou_router.Errors.{
  is_retriable, classify_upstream_error, fallback_error, http_status, rate_limit, overloaded,
  prompt_too_long, invalid_request, model_not_found, content_filtered, server_error, unknown,
  contains_any, classify_status,
}
use kou_router.Errors.Laws.{rate_limited_400_no_failover}

classify_tests :
    (classify_upstream_error 429 "" ≡ rate_limit)
    × (classify_upstream_error 529 "" ≡ overloaded)
    × (classify_upstream_error 404 "model not found" ≡ model_not_found)
    × (classify_upstream_error 400 "prompt is too long for this model" ≡ prompt_too_long)
    × (classify_upstream_error 400 "content_filter triggered" ≡ content_filtered)
    × (classify_upstream_error 400 "Hit rate limit on this endpoint" ≡ rate_limit)
    × (classify_upstream_error 400 "invalid request body" ≡ invalid_request)
    × (classify_upstream_error 502 "" ≡ server_error)
    × (classify_upstream_error 500 "server is overloaded" ≡ overloaded)
    × (classify_upstream_error 418 "teapot" ≡ unknown)
unfolding classify_upstream_error to_ascii_lowercase contains contains_any classify_status
classify_tests = (refl, refl, refl, refl, refl, refl, refl, refl, refl, refl)

rate_limited_400_no_failover_example :
    (is_retriable (classify_upstream_error 400 "Too Many Requests") ≡ true)
    × (http_status (classify_upstream_error 400 "Too Many Requests") ≡ 429)
    × (fallback_error 400 "Too Many Requests" ≡ false)
unfolding to_ascii_lowercase contains contains_any
rate_limited_400_no_failover_example =
    rate_limited_400_no_failover "Too Many Requests" refl (inr refl) refl refl

-- A parser that knows one body.
abbrev knows_one : String → Option Value
knows_one s = none
