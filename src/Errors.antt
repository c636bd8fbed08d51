-- ===== src/Errors.antt =====
-- src/error.rs: the application's errors, the kinds of upstream errors, how an upstream response is
-- classified, and the error body that the client receives. The messages of errors that other crates
-- raise are texts here.
pub mod Body
pub mod Laws
mod Tests
use kou_router.Prelude.{
  ℕ, String, Bool, true, false, ◌||◌, ◌==◌, leb, ltb, ◌&&◌, List, [], ◌∷◌, any, if◌then◌else◌,
}
use kou_router.Text.{to_ascii_lowercase, contains, in_range}
use kou_router.Json.{Value}

pub data AppError : Type 0 where
  not_found : String → AppError
  bad_request : String → AppError
  upstream : String → AppError
  classified_upstream : ℕ → Value → AppError
  database : String → AppError
  http : String → AppError
  json : String → AppError

unfoldable pub status_code : AppError → ℕ
status_code (classified_upstream status body) = status
status_code (not_found m) = 404
status_code (bad_request m) = 400
status_code (upstream m) = 502
status_code (database m) = 500
status_code (http m) = 500
status_code (json m) = 500

pub data Result {ℓ} (A : Type ℓ) : Type ℓ where
  ok : A → Result A
  err : AppError → Result A

-- `?`.
infixl 5 ◌>>=◌
abbrev pub ◌>>=◌ {ℓ κ} : {A : Type ℓ} {B : Type κ} → Result A → (A → Result B) → Result B
ok a >>= f = f a
err e >>= f = err e

pub data UpstreamErrorKind : Type 0 where
  rate_limit overloaded prompt_too_long invalid_request authentication_failed : UpstreamErrorKind
  model_not_found content_filtered timeout server_error connection_error : UpstreamErrorKind
  unknown : UpstreamErrorKind

unfoldable pub is_retriable : UpstreamErrorKind → Bool
is_retriable rate_limit = true
is_retriable overloaded = true
is_retriable timeout = true
is_retriable server_error = true
is_retriable connection_error = true
is_retriable _ = false

unfoldable pub http_status : UpstreamErrorKind → ℕ
http_status rate_limit = 429
http_status overloaded = 503
http_status prompt_too_long = 400
http_status invalid_request = 400
http_status authentication_failed = 401
http_status model_not_found = 404
http_status content_filtered = 400
http_status timeout = 504
http_status server_error = 502
http_status connection_error = 502
http_status unknown = 502

-- `StatusCode::is_success` and `is_server_error`.
unfoldable pub is_success : ℕ → Bool
is_success status = in_range 200 299 status

unfoldable pub is_server_error : ℕ → Bool
is_server_error status = in_range 500 599 status

-- Whether the text holds one of the patterns.
unfoldable pub contains_any : String → List String → Bool
contains_any lower patterns = any (contains lower) patterns

abbrev pub prompt_patterns : List String
prompt_patterns =
    "prompt is too long" ∷ "context_length_exceeded" ∷ "max_tokens" ∷ "maximum context length"
    ∷ "too many tokens" ∷ []

abbrev pub rate_patterns : List String
rate_patterns = "rate limit" ∷ "rate_limit" ∷ "quota" ∷ "too many requests" ∷ []

abbrev pub overload_patterns : List String
overload_patterns = "overloaded" ∷ "capacity" ∷ "temporarily unavailable" ∷ []

abbrev pub filter_patterns : List String
filter_patterns = "content_filter" ∷ "content filter" ∷ "safety" ∷ "blocked" ∷ "content_policy" ∷ []

abbrev pub auth_patterns : List String
auth_patterns =
    "authentication" ∷ "invalid.*key" ∷ "unauthorized" ∷ "invalid api key" ∷ "incorrect api key"
    ∷ []

-- The fallback on the status, behind the body's patterns.
unfoldable pub classify_status : ℕ → UpstreamErrorKind
unfolding is_server_error
classify_status status =
    if status == 400
    then invalid_request
    else if status == 500 || status == 502 || status == 503
    then server_error
    else if is_server_error status
    then server_error
    else unknown

-- The patterns in the lowered body, in the order of the source.
unfoldable pub classify_body : ℕ → String → UpstreamErrorKind
classify_body status lower =
    if contains_any lower prompt_patterns
    then prompt_too_long
    else if contains_any lower rate_patterns
    then rate_limit
    else if contains_any lower overload_patterns
    then overloaded
    else if contains_any lower filter_patterns
    then content_filtered
    else if contains_any lower auth_patterns
    then authentication_failed
    else classify_status status

-- `classify_upstream_error`. Both branches of the source under 404 return the same kind.
unfoldable pub classify_upstream_error : ℕ → String → UpstreamErrorKind
unfolding classify_body
classify_upstream_error status body =
    let lower = to_ascii_lowercase body in
    if status == 429
    then rate_limit
    else if status == 401 || status == 403
    then authentication_failed
    else if status == 404
    then if contains lower "model" then model_not_found else model_not_found
    else if status == 408
    then timeout
    else if status == 529
    then overloaded
    else classify_body status lower

-- `fallback_error` of src/upstream.rs: whether the router goes on to the next target.
unfoldable pub fallback_error : ℕ → String → Bool
unfolding is_server_error
fallback_error status body =
    status == 429
    || is_server_error status
    || contains (to_ascii_lowercase body) "rate limit"
    || contains (to_ascii_lowercase body) "quota"
