-- ===== src/Errors/Body.antt =====
-- src/error.rs: the bodies of error responses.
pub mod Laws
use Prim.Native.String
use kou_router.Prelude.{
  ℕ, String, Option, none, some, [], ◌∷◌, ◌++◌, if◌then◌else◌, or_else, and_then,
}
use kou_router.Text.{trim, is_empty_text}
use kou_router.Json.{Value, bool, string, number, pos_int, get, as_str, json_object}
use kou_router.Errors.{
  AppError, not_found, bad_request, upstream, classified_upstream, database, http, json,
  UpstreamErrorKind, rate_limit, overloaded, prompt_too_long, invalid_request,
  authentication_failed, model_not_found, content_filtered, timeout, server_error, connection_error,
  unknown, is_retriable,
}

-- The `Display` text that `thiserror` derives.
unfoldable pub display : AppError → String
display (not_found m) = String.◌++◌ "not found: " m
display (bad_request m) = String.◌++◌ "bad request: " m
display (upstream m) = String.◌++◌ "upstream error: " m
display (classified_upstream status body) = "classified upstream error"
display (database m) = String.◌++◌ "database error: " m
display (http m) = String.◌++◌ "http error: " m
display (json m) = String.◌++◌ "json error: " m

-- The body of an error that the router itself raises.
unfoldable pub router_error_body : AppError → Value
router_error_body e = json_object (
    (
      "error",
      json_object (("message", string (display e)) ∷ ("type", string "kou_router_error") ∷ []),
    )
    ∷ [])

-- `IntoResponse::into_response`: the status and the body.
unfoldable pub into_response : AppError → ℕ × Value
into_response (classified_upstream status body) = (status, body)
into_response (not_found m) = (404, router_error_body (not_found m))
into_response (bad_request m) = (400, router_error_body (bad_request m))
into_response (upstream m) = (502, router_error_body (upstream m))
into_response (database m) = (500, router_error_body (database m))
into_response (http m) = (500, router_error_body (http m))
into_response (json m) = (500, router_error_body (json m))

unfoldable pub kind_label : UpstreamErrorKind → String
kind_label rate_limit = "rate limit"
kind_label overloaded = "overloaded"
kind_label prompt_too_long = "prompt too long"
kind_label invalid_request = "invalid request"
kind_label authentication_failed = "authentication"
kind_label model_not_found = "model not found"
kind_label content_filtered = "content filtered"
kind_label timeout = "timeout"
kind_label server_error = "server"
kind_label connection_error = "connection"
kind_label unknown = "unknown"

-- serde's `rename_all = "snake_case"`.
unfoldable pub kind_name : UpstreamErrorKind → String
kind_name rate_limit = "rate_limit"
kind_name overloaded = "overloaded"
kind_name prompt_too_long = "prompt_too_long"
kind_name invalid_request = "invalid_request"
kind_name authentication_failed = "authentication_failed"
kind_name model_not_found = "model_not_found"
kind_name content_filtered = "content_filtered"
kind_name timeout = "timeout"
kind_name server_error = "server_error"
kind_name connection_error = "connection_error"
kind_name unknown = "unknown"

-- The text of a parsed error body: `error.message`, a text `error`, or `message`.
unfoldable pub message_of : Value → Option String
message_of v =
    or_else (and_then (and_then (get v "error") (λ e. get e "message")) as_str)
      (or_else (and_then (get v "error") as_str) (and_then (get v "message") as_str))

-- `serde_json::from_str` is a parameter of the functions below.
module _ (from_str : String → Option Value) where
  unfoldable pub extract_upstream_error_text : String → Option String
  unfolding message_of
  extract_upstream_error_text body =
      let trimmed = trim body in
      if is_empty_text trimmed
      then none
      else or_else (and_then (from_str trimmed) message_of) (some trimmed)

  unfoldable pub classified_upstream_message : UpstreamErrorKind → String → String
  unfolding kind_label
  classified_upstream_message kind body =
      let classified =
        String.◌++◌ "upstream provider returned " (String.◌++◌ (kind_label kind) " error") in
      elim (extract_upstream_error_text body) [
        | some text ↦ String.◌++◌ classified (String.◌++◌ ": " text)
        | none ↦ classified
      ]

  unfoldable pub enriched_error_response :
      UpstreamErrorKind → ℕ → String → String → Option ℕ → Value
  enriched_error_response kind status body provider_id retry_after_secs =
      let base =
        ("message", string (classified_upstream_message kind body))
        ∷ ("type", string (kind_name kind))
        ∷ ("upstream_status", number (pos_int status))
        ∷ ("provider_id", string provider_id)
        ∷ ("retriable", bool (is_retriable kind))
        ∷ [] in
      json_object (
        (
          "error",
          elim retry_after_secs [
            | none ↦ json_object base
            | some secs ↦ json_object (base ++ ("retry_after_secs", number (pos_int secs)) ∷ [])
          ],
        )
        ∷ [])
