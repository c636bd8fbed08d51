-- ===== src/Errors/Body/Laws.antt =====
-- src/error.rs: what the client reads in an error response.
use kou_router.Prelude.{ℕ, String, ◌≡◌, refl, Option, none, some, and_then, map_option}
use kou_router.Json.{Value, bool, string, number, pos_int, get, json_object}
use kou_router.Errors.{UpstreamErrorKind, is_retriable}
use kou_router.Errors.Body.{enriched_error_response, classified_upstream_message, kind_name}

-- The entry of the "error" object of a response body.
abbrev pub error_entry : Value → String → Option Value
error_entry body key = and_then (get body "error") (λ e. get e key)

-- The enriched body carries, under "error": the message, the kind's name, the upstream's status,
-- the provider, whether the kind is retried, and the seconds of Retry-After exactly if there are any.
pub enriched_error_response_fields :
    (from_str : String → Option Value) (kind : UpstreamErrorKind) (status : ℕ)
    (body provider_id : String) (retry_after_secs : Option ℕ)
    → let r = enriched_error_response from_str kind status body provider_id retry_after_secs in
      (error_entry r "message" ≡ some (string (classified_upstream_message from_str kind body)))
      × (error_entry r "type" ≡ some (string (kind_name kind)))
      × (error_entry r "upstream_status" ≡ some (number (pos_int status)))
      × (error_entry r "provider_id" ≡ some (string provider_id))
      × (error_entry r "retriable" ≡ some (bool (is_retriable kind)))
      × (error_entry r "retry_after_secs" ≡ map_option (λ s. number (pos_int s)) retry_after_secs)
unfolding enriched_error_response get json_object
enriched_error_response_fields from_str kind status body provider_id none =
    (refl, refl, refl, refl, refl, refl)
enriched_error_response_fields from_str kind status body provider_id (some secs) =
    (refl, refl, refl, refl, refl, refl)
