-- ===== src/ResponseCache/Policy.antt =====
-- src/response_cache.rs: which requests the response cache may answer.
pub mod Laws
use Prim.Native.String
use kou_router.Prelude.{
  String, Bool, true, false, not, ◌&&◌, ◌||◌, Option, none, some, List, [], ◌∷◌, str_eq,
  if◌then◌else◌, any, keep, find_first, unwrap_or, and_then, map_option,
}
use kou_router.Text.{trim, to_ascii_lowercase, starts_with, is_empty_text}
use kou_router.Json.{
  Value, null, bool, number, string, array, object, Items, nil, cons, Fields, end, field, get,
  as_bool, is_zero_number,
}
use kou_router.Models.Endpoint.{
  EndpointKind, chat_completions, completions, messages, responses, ollama_chat, embeddings,
  moderations, rerank, same_endpoint, is_chat_family,
}
use kou_router.Upstream.{Headers}

pub record ResponseCachePolicy : Type 0 where
  pub cacheable : Bool
  pub reason : Option String

abbrev pub allow : ResponseCachePolicy
allow = record { cacheable = true; reason = none }

abbrev pub deny : String → ResponseCachePolicy
deny reason = record { cacheable = false; reason = some reason }

abbrev pub cacheable_endpoints : List EndpointKind
cacheable_endpoints =
    chat_completions ∷ completions ∷ messages ∷ responses ∷ ollama_chat ∷ embeddings ∷ moderations
    ∷ rerank ∷ []

unfoldable pub temperature_is_zero : Value → Bool
unfolding is_zero_number
temperature_is_zero body = elim (get body "temperature") [
  | some (number n) ↦ is_zero_number n
  | _ ↦ false
]

unfoldable pub truthy_field : Value → String → Bool
truthy_field body key = unwrap_or false (and_then (get body key) as_bool)

unfoldable pub non_empty : Value → Bool
non_empty null = false
non_empty (bool b) = b
non_empty (string s) = not (is_empty_text (trim s)) && not (str_eq s "none")
non_empty (array nil) = false
non_empty (array (cons v vs)) = true
non_empty (object end) = false
non_empty (object (field k v fs)) = true
non_empty (number n) = true

unfoldable pub non_empty_field : Value → String → Bool
unfolding non_empty
non_empty_field body key = unwrap_or false (map_option non_empty (get body key))

unfoldable mutual
  pub contains_key_recursive : Value → String → Bool
  contains_key_recursive null key = false
  contains_key_recursive (bool b) key = false
  contains_key_recursive (number n) key = false
  contains_key_recursive (string s) key = false
  contains_key_recursive (array items) key = items_contain items key
  contains_key_recursive (object fields) key = fields_contain fields key

  pub items_contain : Items → String → Bool
  items_contain nil key = false
  items_contain (cons v items) key = contains_key_recursive v key || items_contain items key

  pub fields_contain : Fields → String → Bool
  fields_contain end key = false
  fields_contain (field name v fields) key =
      str_eq name key || contains_key_recursive v key || fields_contain fields key

unfoldable pub is_live : String → Bool
is_live name =
    let lowered = to_ascii_lowercase name in
    str_eq lowered "session-id"
    || str_eq lowered "thread-id"
    || str_eq lowered "traceparent"
    || str_eq lowered "tracestate"
    || starts_with lowered "x-codex-"
    || starts_with lowered "x-claude-"
    || starts_with lowered "x-openai-"
    || str_eq lowered "anthropic-beta"
    || str_eq lowered "anthropic-version"

-- The headers without a `PassthroughHeaders` are none.
unfoldable pub live_passthrough_header : Option Headers → Option String
unfolding is_live
live_passthrough_header passthrough = and_then passthrough (λ headers.
    map_option (λ (h : String × String). h.0)
      (find_first (λ (h : String × String). is_live h.0) headers))

abbrev pub blocked_fields : List String
blocked_fields =
    "tools" ∷ "tool_choice" ∷ "parallel_tool_calls" ∷ "web_search_options" ∷ "file_search" ∷ "files"
    ∷ "attachments" ∷ "previous_response_id" ∷ []

abbrev pub media_keys : List String
media_keys = "image_url" ∷ "input_image" ∷ "input_audio" ∷ "modalities" ∷ "audio" ∷ "video" ∷ []

-- The refusals in their order: the first that applies.
unfoldable pub first_refusal : List (Option String) → ResponseCachePolicy
first_refusal [] = allow
first_refusal (some reason ∷ refusals) = deny reason
first_refusal (none ∷ refusals) = first_refusal refusals

abbrev pub refusal_if : Bool → String → Option String
refusal_if b reason = if b then some reason else none

abbrev pub refused_name : Option String → (String → String) → Option String
refused_name o reason = map_option reason o

unfoldable pub refusals : EndpointKind → Value → Option Headers → Bool → List (Option String)
unfolding temperature_is_zero truthy_field non_empty_field contains_key_recursive
    live_passthrough_header
refusals endpoint body passthrough allow_nondeterministic_chat =
    refusal_if (not (any (same_endpoint endpoint) cacheable_endpoints))
      "endpoint is not response-cacheable"
    ∷ refusal_if
        (is_chat_family endpoint
          && (not allow_nondeterministic_chat && not (temperature_is_zero body)))
        "chat-family requests require temperature: 0"
    ∷ refusal_if (truthy_field body "store") "store:true is not response-cacheable"
    ∷ refused_name (find_first (non_empty_field body) blocked_fields)
        (λ name. String.◌++◌ name " is not response-cacheable")
    ∷ refused_name (find_first (contains_key_recursive body) media_keys)
        (λ name. String.◌++◌ name " content is not response-cacheable")
    ∷ refused_name (live_passthrough_header passthrough)
        (λ name. String.◌++◌ name " passthrough header is live context")
    ∷ []

unfoldable pub evaluate_policy : EndpointKind → Value → Option Headers → Bool → ResponseCachePolicy
unfolding first_refusal refusals
evaluate_policy endpoint request_body passthrough allow_nondeterministic_chat =
    first_refusal (refusals endpoint request_body passthrough allow_nondeterministic_chat)

-- The headers that are stored with a response.
unfoldable pub cacheable_response_headers : Headers → Headers
cacheable_response_headers headers =
    keep
      (λ (h : String × String).
        str_eq (to_ascii_lowercase h.0) "openai-model"
        || str_eq (to_ascii_lowercase h.0) "x-reasoning-included")
      headers
