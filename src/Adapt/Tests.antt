-- ===== src/Adapt/Tests.antt =====
-- The theorems on the adaptation of requests and responses at concrete inputs.
use kou_router.Prelude.{String, true, false, ◌≡◌, refl, Option, some, [], ◌∷◌}
use kou_router.Errors.{ok}
use kou_router.Text.{eq_ignore_ascii_case}
use kou_router.Adapt.Codex.{is_codex_provider}
use kou_router.Json.{as_str, Value, null, bool, string, object, Fields, end, field, get, array_of}
use kou_router.Models.Endpoint.{responses, messages, chat_completions}
use kou_router.Repository.Tests.{named_provider}
use kou_router.Upstream.Stream.{bytes, failure}
use kou_router.Adapt.Requests.{NormalizedRequest, normalize_request, user_message}
use kou_router.Adapt.Requests.Laws.{normalize_request-idempotent}
use kou_router.Adapt.Codex.{maybe_adapt_codex_responses_request, is_codex_provider}
use kou_router.Adapt.Codex.Laws.{maybe_adapt_codex_responses_request_streams}
use kou_router.Adapt.Events.{responses_sse_to_endpoint_stream}
use kou_router.Adapt.Events.Laws.{
  failures, EndsAtFailure, responses_sse_to_endpoint_stream-failures,
}

abbrev no_text : Value → String
no_text v = ""

abbrev as_string : String → Option Value
as_string s = some (string s)

abbrev asked_with_input : Value
asked_with_input = object (field "input" (string "hi") (field "model" (string "gpt") end))

abbrev asked_with_messages : NormalizedRequest
asked_with_messages = record {
  model = "gpt";
  stream = false;
  body = object (
      field "input" (string "hi") (
        field "messages" (array_of (user_message (string "hi") ∷ []))
          (field "model" (string "gpt") end)));
  inject_model = true;
}

normalize_request-idempotent_example :
    normalize_request no_text responses asked_with_messages.body ≡ ok asked_with_messages
unfolding normalize_request as_str
normalize_request-idempotent_example =
    normalize_request-idempotent no_text responses asked_with_input asked_with_messages refl

abbrev codex_body : Fields
codex_body = field "max_tokens" null (field "stream" (bool false) end)

maybe_adapt_codex_responses_request_streams_example :
    let sent =
      maybe_adapt_codex_responses_request no_text responses
        (named_provider "Codex")
        (object codex_body)
        null in
    (get sent "store" ≡ some (bool false))
    × (get sent "stream" ≡ some (bool true))
    × (maybe_adapt_codex_responses_request no_text messages (named_provider "Codex") null null
        ≡ null)
    × (maybe_adapt_codex_responses_request no_text responses (named_provider "openai") null null
        ≡ null)
unfolding is_codex_provider eq_ignore_ascii_case
maybe_adapt_codex_responses_request_streams_example =
    maybe_adapt_codex_responses_request_streams no_text (named_provider "Codex")
      (named_provider "openai") messages responses codex_body null null refl refl refl

responses_sse_to_endpoint_stream-failures_example :
    let out =
      responses_sse_to_endpoint_stream as_string no_text chat_completions
        (bytes "data: 1\n\nda" ∷ bytes "ta: 2" ∷ failure "reset" ∷ bytes "data: 3\n\n" ∷ []) in
    (failures out ≡ "reset" ∷ []) × EndsAtFailure out
responses_sse_to_endpoint_stream-failures_example =
    responses_sse_to_endpoint_stream-failures as_string no_text chat_completions
      (bytes "data: 1\n\nda" ∷ bytes "ta: 2" ∷ failure "reset" ∷ bytes "data: 3\n\n" ∷ [])
