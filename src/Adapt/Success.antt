-- ===== src/Adapt/Success.antt =====
-- src/service.rs: a successful upstream body as the client's endpoint expects it.
use kou_router.Prelude.{
  String, Bool, true, false, ◌||◌, Option, none, some, List, [], ◌∷◌, if◌then◌else◌, unwrap_or,
  or_else, and_then, map_option, is_some, str_eq,
}
use kou_router.Errors.{Result, ok, err, bad_request, json, ◌>>=◌}
use kou_router.Json.{
  Value, null, bool, number, pos_int, string, array_of, get, as_array, text_at, json_object,
}
use kou_router.Models.Endpoint.{
  EndpointKind, responses, messages, ollama_chat, files, audio_speech, audio_transcriptions,
}
use kou_router.Adapt.Sse.{is_sse_transcript}
use kou_router.Adapt.Responses.{text_output, reconstruct_responses_from_sse}

-- The first element of an array.
abbrev pub first_of : List Value → Option Value
first_of [] = none
first_of (v ∷ vs) = some v

-- `get("choices").and_then(as_array).and_then(first)`.
abbrev pub first_choice : Value → Option Value
first_choice body = and_then (and_then (get body "choices") as_array) first_of

unfoldable pub extract_assistant_text : Value → String
extract_assistant_text body = unwrap_or "" (
    and_then (and_then (first_choice body) (λ choice. get choice "message"))
      (λ message. text_at message "content"))

unfoldable pub openai_finish_to_messages_stop_reason : String → String
openai_finish_to_messages_stop_reason reason =
    if str_eq reason "length"
    then "max_tokens"
    else if str_eq reason "tool_calls" || str_eq reason "function_call"
    then "tool_use"
    else "end_turn"

unfoldable pub openai_usage_to_messages_usage : Value → Value
openai_usage_to_messages_usage usage =
    let zero_tokens = number (pos_int 0) in
    json_object (
      (
        "input_tokens",
        unwrap_or zero_tokens (or_else (get usage "input_tokens") (get usage "prompt_tokens")),
      )
      ∷ (
        "output_tokens",
        unwrap_or zero_tokens (or_else (get usage "output_tokens") (get usage "completion_tokens")),
      )
      ∷ [])

unfoldable pub adapt_to_responses : Value → Value
unfolding extract_assistant_text
adapt_to_responses body =
    if is_some (get body "output")
    then body
    else json_object (
        ("id", unwrap_or (string "resp_kou_router") (get body "id"))
        ∷ ("object", string "response")
        ∷ ("model", unwrap_or null (get body "model"))
        ∷ ("output", text_output (extract_assistant_text body))
        ∷ ("raw_openai_chat", body)
        ∷ [])

-- The entry that is inserted if the body has a usage.
abbrev pub usage_entry : Option Value → List (String × Value)
usage_entry none = []
usage_entry (some u) = ("usage", openai_usage_to_messages_usage u) ∷ []

unfoldable pub adapt_to_messages : Value → Value
unfolding extract_assistant_text openai_finish_to_messages_stop_reason
    openai_usage_to_messages_usage
adapt_to_messages body =
    let stop_reason = unwrap_or "end_turn" (
      map_option openai_finish_to_messages_stop_reason
        (and_then (first_choice body) (λ choice. text_at choice "finish_reason"))) in
    json_object (
      ("id", unwrap_or (string "msg_kou_router") (get body "id"))
      ∷ ("type", string "message")
      ∷ ("role", string "assistant")
      ∷ ("model", unwrap_or null (get body "model"))
      ∷ (
        "content",
        array_of (
            json_object
              (("type", string "text") ∷ ("text", string (extract_assistant_text body)) ∷ [])
            ∷ []),
      )
      ∷ ("stop_reason", string stop_reason)
      ∷ ("raw_openai_chat", body)
      ∷ usage_entry (get body "usage"))

unfoldable pub adapt_to_ollama : Value → Value
unfolding extract_assistant_text
adapt_to_ollama body = json_object (
    ("model", unwrap_or (string "unknown") (get body "model"))
    ∷ (
      "message",
      json_object
          (("role", string "assistant") ∷ ("content", string (extract_assistant_text body)) ∷ []),
    )
    ∷ ("done", bool true)
    ∷ ("raw_openai_chat", body)
    ∷ [])

-- The match on the endpoint.
unfoldable pub adapt_json : EndpointKind → Value → Result Value
unfolding adapt_to_responses adapt_to_messages adapt_to_ollama
adapt_json responses body = ok (adapt_to_responses body)
adapt_json messages body = ok (adapt_to_messages body)
adapt_json ollama_chat body = ok (adapt_to_ollama body)
adapt_json files body = err (bad_request "files endpoints should not use JSON success adapter")
adapt_json audio_speech body =
    err (bad_request "audio endpoints should not use JSON success adapter")
adapt_json audio_transcriptions body =
    err (bad_request "audio endpoints should not use JSON success adapter")
adapt_json _ body = ok body

-- What stands for a captured stream.
abbrev pub stream_capture : String → Value
stream_capture body =
    json_object
      (("object", string "stream.capture") ∷ ("stream", bool true) ∷ ("raw", string body) ∷ [])

module _ (from_str : String → Option Value) where
  -- `serde_json::from_str(...)?`; the text of the error is a parameter of the parser.
  abbrev pub parsed : String → Result Value
  parsed body = elim (from_str body) [ some v ↦ ok v | none ↦ err (json body) ]

  unfoldable pub adapt_success_body : EndpointKind → String → Bool → Bool → Result Value
  unfolding adapt_json
  adapt_success_body endpoint body stream_requested upstream_stream =
      if upstream_stream || stream_requested
      then ok (stream_capture body)
      else parsed body >>= adapt_json endpoint

  unfoldable pub adapt_responses_success_body : String → Bool → Bool → Result (Value × Bool)
  unfolding is_sse_transcript reconstruct_responses_from_sse adapt_to_responses
  adapt_responses_success_body body stream_requested upstream_stream =
      if is_sse_transcript body
      then if stream_requested
        then ok (json_object (("raw", string body) ∷ []), true)
        else ok (reconstruct_responses_from_sse from_str body, false)
      else parsed body >>= (λ v. ok (adapt_to_responses v, false))
