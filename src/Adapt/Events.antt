-- ===== src/Adapt/Events.antt =====
-- src/service.rs: the stream of the Responses API as a stream of chat completions or of messages.
-- serde_json's parser and printer are parameters.
pub mod Laws
use Prim.Native.String
use kou_router.Prelude.{
  String, Bool, true, false, not, ◌&&◌, ◌||◌, Option, none, some, List, [], ◌∷◌, ◌++◌,
  if◌then◌else◌, unwrap_or, or_else, and_then, is_some, keep, str_eq, map,
}
use kou_router.Text.{trim, is_empty_text, split_text, lines, concat}
use kou_router.Json.{
  Value, null, number, pos_int, string, array_of, get, as_str, text_at, json_object,
}
use kou_router.Models.Endpoint.{EndpointKind, chat_completions, messages, same_endpoint}
use kou_router.Upstream.Stream.{Item, bytes, failure}
use kou_router.Adapt.Sse.{Event, parse_sse_events, named, says_nothing}

pub record ResponsesStreamState : Type 0 where
  pub id : Option String
  pub model : Option String
  pub messages_started : Bool
  pub done : Bool

abbrev pub initial : ResponsesStreamState
initial = record { id = none; model = none; messages_started = false; done = false }

-- The translation of an event: what it yields, if anything, and the state.
abbrev pub Translated : Type 0
Translated = Option String × ResponsesStreamState

unfoldable pub update_responses_stream_state : Value → ResponsesStreamState → ResponsesStreamState
update_responses_stream_state value state =
    let response = unwrap_or value (get value "response") in
    record state {
      id = or_else (text_at response "id") state.id;
      model = or_else (text_at response "model") state.model;
    }

-- `pointer("/response/<key>")`.
abbrev pub in_response : Value → String → Option Value
in_response value key = and_then (get value "response") (λ r. get r key)

unfoldable pub response_error_to_openai_error : Value → Value
response_error_to_openai_error value = json_object (
    (
      "error",
      unwrap_or (json_object (("message", string "responses stream failed") ∷ []))
          (or_else (get value "error") (in_response value "error")),
    )
    ∷ [])

-- The event of an error, or of a response that failed.
unfoldable pub is_failure : Value → Bool
is_failure value =
    is_some (get value "error")
    || unwrap_or false
        (and_then (and_then (in_response value "status") as_str) (λ s. some (str_eq s "failed")))

abbrev pub stop_texts : List String
stop_texts =
    "event: content_block_stop\ndata: {\"type\":\"content_block_stop\",\"index\":0}\n\n"
    ∷ "event: message_delta\ndata: {\"type\":\"message_delta\",\"delta\":{\"stop_reason\":\"end_turn\",\"stop_sequence\":null},\"usage\":{\"output_tokens\":0}}\n\n"
    ∷ "event: message_stop\ndata: {\"type\":\"message_stop\"}\n\n" ∷ []

module _ (from_str : String → Option Value) (to_string : Value → String) where
  -- `format!("data: {}\n\n", value)`, behind an event's name if there is one.
  abbrev pub data_text : String → Value → String
  data_text before value = concat (before ∷ "data: " ∷ to_string value ∷ "\n\n" ∷ [])

  unfoldable pub first_payload : List Event → Option (Option String × Value)
  first_payload [] = none
  first_payload ((event_name, payload) ∷ rest) =
      let later = first_payload rest in
      if says_nothing payload
      then later
      else elim (from_str payload) [ some value ↦ some (event_name, value) | none ↦ later ]

  unfoldable pub response_sse_payload : String → Option (Option String × Value)
  unfolding first_payload parse_sse_events
  response_sse_payload event = first_payload (parse_sse_events event)

  -- A chunk of a chat completion with this delta and finish reason.
  abbrev pub chat_chunk : ResponsesStreamState → Value → Value → Value
  chat_chunk state delta finish_reason = json_object (
      ("id", string (unwrap_or "chatcmpl_kou_router" state.id))
      ∷ ("object", string "chat.completion.chunk")
      ∷ ("model", string (unwrap_or "" state.model))
      ∷ (
        "choices",
        array_of (
            json_object (
              ("index", number (pos_int 0))
              ∷ ("delta", delta)
              ∷ ("finish_reason", finish_reason)
              ∷ [])
            ∷ []),
      )
      ∷ [])

  abbrev pub stopped : ResponsesStreamState → ResponsesStreamState
  stopped state = record state { done = true }

  -- An event whose payload was read, once the state is updated.
  unfoldable pub chat_event : Option String → Value → ResponsesStreamState → Translated
  unfolding is_failure response_error_to_openai_error
  chat_event event_name value state =
      let finished =
        if named "completed" event_name
        then (
          some (
              concat (
                data_text "" (chat_chunk state (json_object []) (string "stop"))
                ∷ "data: [DONE]\n\n"
                ∷ [])),
          stopped state,
        )
        else (none, state) in
      if is_failure value
      then (some (data_text "" (response_error_to_openai_error value)), stopped state)
      else if named "output_text.delta" event_name
      then elim (text_at value "delta") [
        | some delta ↦ (
          some
              (data_text "" (chat_chunk state (json_object (("content", string delta) ∷ [])) null)),
          state,
        )
        | none ↦ finished
      ]
      else finished

  unfoldable pub responses_sse_event_to_chat_event : String → ResponsesStreamState → Translated
  unfolding response_sse_payload chat_event update_responses_stream_state
  responses_sse_event_to_chat_event event state = elim (response_sse_payload event) [
    | none ↦ (none, state)
    | some payload ↦ chat_event payload.0 payload.1 (update_responses_stream_state payload.1 state)
  ]

  unfoldable pub message_start : ResponsesStreamState → String
  message_start state = data_text "event: message_start\n" (
      json_object (
        ("type", string "message_start")
        ∷ (
          "message",
          json_object (
              ("id", string (unwrap_or "msg_kou_router" state.id))
              ∷ ("type", string "message")
              ∷ ("role", string "assistant")
              ∷ ("model", string (unwrap_or "" state.model))
              ∷ ("content", array_of [])
              ∷ ("stop_reason", null)
              ∷ ("stop_sequence", null)
              ∷ (
                "usage",
                json_object (
                    ("input_tokens", number (pos_int 0))
                    ∷ ("output_tokens", number (pos_int 0))
                    ∷ []),
              )
              ∷ []),
        )
        ∷ []))

  unfoldable pub responses_messages_stop_event :
      ResponsesStreamState → String × ResponsesStreamState
  unfolding message_start
  responses_messages_stop_event state = (
    concat ((if state.messages_started then "" else message_start state) ∷ stop_texts),
    record state { done = true; messages_started = true },
  )

  abbrev pub block_start : String
  block_start =
      "event: content_block_start\ndata: {\"type\":\"content_block_start\",\"index\":0,\"content_block\":{\"type\":\"text\",\"text\":\"\"}}\n\n"

  unfoldable pub delta_event : String → ResponsesStreamState → Translated
  unfolding message_start
  delta_event delta state = (
    some (
        concat (
          (if state.messages_started then "" else concat (message_start state ∷ block_start ∷ []))
          ∷ data_text "event: content_block_delta\n" (
              json_object (
                ("type", string "content_block_delta")
                ∷ ("index", number (pos_int 0))
                ∷ (
                  "delta",
                  json_object (("type", string "text_delta") ∷ ("text", string delta) ∷ []),
                )
                ∷ []))
          ∷ [])),
    record state { messages_started = true },
  )

  unfoldable pub messages_event : Option String → Value → ResponsesStreamState → Translated
  unfolding is_failure response_error_to_openai_error delta_event responses_messages_stop_event
  messages_event event_name value state =
      let stop = responses_messages_stop_event state in
      let finished =
        if named "completed" event_name then (some stop.0, stop.1) else (none, state) in
      if is_failure value
      then (some (data_text "event: error\n" (response_error_to_openai_error value)), stopped state)
      else if named "output_text.delta" event_name
      then elim (text_at value "delta") [ some delta ↦ delta_event delta state | none ↦ finished ]
      else finished

  unfoldable pub responses_sse_event_to_messages_event : String → ResponsesStreamState → Translated
  unfolding response_sse_payload messages_event update_responses_stream_state
  responses_sse_event_to_messages_event event state = elim (response_sse_payload event) [
    | none ↦ (none, state)
    | some payload ↦
        messages_event payload.0 payload.1 (update_responses_stream_state payload.1 state)
  ]

  unfoldable pub responses_sse_event_to_endpoint_event :
      EndpointKind → String → ResponsesStreamState → Translated
  unfolding responses_sse_event_to_chat_event responses_sse_event_to_messages_event
  responses_sse_event_to_endpoint_event chat_completions event state =
      responses_sse_event_to_chat_event event state
  responses_sse_event_to_endpoint_event messages event state =
      responses_sse_event_to_messages_event event state
  responses_sse_event_to_endpoint_event _ event state = (some event, state)

  module _ (endpoint : EndpointKind) where
    -- The closing text of a stream that is not done.
    unfoldable pub closing_text : ResponsesStreamState → String
    unfolding responses_messages_stop_event
    closing_text state =
        if same_endpoint endpoint messages
        then (responses_messages_stop_event state).0
        else "data: [DONE]\n\n"

    -- The texts that a sequence of events yields, and the state.
    unfoldable pub translate_events :
        List String → ResponsesStreamState → List String × ResponsesStreamState
    unfolding responses_sse_event_to_endpoint_event
    translate_events [] state = ([], state)
    translate_events (event ∷ events) state =
        let here = responses_sse_event_to_endpoint_event endpoint event state in
        let rest = translate_events events here.1 in
        (elim here.0 [ some text ↦ text ∷ rest.0 | none ↦ rest.0 ], rest.1)

    -- The text of a parsed event, as the transcript's translation writes it again.
    unfoldable pub rewritten : Event → String
    unfolding lines
    rewritten (event_name, payload) = concat (
        elim event_name [ some name ↦ concat ("event: " ∷ name ∷ "\n" ∷ []) | none ↦ "" ]
        ∷ concat (map (λ line. concat ("data: " ∷ line ∷ "\n" ∷ [])) (lines payload))
        ∷ "\n"
        ∷ [])

    unfoldable pub responses_sse_transcript_to_endpoint_stream_text : String → String
    unfolding translate_events rewritten closing_text parse_sse_events
    responses_sse_transcript_to_endpoint_stream_text body =
        let events = keep (λ (e : Event). not (says_nothing e.1)) (parse_sse_events body) in
        let out = translate_events (map rewritten events) initial in
        String.◌++◌ (concat out.0) (if out.1.done then "" else closing_text out.1)

    -- All pieces but the last, and the last.
    abbrev pub parted : List String → List String × String
    parted [] = ([], "")
    parted (p ∷ []) = ([], p)
    parted (p ∷ q ∷ ps) = let rest = parted (q ∷ ps) in (p ∷ rest.0, rest.1)

    -- `yield` of a text that is not empty.
    abbrev pub yielded : List String → List Item → List Item
    yielded [] items = items
    yielded (text ∷ texts) items =
        if is_empty_text text then yielded texts items else bytes text ∷ yielded texts items

    -- The end of the loop: what is pending is an event, and a stream that is not done is closed.
    unfoldable pub last_items : String → ResponsesStreamState → List Item
    unfolding translate_events closing_text
    last_items pending state =
        let out =
          translate_events (if is_empty_text (trim pending) then [] else pending ∷ []) state in
        yielded out.0 (if out.1.done then [] else bytes (closing_text out.1) ∷ [])

    -- `responses_sse_to_endpoint_stream`, with the pending text; `?` ends it at an error.
    unfoldable pub relay_from : List Item → String → ResponsesStreamState → List Item
    unfolding translate_events last_items split_text
    relay_from [] pending state = last_items pending state
    relay_from (failure e ∷ items) pending state = failure e ∷ []
    relay_from (bytes b ∷ items) pending state =
        let pieces = parted (split_text "\n\n" (String.◌++◌ pending b)) in
        let out = translate_events pieces.0 state in yielded out.0 (relay_from items pieces.1 out.1)

    unfoldable pub responses_sse_to_endpoint_stream : List Item → List Item
    unfolding relay_from
    responses_sse_to_endpoint_stream stream = relay_from stream "" initial
