-- ===== src/Adapt/Responses.antt =====
-- src/service.rs: a body of the Responses API from a transcript of its stream.
pub mod Laws
use Prim.Native.String
use kou_router.Prelude.{
  String, Bool, true, false, not, ◌&&◌, ◌||◌, Option, none, some, List, [], ◌∷◌, ◌++◌,
  if◌then◌else◌, unwrap_or, or_else, and_then, map_option, is_some, is_empty, str_eq, any,
}
use kou_router.Text.{is_empty_text}
use kou_router.Json.{
  Value, null, string, array_of, object, Fields, end, field, get, get_field, insert_field, as_str,
  as_array, is_null, text_at, json_object, or_insert_field,
}
use kou_router.Adapt.Sse.{Event, parse_sse_events, named, says_nothing}

abbrev pub merged_keys : List String
merged_keys =
    "id" ∷ "object" ∷ "model" ∷ "status" ∷ "usage" ∷ "error" ∷ "output" ∷ "created_at" ∷ []

unfoldable pub merge_entries : Fields → Fields → Fields
unfolding insert_field
merge_entries target end = target
merge_entries target (field key value rest) =
    merge_entries (if any (str_eq key) merged_keys then insert_field key value target else target)
      rest

unfoldable pub merge_response_fields : Fields → Value → Fields
unfolding merge_entries
merge_response_fields target (object fs) = merge_entries target fs
merge_response_fields target _ = target

-- The mutable variables of `reconstruct_responses_from_sse`.
pub record Rebuilt : Type 0 where
  pub response : Fields
  pub output_items : List Value
  pub synthesized_text : String

unfoldable pub merged_response : Value → Fields → Fields
unfolding merge_response_fields
merged_response value response = elim (get value "response") [
  | some response_value ↦ merge_response_fields response response_value
  | none ↦
      if is_some (get value "id") || is_some (get value "status") || is_some (get value "output")
      then merge_response_fields response value
      else response
]

unfoldable pub with_text : Value → String → String
with_text value synthesized = elim (text_at value "delta") [
  | some delta ↦ String.◌++◌ synthesized delta
  | none ↦
      if is_empty_text synthesized
      then String.◌++◌ synthesized (unwrap_or "" (text_at value "text"))
      else synthesized
]

unfoldable pub with_item : Option String → Value → List Value → List Value
with_item event_name value items =
    if named "output_item.done" event_name
    then elim (get value "item") [ some item ↦ items ++ item ∷ [] | none ↦ items ]
    else items

unfoldable pub read_value : Option String → Value → Rebuilt → Rebuilt
unfolding merged_response with_text with_item
read_value event_name value r = record {
  response = merged_response value r.response;
  output_items = with_item event_name value r.output_items;
  synthesized_text = with_text value r.synthesized_text;
}

-- `[{"type": "message", "role": "assistant", "content": [{"type": "output_text", "text": text}]}]`.
abbrev pub text_output : String → Value
text_output text = array_of (
    json_object (
      ("type", string "message")
      ∷ ("role", string "assistant")
      ∷ (
        "content",
        array_of (json_object (("type", string "output_text") ∷ ("text", string text) ∷ []) ∷ []),
      )
      ∷ [])
    ∷ [])

unfoldable pub output_is_empty : Fields → Bool
unfolding get_field
output_is_empty response =
    unwrap_or true (map_option is_empty (and_then (get_field "output" response) as_array))

unfoldable pub with_output : Rebuilt → Fields
unfolding output_is_empty insert_field
with_output r =
    if output_is_empty r.response
    then if not (is_empty r.output_items)
      then insert_field "output" (array_of r.output_items) r.response
      else if not (is_some (get_field "output" r.response))
          || not (is_empty_text r.synthesized_text)
      then insert_field "output" (text_output r.synthesized_text) r.response
      else r.response
    else r.response

unfoldable pub with_defaults : Fields → Fields
unfolding or_insert_field
with_defaults response = or_insert_field "error" null (
    or_insert_field "usage" null (
      or_insert_field "status" (string "completed")
        (or_insert_field "model" null (or_insert_field "id" (string "resp_kou_router") response))))

unfoldable pub responses_stream_error_message : Value → Option String
responses_stream_error_message body =
    if unwrap_or false (map_option (λ s. str_eq s "failed") (text_at body "status"))
    then map_option
        (λ error.
          if is_null error
          then "responses stream failed"
          else unwrap_or "responses stream failed"
              (or_else (text_at error "message") (as_str error)))
        (get body "error")
    else none

module _ (from_str : String → Option Value) where
  unfoldable pub read_event : Event → Rebuilt → Rebuilt
  unfolding read_value
  read_event (event_name, payload) r =
      if says_nothing payload
      then r
      else elim (from_str payload) [ some value ↦ read_value event_name value r | none ↦ r ]

  unfoldable pub read_events : List Event → Rebuilt → Rebuilt
  unfolding read_event
  read_events [] r = r
  read_events (event ∷ events) r = read_events events (read_event event r)

  unfoldable pub reconstruct_responses_from_sse : String → Value
  unfolding read_events with_output with_defaults parse_sse_events insert_field
  reconstruct_responses_from_sse body = object (
      with_defaults (
        with_output (
          read_events (parse_sse_events body) (record {
            response = insert_field "object" (string "response") end;
            output_items = [];
            synthesized_text = "";
          }))))
