-- ===== src/Adapt/Codex.antt =====
-- src/service.rs: a request of the Responses API as the Codex backend accepts it, and the debug rows
-- that are kept of its responses. serde_json's parser and printer are parameters.
pub mod Laws
use kou_router.Prelude.{
  ℕ, ◌-◌, String, Bool, true, false, not, ◌&&◌, ◌||◌, Option, none, some, List, [], ◌∷◌, ◌++◌,
  if◌then◌else◌, unwrap_or, or_else, and_then, map_option, is_some, map, keep, all, str_eq, length,
}
use kou_router.Text.{join, trim, is_empty_text, split_text, eq_ignore_ascii_case}
use kou_router.Json.{
  Value, null, bool, number, string, array, object, Items, nil, cons, Fields, end, field, get,
  get_field, insert_field, elements, array_of, as_str, as_array, json_object, remove_field, text_at,
}
use kou_router.Models.{ProviderConnection}
use kou_router.Models.Endpoint.{EndpointKind, responses, same_endpoint, as_str as endpoint_as_str}
use kou_router.Adapt.Sse.{Event, parse_sse_events, says_nothing}

unfoldable pub is_codex_provider : ProviderConnection → Bool
is_codex_provider p = eq_ignore_ascii_case p.provider "codex"

abbrev pub cons_option {ℓ} : {A : Type ℓ} → Option A → List A → List A
cons_option none xs = xs
cons_option (some x) xs = x ∷ xs

-- `filter_map`.
abbrev pub filter_map {ℓ κ} : {A : Type ℓ} {B : Type κ} → (A → Option B) → List A → List B
filter_map f [] = []
filter_map f (x ∷ xs) = cons_option (f x) (filter_map f xs)

abbrev pub input_text : String → Value
input_text text = json_object (("type", string "input_text") ∷ ("text", string text) ∷ [])

abbrev pub type_is : String → Value → Bool
type_is name item = unwrap_or false (map_option (λ t. str_eq t name) (text_at item "type"))

-- An item of a message's content: a text of a chat becomes an input text.
unfoldable pub content_item : Value → Value
content_item item =
    if type_is "text" item
    then unwrap_or item (map_option input_text (text_at item "text"))
    else item

unfoldable pub item_text : Value → Option String
item_text item =
    if type_is "text" item || type_is "input_text" item || type_is "output_text" item
    then text_at item "text"
    else as_str item

-- `items.iter().all(|item| item.get("type").is_some())`, or an object that has a type.
unfoldable pub codex_input_is_response_items : Option Value → Bool
codex_input_is_response_items none = false
codex_input_is_response_items (some (array items)) =
    all (λ item. is_some (get item "type")) (elements items)
codex_input_is_response_items (some (object fs)) = is_some (get_field "type" fs)
codex_input_is_response_items (some _) = false

-- A list that is not empty.
abbrev pub nonempty_list {ℓ} : {A : Type ℓ} → List A → Option (List A)
nonempty_list [] = none
nonempty_list (x ∷ xs) = some (x ∷ xs)

abbrev pub is_system : Value → Bool
is_system message = unwrap_or false (map_option (λ r. str_eq r "system") (text_at message "role"))

abbrev pub content_of : Value → Value
content_of message = unwrap_or null (get message "content")

module _ (to_string : Value → String) where
  unfoldable pub codex_response_message_content : Value → Value
  unfolding content_item
  codex_response_message_content (string text) = array_of (input_text text ∷ [])
  codex_response_message_content (array items) = array_of (map content_item (elements items))
  codex_response_message_content null = array_of []
  codex_response_message_content other = array_of (input_text (to_string other) ∷ [])

  unfoldable pub codex_message_text : Value → Option String
  unfolding item_text
  codex_message_text (string text) = some text
  codex_message_text (array items) =
      let text = join "\n" (filter_map item_text (elements items)) in
      if is_empty_text text then none else some text
  codex_message_text null = none
  codex_message_text other = some (to_string other)

  unfoldable pub codex_response_message_item : String → Value → Value
  unfolding codex_response_message_content
  codex_response_message_item role content = json_object (
      ("type", string "message")
      ∷ ("role", string role)
      ∷ ("content", codex_response_message_content content)
      ∷ [])

  -- The items of the messages that are not the system's.
  unfoldable pub codex_response_input_from_messages : List Value → List Value
  unfolding codex_response_message_item
  codex_response_input_from_messages messages =
      map (λ m. codex_response_message_item (unwrap_or "user" (text_at m "role")) (content_of m))
        (keep (λ m. not (is_system m)) messages)

  -- The texts of the system's messages.
  unfoldable pub system_text : List Value → String
  unfolding codex_message_text
  system_text messages = join "\n\n" (
      keep (λ text. not (is_empty_text (trim text)))
        (filter_map (λ m. codex_message_text (content_of m)) (keep is_system messages)))

  unfoldable pub codex_response_instructions : Value → Value → String
  unfolding system_text
  codex_response_instructions body normalized_body = unwrap_or "" (
      or_else (text_at body "instructions")
        (map_option system_text (and_then (get normalized_body "messages") as_array)))

  unfoldable pub codex_response_input : Value → Value → Value
  unfolding codex_response_input_from_messages codex_response_message_item
  codex_response_input body normalized_body =
      let items =
        and_then
          (and_then (or_else (get body "messages") (get normalized_body "messages")) as_array)
          (λ messages. nonempty_list (codex_response_input_from_messages messages)) in
      array_of (
        unwrap_or (codex_response_message_item "user" (unwrap_or null (get body "input")) ∷ [])
          items)

  -- The changes to the object: instructions and input where it has none that serve, ...
  abbrev pub given_fields : Option String → Option Value → Fields → Fields
  given_fields instructions input o =
      let instructed =
        unwrap_or o (map_option (λ i. insert_field "instructions" (string i) o) instructions) in
      unwrap_or instructed (map_option (λ i. insert_field "input" i instructed) input)

  -- ... and the fields that the backend wants or refuses.
  unfoldable pub codex_fields : Option String → Option Value → Fields → Fields
  unfolding insert_field remove_field
  codex_fields instructions input o = insert_field "store" (bool false) (
      remove_field "messages" (
        insert_field "stream" (bool true) (
          remove_field "max_completion_tokens" (
            remove_field "max_output_tokens"
              (remove_field "max_tokens" (given_fields instructions input o))))))

  abbrev pub adapted_object : Value → Value → Value → Value
  adapted_object body normalized_body (object o) = object (
      codex_fields
        (if is_some (get body "instructions")
          then none
          else some (codex_response_instructions body normalized_body))
        (if codex_input_is_response_items (get body "input")
          then none
          else some (codex_response_input body normalized_body))
        o)
  adapted_object body normalized_body other = other

  unfoldable pub maybe_adapt_codex_responses_request :
      EndpointKind → ProviderConnection → Value → Value → Value
  unfolding is_codex_provider codex_response_instructions codex_response_input codex_fields
      codex_input_is_response_items
  maybe_adapt_codex_responses_request endpoint provider body normalized_body =
      if not (same_endpoint endpoint responses) || not (is_codex_provider provider)
      then body
      else adapted_object body normalized_body body

pub record NewResponseDebugLog : Type 0 where
  pub request_id : String
  pub provider_id : String
  pub provider_account_id : Option String
  pub model : String
  pub endpoint : String
  pub sequence_no : ℕ
  pub upstream_status : ℕ
  pub raw_body : String
  pub reasoning_summary_json : Option String
  pub obfuscation_count : ℕ

unfoldable pub count_obfuscation_occurrences : String → ℕ
unfolding split_text
count_obfuscation_occurrences haystack = length (split_text "\"obfuscation\"" haystack) - 1

-- The summary of an object that is a reasoning.
unfoldable pub own_summary : Fields → List Value
own_summary fs =
    if type_is "reasoning" (object fs)
    then elim (get_field "summary" fs) [ some summary ↦ summary ∷ [] | none ↦ [] ]
    else []

unfoldable mutual
  pub collect_reasoning_summaries : Value → List Value
  collect_reasoning_summaries null = []
  collect_reasoning_summaries (bool b) = []
  collect_reasoning_summaries (number n) = []
  collect_reasoning_summaries (string s) = []
  collect_reasoning_summaries (array items) = summaries_in_items items
  collect_reasoning_summaries (object fs) = own_summary fs ++ summaries_in_fields fs

  pub summaries_in_items : Items → List Value
  summaries_in_items nil = []
  summaries_in_items (cons v items) = collect_reasoning_summaries v ++ summaries_in_items items

  pub summaries_in_fields : Fields → List Value
  summaries_in_fields end = []
  summaries_in_fields (field k v fs) = collect_reasoning_summaries v ++ summaries_in_fields fs

module _ (from_str : String → Option Value) (to_string : Value → String) where
  -- The summaries of the events of a transcript.
  unfoldable pub event_summaries : List Event → List Value
  unfolding collect_reasoning_summaries
  event_summaries [] = []
  event_summaries ((event_name, payload) ∷ rest) =
      let later = event_summaries rest in
      if says_nothing payload
      then later
      else unwrap_or [] (map_option collect_reasoning_summaries (from_str payload)) ++ later

  unfoldable pub extract_reasoning_summary_json : String → Value → Option String
  unfolding event_summaries collect_reasoning_summaries parse_sse_events
  extract_reasoning_summary_json raw_body body =
      map_option (λ summaries. to_string (array_of summaries))
        (or_else (nonempty_list (collect_reasoning_summaries body))
          (nonempty_list (event_summaries (parse_sse_events raw_body))))

  unfoldable pub build_response_debug_log :
      String
      → String
      → Option String
      → String
      → ℕ
      → ℕ
      → String
      → Value
      → EndpointKind
      → Bool
      → NewResponseDebugLog
  unfolding extract_reasoning_summary_json count_obfuscation_occurrences
  build_response_debug_log request_id provider_id provider_account_id model sequence_no
        upstream_status raw_body body endpoint provider_is_codex =
      let examined = same_endpoint endpoint responses && provider_is_codex in
      record {
        request_id = request_id;
        provider_id = provider_id;
        provider_account_id = provider_account_id;
        model = model;
        endpoint = endpoint_as_str endpoint;
        sequence_no = sequence_no;
        upstream_status = upstream_status;
        raw_body = raw_body;
        reasoning_summary_json =
            if examined then extract_reasoning_summary_json raw_body body else none;
        obfuscation_count = if examined then count_obfuscation_occurrences raw_body else 0;
      }
