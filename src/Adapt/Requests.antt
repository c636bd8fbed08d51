-- ===== src/Adapt/Requests.antt =====
-- src/service.rs: `normalize_request`, the checks and defaults of each endpoint. `to_string` is
-- serde_json's printer.
pub mod Laws
use kou_router.Prelude.{
  String, Bool, true, false, not, Option, none, some, List, [], ◌∷◌, if◌then◌else◌, unwrap_or,
  or_else, and_then, is_some, is_empty, map, ◌&&◌,
}
use kou_router.Text.{join}
use kou_router.Errors.{Result, ok, err, bad_request, ◌>>=◌}
use kou_router.Json.{
  has, Value, null, bool, number, string, array, object, Fields, get, get_field, insert_field,
  elements, array_of, as_str, as_bool, as_array, json_object, remove_field, or_insert_field,
}
use kou_router.Models.Endpoint.{
  EndpointKind, chat_completions, completions, messages, responses, ollama_chat, embeddings,
  images_generations, music_generations, videos_generations, moderations, rerank, search, files,
  audio_speech, audio_transcriptions, same_endpoint,
}

pub record NormalizedRequest : Type 0 where
  pub model : String
  pub stream : Bool
  pub body : Value
  pub inject_model : Bool

-- `if object.get(key).is_none() { return Err(...) }`.
abbrev pub required : String → String → Fields → Result Fields
required key message o = if has key o then ok o else err (bad_request message)

-- `[{"role": "user", "content": content}]`.
abbrev pub user_message : Value → Value
user_message content = json_object (("role", string "user") ∷ ("content", content) ∷ [])

-- An item of the input of the Responses API as a message.
abbrev pub as_message : Value → Value
as_message item = if is_some (get item "role") then item else user_message item

unfoldable pub input_messages : Value → Value
input_messages (string text) = array_of (user_message (string text) ∷ [])
input_messages (array items) = array_of (map as_message (elements items))
input_messages other = array_of (user_message other ∷ [])

-- A copy of the input under `messages`, if there is one.
abbrev pub copied : Option Value → Fields → Fields
copied none o = o
copied (some input) o = insert_field "messages" input o

unfoldable pub normalize_messages : Fields → Fields
unfolding or_insert_field insert_field
normalize_messages o =
    let named = if has "messages" o then o else copied (get_field "input" o) o in
    or_insert_field "stream" (bool false) named

unfoldable pub normalize_responses : Fields → Fields
unfolding input_messages insert_field
normalize_responses o =
    if has "input" o && not (has "messages" o)
    then insert_field "messages" (input_messages (unwrap_or null (get_field "input" o))) o
    else o

unfoldable pub normalize_rerank : Fields → Result Fields
unfolding get_field
normalize_rerank o =
    if has "query" o
    then elim (and_then (get_field "documents" o) as_array) [
      | none ↦ err (bad_request "rerank request requires documents array")
      | some documents ↦
          if is_empty documents
          then err (bad_request "rerank request requires at least one document")
          else ok o
    ]
    else err (bad_request "rerank request requires query")

-- The defaults of a search.
unfoldable pub search_defaults : Fields → Fields
unfolding or_insert_field
search_defaults o =
    let named =
      or_insert_field "provider" (string "web") (or_insert_field "model" (string "search/web") o) in
    or_insert_field "search_type" (unwrap_or (string "web") (get_field "provider" named)) named

unfoldable pub normalize_search : Fields → Result Fields
unfolding search_defaults
normalize_search o =
    if has "query" o
    then ok (search_defaults o)
    else err (bad_request "search request requires query")

module _ (to_string : Value → String) where
  unfoldable pub prompt_text : Value → String
  prompt_text (array values) = join "\n" (map (λ v. unwrap_or "" (as_str v)) (elements values))
  prompt_text (string text) = text
  prompt_text other = to_string other

  unfoldable pub normalize_completions : Fields → Result Fields
  unfolding prompt_text remove_field insert_field
  normalize_completions o = if has "messages" o then ok o else elim (get_field "prompt" o) [
    | none ↦ err (bad_request "missing prompt")
    | some prompt ↦ ok (
        insert_field "messages" (array_of (user_message (string (prompt_text prompt)) ∷ []))
          (remove_field "prompt" o))
  ]

  -- The match on the endpoint.
  unfoldable pub normalize_fields : EndpointKind → Fields → Result Fields
  unfolding normalize_completions normalize_messages normalize_responses normalize_rerank
      normalize_search
  normalize_fields completions o = normalize_completions o
  normalize_fields messages o = ok (normalize_messages o)
  normalize_fields responses o = ok (normalize_responses o)
  normalize_fields files o = err (bad_request "files endpoints should use raw proxy routing")
  normalize_fields ollama_chat o = required "messages" "ollama chat requires messages" o
  normalize_fields embeddings o = required "input" "embeddings request requires input" o
  normalize_fields images_generations o =
      required "prompt" "image generation request requires prompt" o
  normalize_fields music_generations o =
      required "prompt" "music generation request requires prompt" o
  normalize_fields videos_generations o =
      required "prompt" "video generation request requires prompt" o
  normalize_fields moderations o =
      required "input" "moderation request requires input" o
      >>= (λ p. ok (or_insert_field "model" (string "openai/omni-moderation-latest") p))
  normalize_fields rerank o = normalize_rerank o
  normalize_fields search o = normalize_search o
  normalize_fields audio_speech o =
      required "input" "audio speech request requires input" o
      >>= (λ p. ok (or_insert_field "voice" (string "alloy") p))
  normalize_fields audio_transcriptions o =
      err (bad_request "audio transcriptions require multipart/form-data")
  normalize_fields chat_completions o = ok o

  unfoldable pub normalized_of : EndpointKind → Fields → Result NormalizedRequest
  unfolding get_field
  normalized_of endpoint o = elim (and_then (get_field "model" o) as_str) [
    | none ↦ err (bad_request "missing model")
    | some model ↦ ok (record {
      model = model;
      stream = unwrap_or false (and_then (get_field "stream" o) as_bool);
      body = object o;
      inject_model = not (same_endpoint endpoint search);
    })
  ]

  unfoldable pub normalize_request : EndpointKind → Value → Result NormalizedRequest
  unfolding normalize_fields normalized_of
  normalize_request endpoint (object o) = normalize_fields endpoint o >>= normalized_of endpoint
  normalize_request endpoint _ = err (bad_request "request body must be a JSON object")
