-- ===== src/Adapt/Requests/Laws.antt =====
-- src/service.rs: `normalize_request` on its own results.
use kou_router.Prelude.{
  ap, sym, String, true, false, not, ◌&&◌, ◌≡◌, refl, ◌∙◌, ◌⊎◌, inl, inr, none, [], ◌∷◌, unwrap_or,
  arith, Option-cases, Bool-cases,
}
use kou_router.Errors.{Result, ok, err, ◌>>=◌}
use kou_router.Json.{
  has, Value, null, bool, number, string, array, object, Fields, get_field, insert_field,
  or_insert_field, remove_field, array_of,
}
use kou_router.Json.Laws.{
  is_some-or_insert_field, or_insert_field_again, has-or_insert_field, has-inserted,
  get_field-or_insert_field,
}
use kou_router.Models.Endpoint.{
  EndpointKind, chat_completions, completions, messages, responses, ollama_chat, embeddings,
  images_generations, music_generations, videos_generations, moderations, rerank, search, files,
  audio_speech, audio_transcriptions,
}
use kou_router.Adapt.Requests.{
  NormalizedRequest, required, user_message, input_messages, prompt_text, normalize_messages,
  normalize_responses, normalize_rerank, search_defaults, normalize_search, normalize_completions,
  normalize_fields, normalized_of, normalize_request,
}

search_defaults-again : (o : Fields) → search_defaults (search_defaults o) ≡ search_defaults o
unfolding search_defaults
search_defaults-again o =
    let with_model = or_insert_field "model" (string "search/web") o in
    let named = or_insert_field "provider" (string "web") with_model in
    let kind = unwrap_or (string "web") (get_field "provider" named) in
    let r = or_insert_field "search_type" kind named in
    let has_model = has-or_insert_field "model" "search_type" kind named (
      has-or_insert_field "model" "provider" (string "web") with_model
        (is_some-or_insert_field "model" (string "search/web") o)) in
    let has_provider =
      has-or_insert_field "provider" "search_type" kind named
        (is_some-or_insert_field "provider" (string "web") with_model) in
    rw
      (
        or_insert_field_again "model" (string "search/web") r has_model,
        or_insert_field_again "provider" (string "web") r has_provider,
      )
      (or_insert_field_again "search_type" _ r (is_some-or_insert_field "search_type" kind named))

-- A body that has messages, or neither messages nor an input, only gets its default.
normalize_messages_settled :
    (o : Fields)
    → (has "messages" o ≡ true) ⊎ (get_field "input" o ≡ none)
    → normalize_messages o ≡ or_insert_field "stream" (bool false) o
unfolding normalize_messages
normalize_messages_settled o (inl h) = rw h refl
normalize_messages_settled o (inr h) = elim (Bool-cases (has "messages" o)) [
  | inl e ↦ rw e refl
  | inr e ↦ rw (e, h) refl
]

settled_again :
    (o : Fields)
    → (has "messages" o ≡ true) ⊎ (get_field "input" o ≡ none)
    → normalize_messages (or_insert_field "stream" (bool false) o)
      ≡ or_insert_field "stream" (bool false) o
settled_again o h =
    let p = or_insert_field "stream" (bool false) o in
    let kept : (has "messages" p ≡ true) ⊎ (get_field "input" p ≡ none) = elim h [
      | inl m ↦ inl (has-or_insert_field "messages" "stream" (bool false) o m)
      | inr n ↦ inr (get_field-or_insert_field "input" "stream" (bool false) o ∙ n)
    ] in
    normalize_messages_settled p kept
    ∙ or_insert_field_again "stream" (bool false) p
        (is_some-or_insert_field "stream" (bool false) o)

normalize_messages-again :
    (o : Fields) → normalize_messages (normalize_messages o) ≡ normalize_messages o
unfolding normalize_messages
normalize_messages-again o = elim (Bool-cases (has "messages" o)) [
  | inl e ↦ rw e (settled_again o (inl e))
  | inr e ↦ elim (Option-cases (get_field "input" o)) [
    | inl n ↦ rw (e, n) (settled_again o (inr n))
    | inr (input, n) ↦
        rw (e, n)
          (settled_again (insert_field "messages" input o) (inl (has-inserted "messages" input o)))
  ]
]

normalize_responses-again :
    (o : Fields) → normalize_responses (normalize_responses o) ≡ normalize_responses o
unfolding normalize_responses
normalize_responses-again o =
    let m = insert_field "messages" (input_messages (unwrap_or null (get_field "input" o))) o in
    elim (Bool-cases (has "input" o && not (has "messages" o))) [
      | inl e ↦
          rw (e, has-inserted "messages" (input_messages (unwrap_or null (get_field "input" o))) o)
            (ground arith)
      | inr e ↦ rw (e, e) refl
    ]

-- A required field with a default for another one.
required_default-again :
    (key message k : String) (v : Value) (o p : Fields)
    → (required key message o >>= (λ q. ok (or_insert_field k v q))) ≡ ok p
    → (required key message p >>= (λ q. ok (or_insert_field k v q))) ≡ ok p
required_default-again key message k v o p h = elim (Bool-cases (has key o)) [
  | inl e ↦
      let given : ok (or_insert_field k v o) ≡ ok p = ground arith in
      let same : or_insert_field k v o ≡ p = cc in
      rw
        (
          ← same,
          has-or_insert_field key k v o e,
          or_insert_field_again k v (or_insert_field k v o) (is_some-or_insert_field k v o),
        )
        refl
  | inr e ↦ ground arith
]

search_defaults-has_query :
    (o : Fields) → has "query" o ≡ true → has "query" (search_defaults o) ≡ true
unfolding search_defaults
search_defaults-has_query o h =
    let with_model = or_insert_field "model" (string "search/web") o in
    let named = or_insert_field "provider" (string "web") with_model in
    has-or_insert_field "query" "search_type" _ named (
      has-or_insert_field "query" "provider" (string "web") with_model
        (has-or_insert_field "query" "model" (string "search/web") o h))

module _ (to_string : Value → String) where
  normalize_completions-again :
      (o p : Fields)
      → normalize_completions to_string o ≡ ok p
      → normalize_completions to_string p ≡ ok p
  unfolding normalize_completions
  normalize_completions-again o p h = elim (Bool-cases (has "messages" o)) [
    | inl e ↦ ground arith
    | inr e ↦ elim (Option-cases (get_field "prompt" o)) [
      | inl n ↦ ground arith
      | inr (prompt, n) ↦
          let v = array_of (user_message (string (prompt_text to_string prompt)) ∷ []) in
          let rest = remove_field "prompt" o in
          let same : insert_field "messages" v rest ≡ p = ground arith in
          rw (← same, has-inserted "messages" v rest) refl
    ]
  ]

  normalize_rerank-same : (o p : Fields) → normalize_rerank o ≡ ok p → o ≡ p
  unfolding normalize_rerank
  normalize_rerank-same o p h = ground arith

  normalize_search-again : (o p : Fields) → normalize_search o ≡ ok p → normalize_search p ≡ ok p
  unfolding normalize_search
  normalize_search-again o p h = elim (Bool-cases (has "query" o)) [
    | inl e ↦
        let same : search_defaults o ≡ p = ground arith in
        rw (← same, search_defaults-has_query o e, search_defaults-again o) refl
    | inr e ↦ ground arith
  ]

  normalize_fields-again :
      (endpoint : EndpointKind) (o p : Fields)
      → normalize_fields to_string endpoint o ≡ ok p
      → normalize_fields to_string endpoint p ≡ ok p
  unfolding normalize_fields
  normalize_fields-again chat_completions o p h = refl
  normalize_fields-again completions o p h = normalize_completions-again o p h
  normalize_fields-again messages o p h =
      let same : normalize_messages o ≡ p = cc in rw (← same, normalize_messages-again o) refl
  normalize_fields-again responses o p h =
      let same : normalize_responses o ≡ p = cc in rw (← same, normalize_responses-again o) refl
  normalize_fields-again ollama_chat o p h = ground arith
  normalize_fields-again embeddings o p h = ground arith
  normalize_fields-again images_generations o p h = ground arith
  normalize_fields-again music_generations o p h = ground arith
  normalize_fields-again videos_generations o p h = ground arith
  normalize_fields-again moderations o p h = required_default-again _ _ _ _ o p h
  normalize_fields-again rerank o p h = ap normalize_rerank (sym (normalize_rerank-same o p h)) ∙ h
  normalize_fields-again search o p h = normalize_search-again o p h
  normalize_fields-again audio_speech o p h = required_default-again _ _ _ _ o p h
  normalize_fields-again files o p h = cc
  normalize_fields-again audio_transcriptions o p h = cc

  normalized_of-body :
      (endpoint : EndpointKind) (o : Fields) (r : NormalizedRequest)
      → normalized_of to_string endpoint o ≡ ok r
      → object o ≡ r.body
  unfolding normalized_of
  normalized_of-body endpoint o r h = ground arith

  at_body :
      (endpoint : EndpointKind) (a b : Value) (r : NormalizedRequest)
      → a ≡ b
      → normalize_request to_string endpoint a ≡ ok r
      → normalize_request to_string endpoint b ≡ ok r
  at_body endpoint a b r e h = rw (← e) h

  settled_request :
      (endpoint : EndpointKind) (fields : Result Fields) (r : NormalizedRequest)
      → ((p : Fields) → fields ≡ ok p → normalize_fields to_string endpoint p ≡ ok p)
      → (fields >>= normalized_of to_string endpoint) ≡ ok r
      → normalize_request to_string endpoint r.body ≡ ok r
  unfolding normalize_request
  settled_request endpoint (err e) r k h = cc
  settled_request endpoint (ok p) r k h =
      at_body endpoint (object p) r.body r (normalized_of-body endpoint p r h) (rw (k p refl) h)

  -- A request that was normalized is normalized to itself: its body with the defaults and the copied
  -- fields passes the checks of the endpoint again and gains nothing, and the model and the stream
  -- flag that are read from it are the same.
  pub normalize_request-idempotent :
      (endpoint : EndpointKind) (payload : Value) (r : NormalizedRequest)
      → normalize_request to_string endpoint payload ≡ ok r
      → normalize_request to_string endpoint r.body ≡ ok r
  unfolding normalize_request
  normalize_request-idempotent endpoint (object o) r h =
      settled_request endpoint (normalize_fields to_string endpoint o) r
        (λ p e. normalize_fields-again endpoint o p e) h
  normalize_request-idempotent endpoint null r h = cc
  normalize_request-idempotent endpoint (bool b) r h = cc
  normalize_request-idempotent endpoint (number n) r h = cc
  normalize_request-idempotent endpoint (string t) r h = cc
  normalize_request-idempotent endpoint (array items) r h = cc
