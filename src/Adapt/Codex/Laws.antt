-- ===== src/Adapt/Codex/Laws.antt =====
-- src/service.rs: what a request for Codex is sent with.
use kou_router.Prelude.{arith, String, true, false, ◌≡◌, refl, Option, some, ◌∙◌}
use kou_router.Json.{Value, bool, object, Fields, get_field, get, insert_field, remove_field}
use kou_router.Json.Laws.{get_field-insert_field, get_field-remove_field}
use kou_router.Models.{ProviderConnection}
use kou_router.Models.Endpoint.{EndpointKind, responses, same_endpoint}
use kou_router.Adapt.Codex.{
  given_fields, codex_fields, is_codex_provider, maybe_adapt_codex_responses_request,
}

stored_and_streamed :
    (to_string : Value → String) (instructions : Option String) (input : Option Value) (o : Fields)
    → (get_field "store" (codex_fields to_string instructions input o) ≡ some (bool false))
      × (get_field "stream" (codex_fields to_string instructions input o) ≡ some (bool true))
unfolding codex_fields
stored_and_streamed to_string instructions input o =
    let limited = remove_field "max_completion_tokens" (
      remove_field "max_output_tokens"
        (remove_field "max_tokens" (given_fields to_string instructions input o))) in
    let streamed = insert_field "stream" (bool true) limited in
    (
      get_field-insert_field "store" "store" (bool false) (remove_field "messages" streamed),
      get_field-insert_field "stream" "store" (bool false) (remove_field "messages" streamed)
          ∙ (get_field-remove_field "stream" "messages" streamed refl
              ∙ get_field-insert_field "stream" "stream" (bool true) limited),
    )

module _ (to_string : Value → String) where
  -- A body for the Responses API of a Codex provider that is an object asks for a stream that is not
  -- stored, whatever the client asked for; a body for another endpoint, or for a provider that is not
  -- Codex, stays as it is.
  pub maybe_adapt_codex_responses_request_streams :
      (provider other : ProviderConnection) (endpoint any : EndpointKind) (o : Fields)
      (normalized_body body : Value)
      → is_codex_provider provider ≡ true
      → is_codex_provider other ≡ false
      → same_endpoint endpoint responses ≡ false
      → let sent =
          maybe_adapt_codex_responses_request to_string responses provider
            (object o)
            normalized_body in
        (get sent "store" ≡ some (bool false))
        × (get sent "stream" ≡ some (bool true))
        × (maybe_adapt_codex_responses_request to_string endpoint provider body normalized_body
            ≡ body)
        × (maybe_adapt_codex_responses_request to_string any other body normalized_body ≡ body)
  unfolding maybe_adapt_codex_responses_request get
  maybe_adapt_codex_responses_request_streams provider other endpoint any o normalized_body body c n
        e =
      let both = stored_and_streamed to_string _ _ o in
      (rw c both.0, rw c both.1, rw e refl, rw n (ground arith))
