-- ===== src/Routing/Formats/Laws.antt =====
-- What a provider that passes the router's filter is asked for upstream.
use kou_router.Prelude.{true, false, ◌≡◌, refl, [], ◌∷◌, inl, inr, arith, ◌&&◌, Bool-cases}
use kou_router.Text.{trim, to_ascii_lowercase}
use kou_router.Models.{ProviderConnection}
use kou_router.Models.Endpoint.{
  EndpointKind, messages, responses, is_chat_family, supports_endpoint, capability,
}
use kou_router.Routing.Formats.{
  open_ai_responses, claude, from_provider, same_format, endpoint_translates_to_claude_messages,
  upstream_endpoint_for_provider, provider_supports_routed_endpoint,
}

-- A provider that declares the endpoint that the router would call upstream passes the filter of
-- providers; and a provider that speaks neither the Claude nor the Responses protocol passes it only
-- if it declares that endpoint.
pub provider_supports_upstream_endpoint :
    (p : ProviderConnection) (endpoint : EndpointKind)
    → (supports_endpoint p.supported_endpoints
            (upstream_endpoint_for_provider endpoint (from_provider p))
          ≡ true
        → provider_supports_routed_endpoint p endpoint ≡ true)
      × (same_format (from_provider p) claude ≡ false
          → same_format (from_provider p) open_ai_responses ≡ false
          → provider_supports_routed_endpoint p endpoint ≡ true
          → supports_endpoint p.supported_endpoints
              (upstream_endpoint_for_provider endpoint (from_provider p))
            ≡ true)
unfolding upstream_endpoint_for_provider provider_supports_routed_endpoint
provider_supports_upstream_endpoint p endpoint = (
  λ h.
      elim (Bool-cases
        (endpoint_translates_to_claude_messages endpoint && same_format (from_provider p) claude)) [
          | inl c ↦ ground arith
          | inr c ↦
              elim (Bool-cases
                (is_chat_family endpoint && same_format (from_provider p) open_ai_responses)) [
                  | inl r ↦ ground arith
                  | inr r ↦ ground arith
                ]
        ],
  λ c r h. ground arith,
)

only_messages :
    (supports_endpoint ("messages" ∷ []) messages ≡ true)
    × (supports_endpoint ("messages" ∷ []) responses ≡ false)
unfolding supports_endpoint capability trim to_ascii_lowercase is_chat_family
only_messages = (refl, refl)

-- A provider of the Responses protocol that declares only "messages" passes the filter for the
-- messages endpoint, although it does not declare the endpoint that is called upstream, responses.
pub messages_only_admitted :
    (p : ProviderConnection)
    → from_provider p ≡ open_ai_responses
    → p.supported_endpoints ≡ "messages" ∷ []
    → (provider_supports_routed_endpoint p messages ≡ true)
      × (supports_endpoint p.supported_endpoints
            (upstream_endpoint_for_provider messages (from_provider p))
          ≡ false)
unfolding upstream_endpoint_for_provider provider_supports_routed_endpoint
messages_only_admitted p f e = (simp (e, only_messages.0), simp (e, f) only_messages.1)
