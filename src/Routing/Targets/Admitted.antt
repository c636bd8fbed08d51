-- ===== src/Routing/Targets/Admitted.antt =====
-- src/service.rs: a provider that passes the filter of `route` and does not declare its endpoint.
use kou_router.Prelude.{
  String, true, false, ◌≡◌, ◌≢◌, refl, none, some, List, [], ◌∷◌, All, All-map_of, ap, ◌∙◌, sym,
}
use kou_router.Errors.{Result, ok}
use kou_router.Models.{
  Time, ProviderConnection, ProviderAccount, ProviderAccountAuthMode, api_key_mode, oauth_mode,
}
use kou_router.Models.Endpoint.{EndpointKind, messages, supports_endpoint}
use kou_router.Repository.{Repository}
use kou_router.Routing.Candidates.{Turns}
use kou_router.Routing.Formats.{
  open_ai_responses, from_provider, upstream_endpoint_for_provider,
  provider_supports_routed_endpoint,
}
use kou_router.Routing.Formats.Laws.{messages_only_admitted}
use kou_router.Routing.Targets.{
  Target, listed, with_credentials, provider_with_account_auth, execution_targets,
}
use kou_router.Routing.Targets.Laws.{IsTarget, execution_targets-IsTarget}

-- The target has an account that declares endpoints of its own.
abbrev pub DeclaresItself : Target → Type 0
DeclaresItself (p, some a) = listed a.supported_endpoints ≢ none
DeclaresItself (p, none) = ⊥

credentials_keep_endpoints :
    (mode : ProviderAccountAuthMode) (a : ProviderAccount) (id : String) (p : ProviderConnection)
    → (with_credentials mode a id p).supported_endpoints ≡ p.supported_endpoints
unfolding with_credentials
credentials_keep_endpoints api_key_mode a id p = refl
credentials_keep_endpoints oauth_mode a id p = refl

inherited_endpoints :
    (a : ProviderAccount) (p : ProviderConnection)
    → listed a.supported_endpoints ≡ none
    → (provider_with_account_auth p a p.provider).supported_endpoints ≡ p.supported_endpoints
unfolding provider_with_account_auth
inherited_endpoints a p e = rw e (credentials_keep_endpoints a.auth_mode a p.provider p)

module _ (refresh : String → Repository → Result ProviderAccount × Repository) (now : Time)
    (provider : ProviderConnection) (endpoint : EndpointKind) where
  undeclared-DeclaresItself :
      (r : Repository) (target : Target)
      → supports_endpoint provider.supported_endpoints endpoint ≡ false
      → IsTarget refresh now provider endpoint r target
      → DeclaresItself target
  undeclared-DeclaresItself r (p, some a) u h = λ e.
      let same : p.supported_endpoints ≡ provider.supported_endpoints =
        ap (λ (q : ProviderConnection). q.supported_endpoints) h.0
        ∙ inherited_endpoints a provider e in
      let declared : supports_endpoint provider.supported_endpoints endpoint ≡ true =
        ap (λ (l : List String). supports_endpoint l endpoint) (sym same) ∙ h.2 in
      cc
  undeclared-DeclaresItself r (p, none) u h =
      let declared : supports_endpoint provider.supported_endpoints endpoint ≡ true =
        ap (λ (q : ProviderConnection). supports_endpoint q.supported_endpoints endpoint) (sym h.0)
        ∙ h.4 in
      cc

-- A provider of the Responses protocol that declares only "messages" passes the filter for the
-- messages endpoint, and yet neither its own key nor an account that declares no endpoints of its
-- own is ever a target for the endpoint that is then called upstream.
pub messages_only_without_targets :
    (refresh : String → Repository → Result ProviderAccount × Repository) (now : Time)
    (p : ProviderConnection) (r : Repository) (turns : Turns) (targets : List Target)
    → from_provider p ≡ open_ai_responses
    → p.supported_endpoints ≡ "messages" ∷ []
    → (execution_targets refresh now p
        (upstream_endpoint_for_provider messages (from_provider p))
        r
        turns).0
      ≡ ok targets
    → (provider_supports_routed_endpoint p messages ≡ true) × All DeclaresItself targets
messages_only_without_targets refresh now p r turns targets f e h =
    let endpoint = upstream_endpoint_for_provider messages (from_provider p) in
    let admitted = messages_only_admitted p f e in
    (
      admitted.0,
      All-map_of (IsTarget refresh now p endpoint r) DeclaresItself targets
          (λ t k. undeclared-DeclaresItself refresh now p endpoint r t admitted.1 k)
          (execution_targets-IsTarget refresh now p endpoint r turns h),
    )
