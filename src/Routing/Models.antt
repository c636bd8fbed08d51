-- ===== src/Routing/Models.antt =====
-- src/service.rs: the providers that a model's name selects, and their order.
pub mod Laws
use Prim.Native.String
use kou_router.Prelude.{
  ℕ, String, Bool, true, false, ◌&&◌, ◌||◌, Option, none, some, List, [], ◌∷◌, str_eq,
  if◌then◌else◌, not, is_some, keep, find_first, map_option, is_empty, and_then, unwrap_or, ltb,
}
use kou_router.Prelude.Sort.{sort_by}
use kou_router.Text.{starts_with, ends_with, split_once, is_empty_text}
use kou_router.Errors.{Result, ok, err, bad_request}
use kou_router.Models.{Time, ProviderConnection}
use kou_router.Models.Int.{lt_ℤ}
use kou_router.Models.Endpoint.{EndpointKind}
use kou_router.Routing.Formats.{
  from_provider, claude, same_format, provider_supports_routed_endpoint,
}

unfoldable pub model_of_split : String → Option (String × String) → Result (String × String)
model_of_split value (some (prefix, model)) =
    if is_empty_text prefix || is_empty_text model
    then err (bad_request (String.◌++◌ "invalid model identifier: " value))
    else ok (prefix, model)
model_of_split value none = ok ("", value)

-- The prefix and the model; a bare name has the empty prefix.
unfoldable pub split_model : String → Result (String × String)
unfolding model_of_split
split_model value = model_of_split value (split_once b'/' value)

abbrev pub known_prefixes : List (String × String)
known_prefixes =
    ("claude-", "anthropic")
    ∷ ("gpt-", "openai")
    ∷ ("o1-", "openai")
    ∷ ("o3-", "openai")
    ∷ ("o4-", "openai")
    ∷ ("chatgpt-", "openai")
    ∷ ("gemini-", "gemini")
    ∷ ("gemma-", "gemini")
    ∷ ("llama-", "meta")
    ∷ ("mistral-", "mistral")
    ∷ ("codestral-", "mistral")
    ∷ ("command-", "cohere")
    ∷ ("deepseek-", "deepseek")
    ∷ []

unfoldable pub infer_provider_from_model_name : String → Option String
infer_provider_from_model_name model =
    map_option (λ (row : String × String). row.1)
      (find_first (λ (row : String × String). starts_with model row.0) known_prefixes)

unfoldable pub is_anthropic_compatible_provider : ProviderConnection → Bool
is_anthropic_compatible_provider p = same_format (from_provider p) claude

-- The provider is the inferred one, by its name, its prefix or the Claude protocol.
unfoldable pub serves_inferred : Option String → ProviderConnection → Bool
serves_inferred none p = false
serves_inferred (some inferred) p =
    str_eq p.provider inferred
    || str_eq p.model_prefix inferred
    || (str_eq inferred "anthropic" && is_anthropic_compatible_provider p)

-- The provider's default model is this one, with or without a prefix.
unfoldable pub serves_by_default : String → Option String → Bool
serves_by_default model none = false
serves_by_default model (some default) =
    str_eq default model || ends_with default (String.◌++◌ "/" model)

unfoldable pub find_providers_for_bare_model :
    List ProviderConnection → String → List ProviderConnection
find_providers_for_bare_model providers model =
    let inferred_provider = infer_provider_from_model_name model in
    let matching =
      keep
        (λ (p : ProviderConnection).
          serves_inferred inferred_provider p || serves_by_default model p.default_model)
        providers in
    if is_empty matching && not (is_some inferred_provider) then providers else matching

-- `route`: no instant is set, or the instant set lies before now.
abbrev pub before : Time → Option Time → Bool
before now until = unwrap_or true (map_option (λ (t : Time). ltb t now) until)

-- `route`: the filter on the listed providers.
unfoldable pub available : Time → EndpointKind → ProviderConnection → Bool
available now endpoint p =
    p.enabled
    && before now p.rate_limited_until
    && before now p.circuit_open_until
    && provider_supports_routed_endpoint p endpoint

-- `route`: the providers that match a candidate, in the listed order.
unfoldable pub matching_providers :
    List ProviderConnection → String → String → List ProviderConnection
matching_providers providers prefix raw_model =
    if is_empty_text prefix
    then find_providers_for_bare_model providers raw_model
    else keep (λ (p : ProviderConnection). str_eq p.model_prefix prefix || str_eq p.provider prefix)
        providers

-- `route`: the order in which they are tried; `near` is the rate-limit tracker's answer for an id.
module _ (near : String → Bool) where
  abbrev pub near_limit : ProviderConnection → Bool
  near_limit p = p.rate_limit_protection && near p.id

  unfoldable pub tried_before : ProviderConnection → ProviderConnection → Bool
  tried_before a b =
      (not (near_limit a) && near_limit b)
      || (not (near_limit b && not (near_limit a))
          && not (near_limit a && not (near_limit b))
          && lt_ℤ a.priority b.priority)

  unfoldable pub order_providers : List ProviderConnection → List ProviderConnection
  unfolding tried_before
  order_providers providers = sort_by tried_before providers
