-- ===== src/Routing/Formats.antt =====
-- src/translate/format.rs and the endpoint mapping of src/service.rs: the protocol that a client and
-- a provider speak, and the endpoint that is called upstream.
pub mod Laws
use kou_router.Prelude.{
  String, Bool, true, false, ◌&&◌, ◌||◌, Option, none, some, str_eq, if◌then◌else◌, not, is_some,
  ◌==◌, ℕ,
}
use kou_router.Json.{Value, get}
use kou_router.Models.{ProviderConnection}
use kou_router.Models.Endpoint.{
  EndpointKind, chat_completions, completions, messages, responses, ollama_chat, is_chat_family,
  supports_endpoint,
}

pub data ProtocolFormat : Type 0 where
  open_ai open_ai_responses claude gemini ollama : ProtocolFormat

abbrev format_index : ProtocolFormat → ℕ
format_index open_ai = 0
format_index open_ai_responses = 1
format_index claude = 2
format_index gemini = 3
format_index ollama = 4

-- The derived equality.
abbrev pub same_format : ProtocolFormat → ProtocolFormat → Bool
same_format a b = format_index a == format_index b

unfoldable pub detect_source : EndpointKind → Value → ProtocolFormat
detect_source messages body = claude
detect_source responses body =
    if is_some (get body "messages") && not (is_some (get body "input"))
    then open_ai
    else open_ai_responses
detect_source ollama_chat body = ollama
detect_source _ body = open_ai

-- `from_provider`: an explicit format, or else one by the provider's name.
unfoldable pub from_provider : ProviderConnection → ProtocolFormat
from_provider p = elim p.protocol_format [
  | some fmt ↦
      if str_eq fmt "claude" || str_eq fmt "anthropic"
      then claude
      else if str_eq fmt "gemini" || str_eq fmt "vertex"
      then gemini
      else if str_eq fmt "ollama"
      then ollama
      else if str_eq fmt "openai-responses"
      then open_ai_responses
      else open_ai
  | none ↦
      if str_eq p.provider "anthropic"
      then claude
      else if str_eq p.provider "vertex" || str_eq p.provider "gemini"
      then gemini
      else if str_eq p.provider "ollama"
      then ollama
      else open_ai
]

unfoldable pub format_as_str : ProtocolFormat → String
format_as_str open_ai = "openai"
format_as_str open_ai_responses = "openai-responses"
format_as_str claude = "claude"
format_as_str gemini = "gemini"
format_as_str ollama = "ollama"

unfoldable pub endpoint_translates_to_claude_messages : EndpointKind → Bool
endpoint_translates_to_claude_messages chat_completions = true
endpoint_translates_to_claude_messages completions = true
endpoint_translates_to_claude_messages responses = true
endpoint_translates_to_claude_messages messages = true
endpoint_translates_to_claude_messages _ = false

unfoldable pub upstream_endpoint_for_provider : EndpointKind → ProtocolFormat → EndpointKind
unfolding endpoint_translates_to_claude_messages is_chat_family
upstream_endpoint_for_provider endpoint target_format =
    if endpoint_translates_to_claude_messages endpoint && same_format target_format claude
    then messages
    else if is_chat_family endpoint && same_format target_format open_ai_responses
    then responses
    else endpoint

unfoldable pub provider_supports_routed_endpoint : ProviderConnection → EndpointKind → Bool
unfolding endpoint_translates_to_claude_messages is_chat_family
provider_supports_routed_endpoint p endpoint =
    supports_endpoint p.supported_endpoints endpoint
    || (endpoint_translates_to_claude_messages endpoint
        && same_format (from_provider p) claude
        && supports_endpoint p.supported_endpoints messages)
    || (is_chat_family endpoint
        && same_format (from_provider p) open_ai_responses
        && supports_endpoint p.supported_endpoints responses)
