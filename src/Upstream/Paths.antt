-- ===== src/Upstream/Paths.antt =====
-- src/upstream.rs: the path and the URL of a request to a provider.
pub mod Laws
use Prim.Native.String
use kou_router.Prelude.{
  ℕ, zero, suc, String, Bool, true, false, Option, none, some, List, [], ◌∷◌, if◌then◌else◌,
  or_else, unwrap_or, and_then, map_option, ◌||◌, ◌-◌,
}
use kou_router.Text.{starts_with, contains, is_empty_text, trim_end_slashes, replace}
use kou_router.Models.{ProviderConnection}
use kou_router.Models.Endpoint.{
  EndpointKind, chat_completions, completions, messages, responses, ollama_chat, embeddings,
  images_generations, music_generations, videos_generations, moderations, rerank, search, files,
  audio_speech, audio_transcriptions, as_str, capability, is_chat_family, same_endpoint,
}
use kou_router.Routing.Targets.{lookup}

unfoldable pub append_path_suffix : String → String → String
append_path_suffix base_path suffix =
    if is_empty_text suffix
    then base_path
    else if starts_with suffix "/"
    then String.◌++◌ base_path suffix
    else String.◌++◌ base_path (String.◌++◌ "/" suffix)

unfoldable pub append_suffix_if_needed : EndpointKind → String → Option String → String
unfolding append_path_suffix contains replace
append_suffix_if_needed endpoint base_path suffix =
    if same_endpoint endpoint responses
    then if contains base_path "{suffix}"
      then replace "{suffix}" (unwrap_or "" suffix) base_path
      else append_path_suffix base_path (unwrap_or "" suffix)
    else base_path

unfoldable pub chat_family_override_key : EndpointKind → Option String
chat_family_override_key endpoint = if is_chat_family endpoint then some "chat" else none

-- The first override among the endpoint's own name, its capability and "chat".
unfoldable pub override_of : List (String × String) → EndpointKind → Option String
unfolding lookup chat_family_override_key
override_of overrides endpoint = or_else (lookup (as_str endpoint) overrides) (
    or_else (lookup (capability endpoint) overrides)
      (and_then (chat_family_override_key endpoint) (λ key. lookup key overrides)))

unfoldable pub provider_path_override :
    List (String × String) → EndpointKind → Option String → Option String
unfolding override_of append_suffix_if_needed
provider_path_override overrides endpoint suffix =
    map_option (λ path. append_suffix_if_needed endpoint path suffix)
      (override_of overrides endpoint)

unfoldable pub default_path : EndpointKind → String
default_path chat_completions = "/chat/completions"
default_path completions = "/chat/completions"
default_path messages = "/messages"
default_path responses = "/responses"
default_path files = "/files"
default_path ollama_chat = "/api/chat"
default_path embeddings = "/embeddings"
default_path images_generations = "/images/generations"
default_path music_generations = "/music/generations"
default_path videos_generations = "/videos/generations"
default_path moderations = "/moderations"
default_path rerank = "/rerank"
default_path search = "/search"
default_path audio_speech = "/audio/speech"
default_path audio_transcriptions = "/audio/transcriptions"

unfoldable pub endpoint_path : ProviderConnection → EndpointKind → Option String → Bool → String
unfolding provider_path_override default_path
endpoint_path provider endpoint suffix stream_requested =
    unwrap_or (append_suffix_if_needed endpoint (default_path endpoint) suffix) (
      or_else
        (if stream_requested
          then provider_path_override provider.stream_endpoint_paths endpoint suffix
          else none)
        (provider_path_override provider.endpoint_paths endpoint suffix))

abbrev pub is_absolute : String → Bool
is_absolute path = starts_with path "http://" || starts_with path "https://"

unfoldable pub build_url : String → String → String
build_url base_url path =
    if is_absolute path then path else String.◌++◌ (trim_end_slashes base_url) path
