-- ===== src/Models/Endpoint.antt =====
-- src/models.rs: the kinds of endpoints and the capabilities that a provider declares.
pub mod Laws
use kou_router.Prelude.{
  ℕ, String, Bool, true, false, ◌||◌, ◌&&◌, List, [], ◌∷◌, map, any, ◌==◌, str_eq, is_empty,
  if◌then◌else◌,
}
use kou_router.Text.{trim, to_ascii_lowercase}

pub data EndpointKind : Type 0 where
  chat_completions completions messages responses files ollama_chat embeddings : EndpointKind
  images_generations moderations rerank search audio_speech audio_transcriptions : EndpointKind
  music_generations videos_generations : EndpointKind

-- The derived equality, by the position of the variant.
abbrev pub discriminant : EndpointKind → ℕ
discriminant chat_completions = 0
discriminant completions = 1
discriminant messages = 2
discriminant responses = 3
discriminant files = 4
discriminant ollama_chat = 5
discriminant embeddings = 6
discriminant images_generations = 7
discriminant moderations = 8
discriminant rerank = 9
discriminant search = 10
discriminant audio_speech = 11
discriminant audio_transcriptions = 12
discriminant music_generations = 13
discriminant videos_generations = 14

abbrev pub same_endpoint : EndpointKind → EndpointKind → Bool
same_endpoint a b = discriminant a == discriminant b

unfoldable pub as_str : EndpointKind → String
as_str chat_completions = "chat.completions"
as_str completions = "completions"
as_str messages = "messages"
as_str responses = "responses"
as_str files = "files"
as_str ollama_chat = "ollama.chat"
as_str embeddings = "embeddings"
as_str images_generations = "images.generations"
as_str moderations = "moderations"
as_str rerank = "rerank"
as_str search = "search"
as_str audio_speech = "audio.speech"
as_str audio_transcriptions = "audio.transcriptions"
as_str music_generations = "music.generations"
as_str videos_generations = "videos.generations"

unfoldable pub capability : EndpointKind → String
capability chat_completions = "chat"
capability completions = "chat"
capability messages = "messages"
capability responses = "responses"
capability files = "files"
capability ollama_chat = "ollama.chat"
capability embeddings = "embeddings"
capability images_generations = "images"
capability moderations = "moderations"
capability rerank = "rerank"
capability search = "search"
capability audio_speech = "audio.speech"
capability audio_transcriptions = "audio.transcriptions"
capability music_generations = "music"
capability videos_generations = "video"

unfoldable pub is_chat_family : EndpointKind → Bool
is_chat_family chat_completions = true
is_chat_family completions = true
is_chat_family messages = true
is_chat_family responses = true
is_chat_family ollama_chat = true
is_chat_family _ = false

unfoldable pub default_supported_endpoints : List String
default_supported_endpoints =
    "chat" ∷ "messages" ∷ "responses" ∷ "files" ∷ "ollama.chat" ∷ "embeddings" ∷ "images"
    ∷ "moderations" ∷ "rerank" ∷ "search" ∷ "audio.speech" ∷ "audio.transcriptions" ∷ "music"
    ∷ "video" ∷ []

abbrev pub normalize_capability : String → String
normalize_capability value = to_ascii_lowercase (trim value)

unfoldable pub supports_endpoint : List String → EndpointKind → Bool
supports_endpoint capabilities endpoint =
    if is_empty capabilities
    then true
    else let normalized = map normalize_capability capabilities in
      any (λ value. str_eq value (capability endpoint)) normalized
      || (is_chat_family endpoint && any (λ value. str_eq value "chat") normalized)
      || (same_endpoint endpoint images_generations
          && any (λ value. str_eq value "images.generations") normalized)
      || ((same_endpoint endpoint audio_speech || same_endpoint endpoint audio_transcriptions)
          && any (λ value. str_eq value "audio") normalized)
      || (same_endpoint endpoint music_generations
          && any (λ value. str_eq value "music.generations") normalized)
      || (same_endpoint endpoint videos_generations
          && (any (λ value. str_eq value "videos") normalized
              || any (λ value. str_eq value "videos.generations") normalized))
      || (same_endpoint endpoint videos_generations
          && any (λ value. str_eq value "video.generations") normalized)
      || (same_endpoint endpoint videos_generations
          && any (λ value. str_eq value "video") normalized)
