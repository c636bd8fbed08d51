-- ===== src/Models/Endpoint/Laws.antt =====
-- src/models.rs: names of endpoints, and which capabilities admit an endpoint.
use kou_router.Prelude.{
  String, true, List, [], ◌∷◌, map, any, str_eq, ◌≡◌, refl, ◌↔◌, some, none, Option, if◌then◌else◌,
  arith, Some, ap, sym, ◌∙◌, eq_iff,
}
use kou_router.Models.Endpoint.{
  EndpointKind, chat_completions, completions, messages, responses, files, ollama_chat, embeddings,
  images_generations, moderations, rerank, search, audio_speech, audio_transcriptions,
  music_generations, videos_generations, as_str, capability, is_chat_family, supports_endpoint,
  normalize_capability,
}

-- Besides its own capability: the names that also admit an endpoint.
abbrev pub accepted : EndpointKind → List String
accepted chat_completions = "chat" ∷ []
accepted completions = "chat" ∷ []
accepted messages = "messages" ∷ "chat" ∷ []
accepted responses = "responses" ∷ "chat" ∷ []
accepted files = "files" ∷ []
accepted ollama_chat = "ollama.chat" ∷ "chat" ∷ []
accepted embeddings = "embeddings" ∷ []
accepted images_generations = "images" ∷ "images.generations" ∷ []
accepted moderations = "moderations" ∷ []
accepted rerank = "rerank" ∷ []
accepted search = "search" ∷ []
accepted audio_speech = "audio.speech" ∷ "audio" ∷ []
accepted audio_transcriptions = "audio.transcriptions" ∷ "audio" ∷ []
accepted music_generations = "music" ∷ "music.generations" ∷ []
accepted videos_generations = "video" ∷ "videos" ∷ "videos.generations" ∷ "video.generations" ∷ []

any-str_eq_iff :
    (name : String) (values : List String)
    → (any (λ v. str_eq v name) values ≡ true) ↔ Some (λ v. v ≡ name) values
any-str_eq_iff name [] = ground arith
any-str_eq_iff name (v ∷ values) = ground (arith, eq_iff v name, any-str_eq_iff name values)

-- Some capability, trimmed and in lower case, has this name.
abbrev pub Declares : List String → String → Type 0
Declares capabilities name = Some (λ v. v ≡ name) (map normalize_capability capabilities)

declared :
    (capabilities : List String) (name : String)
    → (any (λ v. str_eq v name) (map normalize_capability capabilities) ≡ true)
      ↔ Declares capabilities name
declared capabilities name = any-str_eq_iff name (map normalize_capability capabilities)

-- A list of capabilities admits an endpoint exactly when it is empty, or one of them, trimmed and in
-- lower case, is among the names accepted for that endpoint.
pub supports_endpoint_iff :
    (c : String) (cs : List String) (endpoint : EndpointKind)
    → (supports_endpoint [] endpoint ≡ true)
      × ((supports_endpoint (c ∷ cs) endpoint ≡ true)
          ↔ Some (λ name. Declares (c ∷ cs) name) (accepted endpoint))
unfolding supports_endpoint capability is_chat_family
supports_endpoint_iff c cs images_generations =
    (refl, ground (arith, declared (c ∷ cs) "images", declared (c ∷ cs) "images.generations"))
supports_endpoint_iff c cs music_generations =
    (refl, ground (arith, declared (c ∷ cs) "music", declared (c ∷ cs) "music.generations"))
supports_endpoint_iff c cs videos_generations = (
  refl,
  ground (
    arith,
    declared (c ∷ cs) "video",
    declared (c ∷ cs) "videos",
    declared (c ∷ cs) "videos.generations",
    declared (c ∷ cs) "video.generations",
  ),
)
supports_endpoint_iff c cs e = (
  refl,
  ground (
    arith,
    declared (c ∷ cs) (capability e),
    declared (c ∷ cs) "chat",
    declared (c ∷ cs) "audio",
  ),
)

-- The names by which endpoints are logged and hashed tell them apart.
named : String → Option EndpointKind
named s =
    if str_eq s "chat.completions"
    then some chat_completions
    else if str_eq s "completions"
    then some completions
    else if str_eq s "messages"
    then some messages
    else if str_eq s "responses"
    then some responses
    else if str_eq s "files"
    then some files
    else if str_eq s "ollama.chat"
    then some ollama_chat
    else if str_eq s "embeddings"
    then some embeddings
    else if str_eq s "images.generations"
    then some images_generations
    else if str_eq s "moderations"
    then some moderations
    else if str_eq s "rerank"
    then some rerank
    else if str_eq s "search"
    then some search
    else if str_eq s "audio.speech"
    then some audio_speech
    else if str_eq s "audio.transcriptions"
    then some audio_transcriptions
    else if str_eq s "music.generations"
    then some music_generations
    else if str_eq s "videos.generations"
    then some videos_generations
    else none

named-as_str : (e : EndpointKind) → named (as_str e) ≡ some e
unfolding named as_str
named-as_str chat_completions = refl
named-as_str _ = refl

-- Different endpoints have different names.
pub as_str_injective : (a b : EndpointKind) → as_str a ≡ as_str b → a ≡ b
as_str_injective a b h =
    let e : some a ≡ some b = sym (named-as_str a) ∙ ap named h ∙ named-as_str b in cc
