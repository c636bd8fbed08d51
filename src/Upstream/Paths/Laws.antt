-- ===== src/Upstream/Paths/Laws.antt =====
-- src/upstream.rs: which path a request takes.
use kou_router.Prelude.{
  String, Bool, true, false, Option, none, some, if◌then◌else◌, or_else, unwrap_or, ◌≡◌, refl,
  map_option, ◌≢◌, ◌∙◌, sym,
}
use kou_router.Models.{ProviderConnection}
use kou_router.Models.Endpoint.{
  EndpointKind, responses, chat_completions, completions, messages, ollama_chat, embeddings,
  images_generations, music_generations, videos_generations, moderations, rerank, search, files,
  audio_speech, audio_transcriptions,
}
use kou_router.Upstream.Paths.{
  append_suffix_if_needed, override_of, provider_path_override, default_path, endpoint_path,
}

-- The path before the suffix: a stream's override if the request streams, else an override, else
-- the default.
abbrev pub base_path_of : ProviderConnection → EndpointKind → Bool → String
base_path_of p endpoint stream_requested = unwrap_or (default_path endpoint) (
    or_else (if stream_requested then override_of p.stream_endpoint_paths endpoint else none)
      (override_of p.endpoint_paths endpoint))

override_chain :
    (f : String → String) (d : String) (b : Bool) (x y : Option String)
    → unwrap_or (f d) (or_else (if b then map_option f x else none) (map_option f y))
      ≡ f (unwrap_or d (or_else (if b then x else none) y))
override_chain f d true (some x) y = refl
override_chain f d true none (some y) = refl
override_chain f d true none none = refl
override_chain f d false x (some y) = refl
override_chain f d false x none = refl

no_suffix :
    (endpoint : EndpointKind) (path : String) (suffix : Option String)
    → endpoint ≢ responses
    → append_suffix_if_needed endpoint path suffix ≡ path
unfolding append_suffix_if_needed
no_suffix chat_completions path suffix h = refl
no_suffix completions path suffix h = refl
no_suffix messages path suffix h = refl
no_suffix ollama_chat path suffix h = refl
no_suffix embeddings path suffix h = refl
no_suffix images_generations path suffix h = refl
no_suffix music_generations path suffix h = refl
no_suffix videos_generations path suffix h = refl
no_suffix moderations path suffix h = refl
no_suffix rerank path suffix h = refl
no_suffix search path suffix h = refl
no_suffix files path suffix h = refl
no_suffix audio_speech path suffix h = refl
no_suffix audio_transcriptions path suffix h = refl
no_suffix responses path suffix h = absurd (h refl)

-- The path of a request is one base path with the suffix of the request put into it, where the base
-- path is the stream's override if the request streams and there is one, else the override, else the
-- default of the endpoint; for an endpoint other than responses the suffix changes nothing.
pub endpoint_path-append_suffix_if_needed :
    (p : ProviderConnection) (endpoint : EndpointKind) (suffix : Option String)
    (stream_requested : Bool)
    → (endpoint_path p endpoint suffix stream_requested
        ≡ append_suffix_if_needed endpoint (base_path_of p endpoint stream_requested) suffix)
      × (endpoint ≢ responses
          → endpoint_path p endpoint suffix stream_requested
            ≡ endpoint_path p endpoint none stream_requested)
unfolding endpoint_path provider_path_override
endpoint_path-append_suffix_if_needed p endpoint suffix stream_requested =
    let chain : (o : Option String)
        → endpoint_path p endpoint o stream_requested
          ≡ append_suffix_if_needed endpoint (base_path_of p endpoint stream_requested) o =
      λ o.
        override_chain (λ path. append_suffix_if_needed endpoint path o) (default_path endpoint)
          stream_requested (override_of p.stream_endpoint_paths endpoint)
          (override_of p.endpoint_paths endpoint) in
    (
      chain suffix,
      λ h.
          chain suffix
          ∙ (no_suffix endpoint _ suffix h ∙ sym (chain none ∙ no_suffix endpoint _ none h)),
    )
