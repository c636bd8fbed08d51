-- ===== src/Translate/Laws.antt =====
-- src/translate/registry.rs: which translations are missing.
use kou_router.Prelude.{false, ◌&&◌, String, Bool, ◌≡◌, refl}
use kou_router.Errors.{ok, ◌>>=◌}
use kou_router.Json.{Value}
use kou_router.Routing.Formats.{
  same_format, ProtocolFormat, open_ai, open_ai_responses, claude, gemini, ollama,
}
use kou_router.Translate.{
  RequestTranslator, ResponseTranslator, Translators, translate_request, translate_response,
}

-- The translator that makes a response in this format one in OpenAI's, and the one that makes a
-- request in OpenAI's format one in this.
abbrev pub response_reader : Translators → ProtocolFormat → ResponseTranslator
response_reader t open_ai = λ body. ok body
response_reader t open_ai_responses = t.responses_to_openai
response_reader t claude = t.claude_to_openai
response_reader t gemini = t.gemini_to_openai
response_reader t ollama = t.ollama_to_openai

abbrev pub request_writer : Translators → ProtocolFormat → RequestTranslator
request_writer t open_ai = λ model body stream. ok body
request_writer t open_ai_responses = t.openai_to_responses
request_writer t claude = t.openai_to_claude
request_writer t gemini = t.openai_to_gemini
request_writer t ollama = t.openai_to_ollama

translate_request_by_reader :
    (t : Translators) (source target : ProtocolFormat) (model : String) (body : Value)
    (stream : Bool)
    → same_format source target ≡ false
    → same_format source open_ai ≡ false
    → same_format target open_ai ≡ false
    → (same_format source claude && same_format target open_ai_responses) ≡ false
    → translate_request t source target model body stream
      ≡ (response_reader t source body >>= (λ b. request_writer t target model b stream))
unfolding translate_request
translate_request_by_reader t open_ai target model body stream s h d n = cc
translate_request_by_reader t open_ai_responses open_ai model body stream s h d n = cc
translate_request_by_reader t claude open_ai model body stream s h d n = cc
translate_request_by_reader t gemini open_ai model body stream s h d n = cc
translate_request_by_reader t ollama open_ai model body stream s h d n = cc
translate_request_by_reader t open_ai_responses open_ai_responses model body stream s h d n = cc
translate_request_by_reader t open_ai_responses claude model body stream s h d n = refl
translate_request_by_reader t open_ai_responses gemini model body stream s h d n = refl
translate_request_by_reader t open_ai_responses ollama model body stream s h d n = refl
translate_request_by_reader t claude open_ai_responses model body stream s h d n = cc
translate_request_by_reader t claude claude model body stream s h d n = cc
translate_request_by_reader t claude gemini model body stream s h d n = refl
translate_request_by_reader t claude ollama model body stream s h d n = refl
translate_request_by_reader t gemini open_ai_responses model body stream s h d n = refl
translate_request_by_reader t gemini claude model body stream s h d n = refl
translate_request_by_reader t gemini gemini model body stream s h d n = cc
translate_request_by_reader t gemini ollama model body stream s h d n = refl
translate_request_by_reader t ollama open_ai_responses model body stream s h d n = refl
translate_request_by_reader t ollama claude model body stream s h d n = refl
translate_request_by_reader t ollama gemini model body stream s h d n = refl
translate_request_by_reader t ollama ollama model body stream s h d n = cc

-- Between two different formats, none of them OpenAI's, a request is read by the translator of
-- responses from the source's format, and then translated from OpenAI's to the target's; only a
-- request in Claude's format for the Responses API is not, but has a translator of its own.
pub translate_request_by_response_translators :
    (t : Translators) (source target : ProtocolFormat) (model : String) (body : Value)
    (stream : Bool)
    → same_format source target ≡ false
    → same_format source open_ai ≡ false
    → same_format target open_ai ≡ false
    → (same_format source claude && same_format target open_ai_responses) ≡ false
    → (translate_request t source target model body stream
        ≡ (response_reader t source body >>= (λ b. request_writer t target model b stream)))
      × (translate_request t claude open_ai_responses model body stream
          ≡ t.claude_to_responses model body stream)
unfolding translate_request
translate_request_by_response_translators t source target model body stream s h d n =
    (translate_request_by_reader t source target model body stream s h d n, refl)

-- No request is translated on its way to a provider of OpenAI's format, and no response that is in
-- OpenAI's format is translated for a client of another.
pub translate_to_open_ai_unchanged :
    (t : Translators) (format : ProtocolFormat) (model : String) (body : Value) (stream : Bool)
    → (translate_request t format open_ai model body stream ≡ ok body)
      × (translate_response t open_ai format body ≡ ok body)
unfolding translate_request translate_response
translate_to_open_ai_unchanged t open_ai model body stream = (refl, refl)
translate_to_open_ai_unchanged t open_ai_responses model body stream = (refl, refl)
translate_to_open_ai_unchanged t claude model body stream = (refl, refl)
translate_to_open_ai_unchanged t gemini model body stream = (refl, refl)
translate_to_open_ai_unchanged t ollama model body stream = (refl, refl)
