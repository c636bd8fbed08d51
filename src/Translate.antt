-- ===== src/Translate.antt =====
-- src/translate/registry.rs: which translation a pair of protocols gets. The translators themselves
-- are the fields of a record.
pub mod Laws
mod Tests
use kou_router.Prelude.{String, Bool, true, false, not, ◌&&◌, Option, none, some, if◌then◌else◌}
use kou_router.Errors.{Result, ok, err, ◌>>=◌}
use kou_router.Json.{Value}
use kou_router.Routing.Formats.{
  ProtocolFormat, open_ai, open_ai_responses, claude, gemini, ollama, same_format,
}

abbrev pub RequestTranslator : Type 0
RequestTranslator = String → Value → Bool → Result Value

abbrev pub ResponseTranslator : Type 0
ResponseTranslator = Value → Result Value

pub record Translators : Type 0 where
  pub openai_to_claude : RequestTranslator
  pub claude_to_openai : ResponseTranslator
  pub openai_to_gemini : RequestTranslator
  pub gemini_to_openai : ResponseTranslator
  pub openai_to_ollama : RequestTranslator
  pub ollama_to_openai : ResponseTranslator
  pub openai_to_responses : RequestTranslator
  pub claude_to_responses : RequestTranslator
  pub responses_to_openai : ResponseTranslator

module _ (t : Translators) where
  -- The tables that `register_all` fills.
  unfoldable pub request_translator : ProtocolFormat → ProtocolFormat → Option RequestTranslator
  request_translator open_ai claude = some t.openai_to_claude
  request_translator open_ai gemini = some t.openai_to_gemini
  request_translator open_ai ollama = some t.openai_to_ollama
  request_translator open_ai open_ai_responses = some t.openai_to_responses
  request_translator claude open_ai_responses = some t.claude_to_responses
  request_translator _ _ = none

  unfoldable pub response_translator : ProtocolFormat → ProtocolFormat → Option ResponseTranslator
  response_translator claude open_ai = some t.claude_to_openai
  response_translator gemini open_ai = some t.gemini_to_openai
  response_translator ollama open_ai = some t.ollama_to_openai
  response_translator open_ai_responses open_ai = some t.responses_to_openai
  response_translator _ _ = none

  -- Both formats differ from the hub's.
  abbrev pub needs_hub : ProtocolFormat → ProtocolFormat → Bool
  needs_hub source target = not (same_format source open_ai) && not (same_format target open_ai)

  -- The second half of the way over the hub; without one the body is passed through.
  unfoldable pub request_from_hub :
      Option RequestTranslator → String → Value → Value → Bool → Result Value
  request_from_hub (some from_openai) model body openai_body stream =
      from_openai model openai_body stream
  request_from_hub none model body openai_body stream = ok body

  unfoldable pub request_over_hub :
      Option ResponseTranslator → ProtocolFormat → String → Value → Bool → Result Value
  unfolding request_from_hub request_translator
  request_over_hub none target model body stream = ok body
  request_over_hub (some to_openai) target model body stream = to_openai body >>= (λ openai_body.
      request_from_hub (request_translator open_ai target) model body openai_body stream)

  unfoldable pub request_by :
      Option RequestTranslator
      → ProtocolFormat
      → ProtocolFormat
      → String
      → Value
      → Bool
      → Result Value
  unfolding request_over_hub response_translator
  request_by (some translator) source target model body stream = translator model body stream
  request_by none source target model body stream =
      if needs_hub source target
      then request_over_hub (response_translator source open_ai) target model body stream
      else ok body

  unfoldable pub translate_request :
      ProtocolFormat → ProtocolFormat → String → Value → Bool → Result Value
  unfolding request_by request_translator
  translate_request source target model body stream =
      if same_format source target
      then ok body
      else request_by (request_translator source target) source target model body stream

  unfoldable pub response_over_hub :
      Option ResponseTranslator → ProtocolFormat → Value → Result Value
  unfolding response_translator
  response_over_hub none target body = ok body
  response_over_hub (some to_openai) target body = to_openai body >>= (λ openai_body.
      elim (response_translator open_ai target) [
        | some from_openai ↦ from_openai openai_body
        | none ↦ ok openai_body
      ])

  unfoldable pub response_by :
      Option ResponseTranslator → ProtocolFormat → ProtocolFormat → Value → Result Value
  unfolding response_over_hub response_translator
  response_by (some translator) source target body = translator body
  response_by none source target body =
      if needs_hub source target
      then response_over_hub (response_translator source open_ai) target body
      else ok body

  unfoldable pub translate_response : ProtocolFormat → ProtocolFormat → Value → Result Value
  unfolding response_by response_translator
  translate_response source target body =
      if same_format source target
      then ok body
      else response_by (response_translator source target) source target body
