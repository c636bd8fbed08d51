-- ===== src/Translate/Tests.antt =====
-- The theorems on the translators' table at concrete inputs.
use kou_router.Prelude.{refl, false, ◌≡◌}
use kou_router.Errors.{ok, err, bad_request}
use kou_router.Json.{null}
use kou_router.Routing.Formats.{gemini, ollama, claude, open_ai_responses}
use kou_router.Translate.{Translators, translate_request}
use kou_router.Translate.Laws.{translate_request_by_response_translators}

-- Translators of responses that refuse everything, and of requests that pass everything on.
abbrev refusing : Translators
refusing = record {
  openai_to_claude = λ model body stream. ok body;
  claude_to_openai = λ body. err (bad_request "no choices");
  openai_to_gemini = λ model body stream. ok body;
  gemini_to_openai = λ body. err (bad_request "no candidates");
  openai_to_ollama = λ model body stream. ok body;
  ollama_to_openai = λ body. err (bad_request "no message");
  openai_to_responses = λ model body stream. ok body;
  claude_to_responses = λ model body stream. ok body;
  responses_to_openai = λ body. err (bad_request "no output");
}

translate_request_by_response_translators_example :
    (translate_request refusing ollama gemini "m" null false ≡ err (bad_request "no message"))
    × (translate_request refusing claude open_ai_responses "m" null false ≡ ok null)
translate_request_by_response_translators_example =
    translate_request_by_response_translators refusing ollama gemini "m" null false refl refl refl
      refl
