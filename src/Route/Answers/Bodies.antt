-- ===== src/Route/Answers/Bodies.antt =====
-- src/service.rs: the body that `route` makes of an upstream's body, in the format of the client.
use Prim.Native.String
use kou_router.Prelude.{
  String, Bool, true, false, ◌&&◌, ◌||◌, List, [], ◌∷◌, not, if◌then◌else◌, unwrap_or,
}
use kou_router.Errors.{Result, ok, err, upstream, ◌>>=◌}
use kou_router.Json.{Value}
use kou_router.Models.Endpoint.{responses, chat_completions, messages, same_endpoint}
use kou_router.Upstream.Stream.{Item, bytes, failure}
use kou_router.Routing.Formats.{open_ai, open_ai_responses, same_format}
use kou_router.Translate.{translate_response}
use kou_router.Adapt.Sse.{is_sse_transcript}
use kou_router.Adapt.Events.{responses_sse_transcript_to_endpoint_stream_text}
use kou_router.Adapt.Success.{adapt_success_body, adapt_responses_success_body, stream_capture}
use kou_router.Route.{Env}
use kou_router.Route.State.{Call, Aim}
use kou_router.Route.Tasks.{raw_json}

-- The transcript of a stream that is read to its end; `?` at an error.
unfoldable pub collect : List Item → Result String
collect [] = ok ""
collect (failure e ∷ items) = err (upstream e)
collect (bytes b ∷ items) = collect items >>= (λ rest. ok (String.◌++◌ b rest))

module _ (env : Env) (call : Call env) (aim : Aim env) where
  -- The body for the client of a collected Codex stream.
  unfoldable pub collected_body : Value → Result Value
  unfolding translate_response adapt_success_body
  collected_body responses_body =
      if same_endpoint call.endpoint responses
      then ok responses_body
      else translate_response env.translators open_ai_responses open_ai responses_body
        >>= (λ openai_body.
            adapt_success_body env.from_str call.endpoint (env.to_string openai_body)
              call.normalized.stream false)

  -- The upstream speaks the client's format.
  unfoldable pub same_format_body : String → Bool → Result (Value × Bool)
  unfolding adapt_responses_success_body
  same_format_body body is_stream =
      if same_endpoint call.endpoint responses
      then adapt_responses_success_body env.from_str body call.normalized.stream is_stream
      else if is_stream || call.normalized.stream
      then ok (stream_capture body, is_stream)
      else ok (unwrap_or (raw_json body) (env.from_str body), is_stream)

  -- The body in the format of OpenAI, as a text, and whether it is a stream.
  unfoldable pub body_for_adapt : String → Bool → Result (String × Bool)
  unfolding is_sse_transcript responses_sse_transcript_to_endpoint_stream_text
      adapt_responses_success_body translate_response
  body_for_adapt body is_stream =
      if same_format aim.target_format open_ai_responses
      then if call.normalized.stream
          && is_sse_transcript body
          && (same_endpoint call.endpoint chat_completions || same_endpoint call.endpoint messages)
        then ok (
          responses_sse_transcript_to_endpoint_stream_text env.from_str env.to_string call.endpoint
              body,
          true,
        )
        else adapt_responses_success_body env.from_str body call.normalized.stream is_stream
          >>= (λ adapted.
              translate_response env.translators open_ai_responses open_ai adapted.0
              >>= (λ translated. ok (env.to_string translated, adapted.1)))
      else if not (same_format aim.target_format open_ai)
      then translate_response env.translators aim.target_format open_ai
          (unwrap_or (raw_json body) (env.from_str body))
        >>= (λ translated. ok (env.to_string translated, is_stream))
      else ok (body, is_stream)

  unfoldable pub other_format_body : String → Bool → Result (Value × Bool)
  unfolding body_for_adapt adapt_responses_success_body adapt_success_body
  other_format_body body is_stream = body_for_adapt body is_stream >>= (λ text.
      if same_endpoint call.endpoint responses
      then adapt_responses_success_body env.from_str text.0 call.normalized.stream is_stream
      else adapt_success_body env.from_str call.endpoint text.0 call.normalized.stream is_stream
        >>= (λ v. ok (v, text.1)))

  unfoldable pub buffered_body : String → Bool → Result (Value × Bool)
  unfolding same_format_body other_format_body
  buffered_body body is_stream =
      if same_format aim.source_format aim.target_format
      then same_format_body body is_stream
      else other_format_body body is_stream
