-- ===== src/Route/Tasks.antt =====
-- src/service.rs: what the tasks behind a relayed stream write once the stream is complete. Their
-- polling, at most 240 times every 250 ms until the buffer is the same three times, is left out.
use kou_router.Prelude.{
  String, Bool, ◌||◌, Option, none, some, List, [], ◌∷◌, if◌then◌else◌, unwrap_or, not,
}
use kou_router.Text.{contains, is_empty_text}
use kou_router.Json.{Value, string, json_object}
use kou_router.Cost.{extract_usage_from_sse}
use kou_router.Upstream.Stream.{Item, received}
use kou_router.ResponseCache.Store.{NewResponseCacheEntry}
use kou_router.Adapt.Sse.{is_sse_transcript}
use kou_router.Adapt.Responses.{reconstruct_responses_from_sse}
use kou_router.Adapt.Codex.{NewResponseDebugLog, build_response_debug_log}
use kou_router.Route.State.{StreamLog}

unfoldable pub cacheable_stream_transcript_complete : String → Bool
cacheable_stream_transcript_complete transcript =
    contains transcript "data: [DONE]"
    || contains transcript "event: response.completed"
    || contains transcript "\"type\":\"response.completed\""
    || contains transcript "event: message_stop"
    || contains transcript "\"type\":\"message_stop\""

-- `json!({"raw": text})`.
abbrev pub raw_json : String → Value
raw_json text = json_object (("raw", string text) ∷ [])

module _ (from_str : String → Option Value) (to_string : Value → String) where
  -- The row of the debug log of a relayed stream, unless it brought no bytes.
  unfoldable pub stream_log_row : StreamLog → List Item → Option NewResponseDebugLog
  stream_log_row log items =
      let raw_body = received items in
      let body =
        if is_sse_transcript raw_body
        then reconstruct_responses_from_sse from_str raw_body
        else unwrap_or (raw_json raw_body) (from_str raw_body) in
      if is_empty_text raw_body
      then none
      else some (
          build_response_debug_log from_str to_string log.request_id log.provider_id
            log.provider_account_id log.model log.sequence_no log.upstream_status raw_body body
            log.endpoint log.provider_is_codex)

  -- The cache entry of a relayed stream, if its transcript is complete.
  unfoldable pub stream_cache_entry :
      NewResponseCacheEntry → List Item → Option NewResponseCacheEntry
  unfolding cacheable_stream_transcript_complete
  stream_cache_entry entry items =
      let transcript = received items in
      if is_empty_text transcript || not (cacheable_stream_transcript_complete transcript)
      then none
      else some (record entry {
        usage = extract_usage_from_sse from_str transcript;
        response_body = to_string (raw_json transcript);
      })
