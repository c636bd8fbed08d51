-- ===== src/Route/Answers.antt =====
-- src/service.rs: what `route` does with the answer for one target, by its branches.
pub mod Bodies
use kou_router.Prelude.{
  ℕ, String, Bool, true, false, ◌&&◌, ◌||◌, Option, none, some, List, [], ◌∷◌, ◌++◌, not,
  if◌then◌else◌, unwrap_or, map_option,
}
use kou_router.Errors.{
  Result, ok, err, AppError, upstream, classified_upstream, UpstreamErrorKind,
  classify_upstream_error, http_status, fallback_error, is_success,
}
use kou_router.Errors.Body.{enriched_error_response, display}
use kou_router.Json.{Value, string, get, json_object}
use kou_router.Models.{ProviderAccount, ProviderChatAttempt}
use kou_router.Models.Endpoint.{
  EndpointKind, responses, chat_completions, messages, as_str, same_endpoint,
}
use kou_router.Upstream.{
  Headers, UpstreamResult, buffered, streaming, ProviderResponse, StreamingProviderResponse,
}
use kou_router.Upstream.Stream.{Item, bytes, failure, watchdog_stream}
use kou_router.Retry.{RetryOutcome}
use kou_router.Cost.{UsageInfo, extract_usage}
use kou_router.Cost.Pricing.{calculate_cost}
use kou_router.ResponseCache.Key.{ResponseCacheIdentity}
use kou_router.ResponseCache.Policy.{cacheable_response_headers}
use kou_router.ResponseCache.Store.{NewResponseCacheEntry, CacheRow, upsert_response_cache_entry}
use kou_router.Routing.Formats.{open_ai_responses, same_format}
use kou_router.Adapt.Codex.{is_codex_provider, build_response_debug_log}
use kou_router.Adapt.Events.{responses_sse_to_endpoint_stream}
use kou_router.Adapt.Success.{adapt_responses_success_body}
use kou_router.Adapt.Responses.{responses_stream_error_message}
use kou_router.Route.{Env}
use kou_router.Route.State
use kou_router.Route.State.{
  Call, Aim, Progress, Outcome, Flow, onward, answer, RoutingDebug, RoutedResult, json, stream,
  response_debug_log, stream_debug_log, stream_cache_write, spawn, push, attempt_of, report_failure,
  report_success, update_rates,
}
use kou_router.Route.Tasks.{raw_json}
use kou_router.Route.Plan.{Sent, account_id}
use kou_router.Route.Answers.Bodies.{collected_body, buffered_body, collect}

module _ (env : Env) (call : Call env) (aim : Aim env) where
  unfoldable pub debug_of :
      Option UsageInfo → Option env.money.F64 → Progress env → RoutingDebug env
  debug_of usage cost_usd p = record {
    request_id = call.request_id;
    requested_model = call.normalized.model;
    resolved_model = call.resolved_model;
    endpoint = as_str call.endpoint;
    path_suffix = call.suffix;
    tried = p.tried;
    usage = usage;
    cost_usd = cost_usd;
  }

  abbrev pub cost_of_usage : Option UsageInfo → Option env.money.F64
  cost_of_usage usage = map_option (calculate_cost env.money aim.candidate) usage

  -- `persist_codex_response_debug_log`.
  unfoldable pub response_logged : ℕ → String → Value → EndpointKind → Progress env → Progress env
  unfolding spawn
  response_logged status raw_body body endpoint p =
      spawn env
        (response_debug_log (
          build_response_debug_log env.from_str env.to_string call.request_id aim.provider.id
            (account_id env aim) aim.candidate p.debug_sequence_no status raw_body body endpoint
            (is_codex_provider aim.provider)))
        p

  unfoldable pub classified : ℕ → String → Option ℕ → AppError
  classified status body retry_after_secs =
      let kind = classify_upstream_error status body in
      classified_upstream (http_status kind)
        (enriched_error_response env.from_str kind status body aim.provider.id retry_after_secs)

  -- A response of the Responses API that failed, whatever its status.
  unfoldable pub failed_response :
      ℕ → String → Value → EndpointKind → String → Option ℕ → Progress env → Outcome env
  unfolding report_failure response_logged push attempt_of
  failed_response status raw_body body endpoint error_message retry_after_secs p =
      let upstream_error_body = env.to_string (
        json_object (
          (
            "error",
            unwrap_or (json_object (("message", string error_message) ∷ [])) (get body "error"),
          )
          ∷ [])) in
      let kind = classify_upstream_error 502 error_message in
      (
        answer (
            err (
              classified_upstream (http_status kind) (
                enriched_error_response env.from_str kind 502 upstream_error_body aim.provider.id
                  retry_after_secs))),
        push env (attempt_of env aim status raw_body) (
            response_logged status raw_body body endpoint (report_failure env aim error_message p)),
      )

  module _ (sent : Sent env) where
    unfoldable pub cache_entry :
        ResponseCacheIdentity
        → ℕ
        → ℕ
        → String
        → Headers
        → Bool
        → Option UsageInfo
        → NewResponseCacheEntry
    cache_entry identity expires_at status response_body headers is_stream usage = record {
      cache_key = identity.cache_key;
      endpoint = as_str call.endpoint;
      upstream_endpoint = as_str aim.upstream_endpoint;
      requested_model = call.normalized.model;
      resolved_model = call.resolved_model;
      provider_id = aim.provider.id;
      provider_account_id = account_id env aim;
      namespace = call.cache_context.namespace;
      request_body_hash = identity.request_body_hash;
      response_body = response_body;
      response_headers = cacheable_response_headers headers;
      status = status;
      is_stream = is_stream;
      usage = usage;
      expires_at = expires_at;
    }

    unfoldable pub stored :
        Option ResponseCacheIdentity
        → Option ℕ
        → ℕ
        → Value
        → Headers
        → Bool
        → Option UsageInfo
        → Progress env
        → Progress env
    unfolding cache_entry
    stored (some identity) (some expires_at) status body headers is_stream usage p = record p {
      world = record p.world {
        cache =
            upsert_response_cache_entry env.now
              (cache_entry identity expires_at status (env.to_string body) headers is_stream usage)
              p.world.cache;
      };
    }
    stored (some identity) none status body headers is_stream usage p = p
    stored none expires_at status body headers is_stream usage p = p

    abbrev pub with_miss : Headers → Headers
    with_miss headers =
        if call.cache_context.read && sent.policy.cacheable
        then headers ++ ("x-kou-cache", "MISS") ∷ []
        else headers

    -- A successful body is stored, recorded as an attempt and returned.
    unfoldable pub answered : ℕ → String → Value → Bool → Headers → Progress env → Outcome env
    unfolding stored push attempt_of debug_of
    answered status raw_body body is_stream headers p =
        let usage = extract_usage body in
        let q =
          push env (attempt_of env aim status raw_body)
            (stored sent.identity sent.expires_at status body headers is_stream usage p) in
        (
          answer (
              ok (
                json (record {
                  body = body;
                  debug = debug_of usage (cost_of_usage usage) q;
                  is_stream = is_stream;
                  response_headers = with_miss headers;
                }))),
          q,
        )

    -- The final body of a collected stream, or its error.
    unfoldable pub collected_final :
        ℕ → Headers → String → Bool → Result Value → Progress env → Outcome env
    unfolding answered report_success
    collected_final status headers transcript is_stream (err e) p = (answer (err e), p)
    collected_final status headers transcript is_stream (ok final) p =
        answered status transcript final is_stream headers (report_success env aim p)

    -- A Codex stream collected for a client that asked for none: what came of it.
    unfoldable pub collected_by_error :
        ℕ → Headers → String → Value → Bool → Option ℕ → Option String → Progress env → Outcome env
    unfolding failed_response collected_body response_logged collected_final
    collected_by_error status headers transcript body is_stream retry_after_secs (some message) p =
        failed_response status transcript body aim.upstream_endpoint message retry_after_secs p
    collected_by_error status headers transcript body is_stream retry_after_secs none p =
        collected_final status headers transcript is_stream (collected_body env call aim body)
          (response_logged status transcript body aim.upstream_endpoint p)

    unfoldable pub collected_adapted :
        ℕ → Headers → String → Option ℕ → Result (Value × Bool) → Progress env → Outcome env
    unfolding collected_by_error
    collected_adapted status headers transcript retry_after_secs (err e) p = (answer (err e), p)
    collected_adapted status headers transcript retry_after_secs (ok adapted) p =
        collected_by_error status headers transcript adapted.0 adapted.1 retry_after_secs
          (responses_stream_error_message adapted.0) p

    unfoldable pub collected_transcript :
        ℕ → Headers → Option ℕ → Result String → Progress env → Outcome env
    unfolding collected_adapted
    collected_transcript status headers retry_after_secs (err e) p = (answer (err e), p)
    collected_transcript status headers retry_after_secs (ok transcript) p =
        collected_adapted status headers transcript retry_after_secs
          (adapt_responses_success_body env.from_str transcript call.normalized.stream true) p

    unfoldable pub collected : StreamingProviderResponse → Option ℕ → Progress env → Outcome env
    unfolding collected_transcript update_rates collect
    collected s retry_after_secs p =
        collected_transcript s.status s.response_headers retry_after_secs
          (collect (watchdog_stream env.idle_secs s.stream))
          (update_rates env aim s.response_headers p)

    -- What the client of a relayed stream receives.
    unfoldable pub client_stream : List Item → List Item
    client_stream items =
        if same_endpoint aim.upstream_endpoint responses
          && same_format aim.target_format open_ai_responses
          && (same_endpoint call.endpoint chat_completions || same_endpoint call.endpoint messages)
        then responses_sse_to_endpoint_stream env.from_str env.to_string call.endpoint items
        else items

    -- The write of the cache entry is spawned if there is a key and a lifetime.
    unfoldable pub stream_stored :
        Option ResponseCacheIdentity
        → Option ℕ
        → ℕ
        → Headers
        → List Item
        → Progress env
        → Progress env
    unfolding cache_entry spawn
    stream_stored (some identity) (some expires_at) status headers items p =
        spawn env
          (stream_cache_write items (cache_entry identity expires_at status "" headers true none)) p
    stream_stored (some identity) none status headers items p = p
    stream_stored none expires_at status headers items p = p

    unfoldable pub relayed : StreamingProviderResponse → Progress env → Outcome env
    unfolding report_success push attempt_of update_rates client_stream stream_stored spawn debug_of
    relayed s p =
        let marked =
          push env (attempt_of env aim s.status "[streaming]") (report_success env aim p) in
        let rated = update_rates env aim s.response_headers marked in
        let teed = watchdog_stream env.idle_secs s.stream in
        let items = client_stream teed in
        let q = stream_stored sent.identity sent.expires_at s.status s.response_headers items (
          spawn env
            (stream_debug_log teed (record {
              request_id = call.request_id;
              provider_id = aim.provider.id;
              provider_account_id = account_id env aim;
              model = aim.candidate;
              sequence_no = rated.debug_sequence_no;
              upstream_status = s.status;
              endpoint = call.endpoint;
              provider_is_codex = is_codex_provider aim.provider;
            }))
            rated) in
        (
          answer (
              ok (
                stream (record {
                  stream = items;
                  debug = debug_of none none q;
                  response_headers = with_miss s.response_headers;
                }))),
          q,
        )

    -- A buffered response with a status of success, once its body is adapted.
    unfoldable pub succeeded :
        ProviderResponse → Option ℕ → Value → Bool → Option String → Progress env → Outcome env
    unfolding failed_response response_logged report_success update_rates answered
    succeeded r retry_after_secs body is_stream (some message) p =
        failed_response r.status r.body body call.endpoint message retry_after_secs p
    succeeded r retry_after_secs body is_stream none p =
        answered r.status r.body body is_stream r.response_headers (
          update_rates env aim r.response_headers
            (report_success env aim (response_logged r.status r.body body aim.upstream_endpoint p)))

    unfoldable pub adapted_success :
        ProviderResponse → Option ℕ → Result (Value × Bool) → Progress env → Outcome env
    unfolding succeeded
    adapted_success r retry_after_secs (err e) p = (answer (err e), p)
    adapted_success r retry_after_secs (ok adapted) p =
        succeeded r retry_after_secs adapted.0 adapted.1 (responses_stream_error_message adapted.0)
          p

    -- A buffered response with another status: on to the next target, or the last word.
    unfoldable pub rejected : ProviderResponse → Option ℕ → Progress env → Outcome env
    unfolding report_failure push attempt_of response_logged classified
    rejected r retry_after_secs p =
        let q = push env (attempt_of env aim r.status r.body) (report_failure env aim r.body p) in
        if fallback_error r.status r.body then (onward, q) else (
          answer (err (classified r.status r.body retry_after_secs)),
          response_logged r.status r.body (unwrap_or (raw_json r.body) (env.from_str r.body))
              call.endpoint q,
        )

    unfoldable pub by_status : ProviderResponse → Option ℕ → Progress env → Outcome env
    unfolding adapted_success rejected buffered_body
    by_status r retry_after_secs p =
        if is_success r.status
        then adapted_success r retry_after_secs (buffered_body env call aim r.body r.is_stream) p
        else rejected r retry_after_secs p

    -- The match on the upstream's result.
    unfoldable pub by_result : UpstreamResult → Option ℕ → Progress env → Outcome env
    unfolding collected relayed by_status
    by_result (streaming s) retry_after_secs p =
        if same_endpoint aim.upstream_endpoint responses
          && is_codex_provider aim.provider
          && not call.normalized.stream
        then collected s retry_after_secs p
        else relayed s p
    by_result (buffered r) retry_after_secs p = by_status r retry_after_secs p

    -- An execution that failed is recorded, and the next target gets its turn.
    unfoldable pub by_outcome : Result RetryOutcome → Progress env → Outcome env
    unfolding by_result report_failure push attempt_of
    by_outcome (err e) p = (
      onward,
      push env (attempt_of env aim 502 (display e)) (report_failure env aim (display e) p),
    )
    by_outcome (ok outcome) p = by_result outcome.result outcome.retry_after_secs p

    -- A hit of the cache is an attempt and the answer.
    unfoldable pub cache_hit : CacheRow → Progress env → Outcome env
    unfolding push attempt_of debug_of
    cache_hit row p =
        let cached = row.entry in
        let q = push env (attempt_of env aim cached.status "[response-cache hit]") p in
        (
          answer (
              ok (
                json (record {
                  body =
                      unwrap_or (raw_json cached.response_body) (env.from_str cached.response_body);
                  debug = debug_of cached.usage (cost_of_usage cached.usage) q;
                  is_stream = cached.is_stream;
                  response_headers = cached.response_headers ++ ("x-kou-cache", "HIT") ∷ [];
                }))),
          q,
        )
