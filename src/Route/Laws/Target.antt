-- ===== src/Route/Laws/Target.antt =====
-- src/service.rs: the attempt of one target.
use kou_router.Prelude.{
  ℕ, String, Bool, ◌≡◌, refl, inl, inr, Option, none, some, List, ◌&&◌, Bool-cases, not, ◌∙◌,
}
use kou_router.Errors.{Result, ok, err, fallback_error, is_success}
use kou_router.Json.{Value}
use kou_router.Models.{ProviderChatAttempt}
use kou_router.Models.Endpoint.{EndpointKind, responses, same_endpoint}
use kou_router.Upstream.{
  Headers, UpstreamResult, buffered, streaming, ProviderResponse, StreamingProviderResponse,
}
use kou_router.Retry.{RetryOutcome}
use kou_router.ResponseCache.Key.{ResponseCacheIdentity}
use kou_router.ResponseCache.Store.{CacheRow}
use kou_router.Adapt.Codex.{is_codex_provider}
use kou_router.Upstream.Stream.{Item}
use kou_router.Cost.{UsageInfo}
use kou_router.Errors.Body.{display}
use kou_router.Route.{Env}
use kou_router.Route.State.{
  Call, Aim, Progress, Outcome, push, report_failure, report_success, update_rates, spawn,
}
use kou_router.Route.Plan.{Sent, sent_request, logged}
use kou_router.Route.Answers.{
  answered, stored, debug_of, failed_response, response_logged, collected_final, collected_by_error,
  collected_adapted, collected_transcript, collected, relayed, stream_stored, succeeded,
  adapted_success, rejected, by_status, by_result, by_outcome, cache_hit,
}
use kou_router.Route.Execute.{execute_with_oauth_retry, sent_out, after_lookup, try_target}
use kou_router.Route.Laws.Execute.{execute_with_oauth_retry-tried, looked_up-tried}
use kou_router.Route.Laws.Single.{Single, quiet, failed_once, answered_once, passed_once}

module _ (env : Env) (call : Call env) (aim : Aim env) where
  abbrev Leaves : List ProviderChatAttempt → Outcome env → Type 0
  Leaves before o = Single env call.endpoint aim before o

  stored-tried :
      (sent : Sent env) (o : Option ResponseCacheIdentity) (x : Option ℕ) (status : ℕ)
      (body : Value) (headers : Headers) (is_stream : Bool) (usage : Option UsageInfo)
      (p : Progress env)
      → (stored env call aim sent o x status body headers is_stream usage p).tried ≡ p.tried
  unfolding stored
  stored-tried sent (some i) (some x) status body headers is_stream usage p = refl
  stored-tried sent (some i) none status body headers is_stream usage p = refl
  stored-tried sent none x status body headers is_stream usage p = refl

  stream_stored-tried :
      (sent : Sent env) (o : Option ResponseCacheIdentity) (x : Option ℕ) (status : ℕ)
      (headers : Headers) (items : List Item) (p : Progress env)
      → (stream_stored env call aim sent o x status headers items p).tried ≡ p.tried
  unfolding stream_stored spawn
  stream_stored-tried sent (some i) (some x) status headers items p = refl
  stream_stored-tried sent (some i) none status headers items p = refl
  stream_stored-tried sent none x status headers items p = refl

  failed_response-Single :
      {before : List ProviderChatAttempt} (status : ℕ) (raw_body : String) (body : Value)
      (endpoint : EndpointKind) (message : String) (retry : Option ℕ) (p : Progress env)
      → p.tried ≡ before
      → Leaves before (failed_response env call aim status raw_body body endpoint message retry p)
  unfolding failed_response response_logged report_failure spawn push
  failed_response-Single status raw_body body endpoint message retry p h =
      failed_once status raw_body _ (rw h refl) _

  module _ (sent : Sent env) where
    answered-Single :
        {before : List ProviderChatAttempt} (status : ℕ) (raw_body : String) (body : Value)
        (is_stream : Bool) (headers : Headers) (p : Progress env)
        → p.tried ≡ before
        → Leaves before (answered env call aim sent status raw_body body is_stream headers p)
    unfolding answered push debug_of
    answered-Single status raw_body body is_stream headers p h =
        answered_once status raw_body _
          (rw (stored-tried sent _ _ status body headers is_stream _ p, h) refl) _ refl

    collected_final-Single :
        {before : List ProviderChatAttempt} (status : ℕ) (headers : Headers) (transcript : String)
        (is_stream : Bool) (final : Result Value) (p : Progress env)
        → p.tried ≡ before
        → Leaves before
            (collected_final env call aim sent status headers transcript is_stream final p)
    unfolding collected_final report_success
    collected_final-Single status headers transcript is_stream (err e) p h = quiet e p h
    collected_final-Single status headers transcript is_stream (ok final) p h =
        answered-Single status transcript final is_stream headers (report_success env aim p) h

    collected_by_error-Single :
        {before : List ProviderChatAttempt} (status : ℕ) (headers : Headers) (transcript : String)
        (body : Value) (is_stream : Bool) (retry : Option ℕ) (message : Option String)
        (p : Progress env)
        → p.tried ≡ before
        → Leaves before (
            collected_by_error env call aim sent status headers transcript body is_stream retry
              message p)
    unfolding collected_by_error response_logged spawn
    collected_by_error-Single status headers transcript body is_stream retry (some message) p h =
        failed_response-Single status transcript body aim.upstream_endpoint message retry p h
    collected_by_error-Single status headers transcript body is_stream retry none p h =
        collected_final-Single status headers transcript is_stream _ _ h

    rejected-Single :
        {before : List ProviderChatAttempt} (r : ProviderResponse) (retry : Option ℕ)
        (p : Progress env)
        → p.tried ≡ before
        → Leaves before (rejected env call aim sent r retry p)
    unfolding rejected response_logged report_failure spawn push
    rejected-Single r retry p h = elim (Bool-cases (fallback_error r.status r.body)) [
      | inl e ↦ rw e (passed_once r.status r.body _ (rw h refl) e)
      | inr e ↦ rw e (failed_once r.status r.body _ (rw h refl) _)
    ]

    collected_adapted-Single :
        {before : List ProviderChatAttempt} (status : ℕ) (headers : Headers) (transcript : String)
        (retry : Option ℕ) (adapted : Result (Value × Bool)) (p : Progress env)
        → p.tried ≡ before
        → Leaves before
            (collected_adapted env call aim sent status headers transcript retry adapted p)
    unfolding collected_adapted
    collected_adapted-Single status headers transcript retry (err e) p h = quiet e p h
    collected_adapted-Single status headers transcript retry (ok adapted) p h =
        collected_by_error-Single status headers transcript _ _ retry _ p h

    collected_transcript-Single :
        {before : List ProviderChatAttempt} (status : ℕ) (headers : Headers) (retry : Option ℕ)
        (transcript : Result String) (p : Progress env)
        → p.tried ≡ before
        → Leaves before (collected_transcript env call aim sent status headers retry transcript p)
    unfolding collected_transcript
    collected_transcript-Single status headers retry (err e) p h = quiet e p h
    collected_transcript-Single status headers retry (ok transcript) p h =
        collected_adapted-Single status headers transcript retry _ p h

    collected-Single :
        {before : List ProviderChatAttempt} (s : StreamingProviderResponse) (retry : Option ℕ)
        (p : Progress env)
        → p.tried ≡ before
        → Leaves before (collected env call aim sent s retry p)
    unfolding collected update_rates
    collected-Single s retry p h =
        collected_transcript-Single s.status s.response_headers retry _ _ h

    relayed-Single :
        {before : List ProviderChatAttempt} (s : StreamingProviderResponse) (p : Progress env)
        → p.tried ≡ before
        → Leaves before (relayed env call aim sent s p)
    unfolding relayed report_success push update_rates spawn debug_of
    relayed-Single s p h =
        answered_once s.status "[streaming]" _
          (rw (stream_stored-tried sent _ _ s.status s.response_headers _ _, h) refl) _ refl

    succeeded-Single :
        {before : List ProviderChatAttempt} (r : ProviderResponse) (retry : Option ℕ) (body : Value)
        (is_stream : Bool) (message : Option String) (p : Progress env)
        → p.tried ≡ before
        → Leaves before (succeeded env call aim sent r retry body is_stream message p)
    unfolding succeeded response_logged report_success update_rates spawn
    succeeded-Single r retry body is_stream (some message) p h =
        failed_response-Single r.status r.body body call.endpoint message retry p h
    succeeded-Single r retry body is_stream none p h =
        answered-Single r.status r.body body is_stream r.response_headers _ h

    adapted_success-Single :
        {before : List ProviderChatAttempt} (r : ProviderResponse) (retry : Option ℕ)
        (adapted : Result (Value × Bool)) (p : Progress env)
        → p.tried ≡ before
        → Leaves before (adapted_success env call aim sent r retry adapted p)
    unfolding adapted_success
    adapted_success-Single r retry (err e) p h = quiet e p h
    adapted_success-Single r retry (ok adapted) p h = succeeded-Single r retry _ _ _ p h

    by_status-Single :
        {before : List ProviderChatAttempt} (r : ProviderResponse) (retry : Option ℕ)
        (p : Progress env)
        → p.tried ≡ before
        → Leaves before (by_status env call aim sent r retry p)
    unfolding by_status
    by_status-Single r retry p h = elim (Bool-cases (is_success r.status)) [
      | inl e ↦ rw e (adapted_success-Single r retry _ p h)
      | inr e ↦ rw e (rejected-Single r retry p h)
    ]

    by_result-Single :
        {before : List ProviderChatAttempt} (result : UpstreamResult) (retry : Option ℕ)
        (p : Progress env)
        → p.tried ≡ before
        → Leaves before (by_result env call aim sent result retry p)
    unfolding by_result
    by_result-Single (buffered r) retry p h = by_status-Single r retry p h
    by_result-Single (streaming s) retry p h =
        elim (Bool-cases (
          same_endpoint aim.upstream_endpoint responses
          && is_codex_provider aim.provider
          && not call.normalized.stream)) [
            | inl e ↦ rw e (collected-Single s retry p h)
            | inr e ↦ rw e (relayed-Single s p h)
          ]

    -- An execution that failed is an attempt with the status 502, which the router falls back on.
    by_outcome-Single :
        {before : List ProviderChatAttempt} (result : Result RetryOutcome) (p : Progress env)
        → p.tried ≡ before
        → Leaves before (by_outcome env call aim sent result p)
    unfolding by_outcome report_failure push fallback_error
    by_outcome-Single (err e) p h = passed_once 502 (display e) _ (rw h refl) refl
    by_outcome-Single (ok outcome) p h = by_result-Single outcome.result _ p h

    cache_hit-Single :
        {before : List ProviderChatAttempt} (row : CacheRow) (p : Progress env)
        → p.tried ≡ before
        → Leaves before (cache_hit env call aim sent row p)
    unfolding cache_hit push debug_of
    cache_hit-Single row p h =
        answered_once row.entry.status "[response-cache hit]" _ (rw h refl) _ refl

    sent_out-Single :
        {before : List ProviderChatAttempt} (o : Result RetryOutcome × Progress env)
        → o.1.tried ≡ before
        → Leaves before (sent_out env call aim sent o)
    unfolding sent_out
    sent_out-Single (result, p) h = by_outcome-Single result p h

    after_lookup-Single :
        {before : List ProviderChatAttempt} (o : Option CacheRow × Progress env)
        → o.1.tried ≡ before
        → Leaves before (after_lookup env call aim sent o)
    unfolding after_lookup
    after_lookup-Single (some row, p) h = cache_hit-Single row p h
    after_lookup-Single (none, p) h =
        sent_out-Single (execute_with_oauth_retry env call aim sent p)
          (execute_with_oauth_retry-tried env call aim sent p ∙ h)

  -- A target leaves at most one attempt, and the loops go on only after one that the router falls
  -- back on.
  pub try_target-Single : (p : Progress env) → Leaves p.tried (try_target env call aim p)
  unfolding try_target logged
  try_target-Single p =
      let sent = sent_request env call aim in
      after_lookup-Single sent _
        (looked_up-tried env call aim sent sent.identity (logged env call aim sent p))
