-- ===== src/Route/Execute.antt =====
-- src/service.rs: one target of `route`: the lookup in the cache, the execution and its repetition with
-- a refreshed token.
use kou_router.Prelude.{
  ◌+◌, Bool, true, false, ◌&&◌, Option, none, some, if◌then◌else◌, and_then, ◌==◌,
}
use kou_router.Errors.{Result, ok, err, upstream}
use kou_router.Models.{
  ProviderConnection, ProviderAccount, ProviderAccountAuthMode, api_key_mode, oauth_mode,
}
use kou_router.Upstream.{UpstreamResult, buffered, streaming}
use kou_router.Retry.{RetryOutcome, execute_with_retry}
use kou_router.Repository.{Repository}
use kou_router.Routing.Targets.{provider_with_account_auth}
use kou_router.ResponseCache.Key.{ResponseCacheIdentity}
use kou_router.ResponseCache.Store.{CacheRow, find_response_cache_entry}
use kou_router.Route.{Env}
use kou_router.Route.State.{Call, Aim, Progress, Outcome}
use kou_router.Route.Plan.{Sent, sent_request, logged}
use kou_router.Route.Answers.{by_outcome, cache_hit}

module _ (env : Env) where
  -- An execution that ran out of fuel; `Retry.Trace` shows that none does.
  abbrev pub settled : Option (Result RetryOutcome) → Result RetryOutcome
  settled (some r) = r
  settled none = err (upstream "")

  -- `execute_with_retry` with the next number of an execution.
  unfoldable pub executed :
      Call env
      → Aim env
      → Sent env
      → ProviderConnection
      → Progress env
      → Result RetryOutcome × Progress env
  executed call aim sent provider p =
      let k = p.world.executions in
      (
        settled (
            execute_with_retry env.ceil_secs env.retry_config
              (env.upstream k provider aim.upstream_endpoint aim.raw_model sent.prepared
                sent.headers (and_then aim.account (λ (a : ProviderAccount). a.proxy_url)))
              (env.jitter k)),
        record p { world = record p.world { executions = k + 1 } },
      )

  abbrev pub is_oauth : ProviderAccountAuthMode → Bool
  is_oauth oauth_mode = true
  is_oauth api_key_mode = false

  -- A buffered 401.
  abbrev pub is_unauthorized : UpstreamResult → Bool
  is_unauthorized (buffered r) = r.status == 401
  is_unauthorized (streaming s) = false

  -- The second execution, with the refreshed account; without one the first outcome stands.
  unfoldable pub executed_again :
      Call env
      → Aim env
      → Sent env
      → RetryOutcome
      → Progress env
      → Result ProviderAccount × Repository
      → Result RetryOutcome × Progress env
  unfolding executed
  executed_again call aim sent outcome p (err e, r) =
      (ok outcome, record p { world = record p.world { repository = r } })
  executed_again call aim sent outcome p (ok fresh, r) =
      executed call aim sent (provider_with_account_auth aim.provider fresh aim.provider.provider)
        (record p { world = record p.world { repository = r } })

  unfoldable pub after_first :
      Call env
      → Aim env
      → Sent env
      → Option ProviderAccount
      → Result RetryOutcome × Progress env
      → Result RetryOutcome × Progress env
  unfolding executed_again
  after_first call aim sent account (err e, p) = (err e, p)
  after_first call aim sent none (ok outcome, p) = (ok outcome, p)
  after_first call aim sent (some account) (ok outcome, p) =
      if is_oauth account.auth_mode && is_unauthorized outcome.result
      then executed_again call aim sent outcome p (env.refresh account.id p.world.repository)
      else (ok outcome, p)

  unfoldable pub execute_with_oauth_retry :
      Call env → Aim env → Sent env → Progress env → Result RetryOutcome × Progress env
  unfolding after_first executed
  execute_with_oauth_retry call aim sent p =
      after_first call aim sent aim.account (executed call aim sent aim.resolved_provider p)

  unfoldable pub sent_out :
      Call env → Aim env → Sent env → Result RetryOutcome × Progress env → Outcome env
  unfolding by_outcome
  sent_out call aim sent (result, p) = by_outcome env call aim sent result p

  -- The lookup in the cache, for a key if the context reads and the policy allows.
  unfoldable pub looked_up :
      Call env
      → Sent env
      → Option ResponseCacheIdentity
      → Progress env
      → Option CacheRow × Progress env
  unfolding find_response_cache_entry
  looked_up call sent none p = (none, p)
  looked_up call sent (some identity) p =
      let found =
        find_response_cache_entry env.now identity.cache_key call.cache_context.namespace
          identity.request_body_hash p.world.cache in
      if call.cache_context.read && sent.policy.cacheable
      then (found.0, record p { world = record p.world { cache = found.1 } })
      else (none, p)

  unfoldable pub after_lookup :
      Call env → Aim env → Sent env → Option CacheRow × Progress env → Outcome env
  unfolding cache_hit sent_out execute_with_oauth_retry
  after_lookup call aim sent (some row, p) = cache_hit env call aim sent row p
  after_lookup call aim sent (none, p) =
      sent_out call aim sent (execute_with_oauth_retry call aim sent p)

  -- The body of the loop over the targets.
  unfoldable pub try_target : Call env → Aim env → Progress env → Outcome env
  unfolding after_lookup looked_up sent_request logged
  try_target call aim p =
      let sent = sent_request env call aim in
      after_lookup call aim sent (looked_up call sent sent.identity (logged env call aim sent p))
