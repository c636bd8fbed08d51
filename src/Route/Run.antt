-- ===== src/Route/Run.antt =====
-- src/service.rs: the loops of `route` over candidates, providers and targets.
use Prim.Native.String
use kou_router.Prelude.{ℕ, String, Option, none, some, List, [], ◌∷◌, keep, is_empty, if◌then◌else◌}
use kou_router.Text.{is_empty_text}
use kou_router.Errors.Body.{enriched_error_response}
use kou_router.Errors.{
  Result, classify_upstream_error, http_status, classified_upstream, ok, err, AppError, bad_request,
  upstream, ◌>>=◌,
}
use kou_router.Json.{Value}
use kou_router.Models.{ProviderConnection, ProviderChatAttempt}
use kou_router.Models.Endpoint.{EndpointKind, as_str}
use kou_router.Upstream.{Headers}
use kou_router.RateLimit.{is_near_limit}
use kou_router.Repository.{Repository, list_provider_connections, resolve_alias}
use kou_router.Routing.Formats.{
  detect_source, from_provider, same_format, upstream_endpoint_for_provider,
}
use kou_router.Routing.Models.{split_model, available, matching_providers, order_providers}
use kou_router.Routing.Candidates.{expand_candidates}
use kou_router.Routing.Targets.{Target, execution_targets}
use kou_router.Translate.{translate_request}
use kou_router.Adapt.Requests.{NormalizedRequest, normalize_request}
use kou_router.Adapt.Codex.{maybe_adapt_codex_responses_request}
use kou_router.ResponseCache.{ResponseCacheContext}
use kou_router.Route.{Env}
use kou_router.Route.State.{World, Call, Aim, Progress, Outcome, onward, answer, RoutedResult, push}
use kou_router.Route.Execute.{try_target}

module _ (env : Env) where
  -- The rest of a loop, unless it returned.
  abbrev pub then_rest : (Progress env → Outcome env) → Outcome env → Outcome env
  then_rest rest (onward, p) = rest p
  then_rest rest (answer r, p) = (answer r, p)

  -- What the loop over the providers fixes.
  abbrev pub aim_at : Call env → String → String → ProviderConnection → Value → Target → Aim env
  aim_at call candidate raw_model provider provider_body target =
      let target_format = from_provider provider in
      record {
        candidate = candidate;
        raw_model = raw_model;
        provider = provider;
        source_format = detect_source call.endpoint call.normalized.body;
        target_format = target_format;
        upstream_endpoint = upstream_endpoint_for_provider call.endpoint target_format;
        provider_body = provider_body;
        resolved_provider = target.0;
        account = target.1;
      }

  unfoldable pub try_targets :
      Call env → (Target → Aim env) → List Target → Progress env → Outcome env
  unfolding try_target
  try_targets call aim [] p = (onward, p)
  try_targets call aim (target ∷ targets) p =
      then_rest (try_targets call aim targets) (try_target env call (aim target) p)

  -- The request in the provider's format.
  unfoldable pub provider_body : Call env → String → ProviderConnection → Result Value
  unfolding translate_request maybe_adapt_codex_responses_request
  provider_body call raw_model provider =
      let source_format = detect_source call.endpoint call.normalized.body in
      let target_format = from_provider provider in
      (if same_format source_format target_format
        then ok call.normalized.body
        else translate_request env.translators source_format target_format raw_model
            call.normalized.body call.normalized.stream)
      >>= (λ translated. ok (
          maybe_adapt_codex_responses_request env.to_string
            (upstream_endpoint_for_provider call.endpoint target_format) provider translated
            call.normalized.body))

  -- The targets of a provider with the world after they were prepared.
  abbrev pub in_world : Repository → (String → ℕ) → Progress env → Progress env
  in_world r turns p = record p { world = record p.world { repository = r; turns = turns } }

  unfoldable pub with_targets :
      Call env
      → (Target → Aim env)
      → Result (List Target) × Repository × (String → ℕ)
      → Progress env
      → Outcome env
  unfolding try_targets
  with_targets call aim (err e, r, turns) p = (answer (err e), in_world r turns p)
  with_targets call aim (ok targets, r, turns) p = try_targets call aim targets (in_world r turns p)

  unfoldable pub with_body :
      Call env → String → String → ProviderConnection → Result Value → Progress env → Outcome env
  unfolding with_targets execution_targets
  with_body call candidate raw_model provider (err e) p = (answer (err e), p)
  with_body call candidate raw_model provider (ok body) p =
      with_targets call (aim_at call candidate raw_model provider body)
        (execution_targets env.refresh env.now provider
          (upstream_endpoint_for_provider call.endpoint (from_provider provider)) p.world.repository
          p.world.turns)
        p

  -- The body of the loop over the providers.
  unfoldable pub try_provider :
      Call env → String → String → ProviderConnection → Progress env → Outcome env
  unfolding with_body provider_body
  try_provider call candidate raw_model provider p =
      with_body call candidate raw_model provider (provider_body call raw_model provider) p

  unfoldable pub try_providers :
      Call env → String → String → List ProviderConnection → Progress env → Outcome env
  unfolding try_provider
  try_providers call candidate raw_model [] p = (onward, p)
  try_providers call candidate raw_model (provider ∷ providers) p =
      then_rest (try_providers call candidate raw_model providers)
        (try_provider call candidate raw_model provider p)

  -- The attempt that stands for a candidate without a provider.
  unfoldable pub unresolved : EndpointKind → String → String → ProviderChatAttempt
  unresolved endpoint prefix raw_model = record {
    provider_id = String.◌++◌ "unresolved:" (if is_empty_text prefix then raw_model else prefix);
    model = raw_model;
    status = 404;
    body = String.◌++◌ "no provider found for model prefix and endpoint " (as_str endpoint);
    account = none;
  }

  -- The providers of a candidate in the order in which they are tried.
  unfoldable pub ordered_matching :
      List ProviderConnection → String → String → Progress env → List ProviderConnection
  unfolding order_providers matching_providers is_near_limit
  ordered_matching providers prefix raw_model p =
      order_providers
        (λ id. is_near_limit env.floats.F64 env.floats.ge env.warn_threshold id p.world.rates)
        (matching_providers providers prefix raw_model)

  unfoldable pub with_matching :
      Call env → String → String → String → List ProviderConnection → Progress env → Outcome env
  unfolding try_providers unresolved push
  with_matching call candidate prefix raw_model matching p =
      if is_empty matching
      then (onward, push env (unresolved call.endpoint prefix raw_model) p)
      else try_providers call candidate raw_model matching p

  -- The body of the loop over the candidates, once the candidate is split.
  unfoldable pub with_split :
      Call env
      → List ProviderConnection
      → String
      → Result (String × String)
      → Progress env
      → Outcome env
  unfolding with_matching ordered_matching
  with_split call providers candidate (err e) p = (answer (err e), p)
  with_split call providers candidate (ok (prefix, raw_model)) p =
      with_matching call candidate prefix raw_model (ordered_matching providers prefix raw_model p)
        p

  unfoldable pub try_candidates :
      Call env → List ProviderConnection → List String → Progress env → Outcome env
  unfolding with_split split_model
  try_candidates call providers [] p = (onward, p)
  try_candidates call providers (candidate ∷ candidates) p =
      then_rest (try_candidates call providers candidates)
        (with_split call providers candidate (split_model candidate) p)

  -- What the code returns behind the loops.
  unfoldable pub last_word : EndpointKind → Option ProviderChatAttempt → AppError
  last_word endpoint (some last) =
      let kind = classify_upstream_error last.status last.body in
      classified_upstream (http_status kind)
        (enriched_error_response env.from_str kind last.status last.body last.provider_id none)
  last_word endpoint none =
      upstream (String.◌++◌ "all providers/combo targets failed for " (as_str endpoint))

  abbrev pub last_of : List ProviderChatAttempt → Option ProviderChatAttempt
  last_of [] = none
  last_of (a ∷ []) = some a
  last_of (a ∷ b ∷ rest) = last_of (b ∷ rest)

  unfoldable pub finished : Call env → Outcome env → Result (RoutedResult env) × Progress env
  unfolding last_word
  finished call (answer r, p) = (r, p)
  finished call (onward, p) = (err (last_word call.endpoint (last_of p.tried)), p)

  abbrev pub started : World env → Progress env
  started w = record { world = w; tried = []; debug_sequence_no = 0 }

  -- `route` once the providers are listed.
  unfoldable pub with_providers :
      Call env
      → List String
      → List ProviderConnection
      → Progress env
      → Result (RoutedResult env) × Progress env
  unfolding try_candidates finished
  with_providers call candidates providers p =
      if is_empty providers
      then (
        err (
            bad_request
              (String.◌++◌ "no enabled providers configured for " (as_str call.endpoint))),
        p,
      )
      else finished call (try_candidates call providers candidates p)

  -- `route` once the candidates are known.
  unfoldable pub with_candidates :
      Call env
      → Result (List String) × (String → ℕ)
      → World env
      → Result (RoutedResult env) × Progress env
  unfolding with_providers available list_provider_connections
  with_candidates call (err e, turns) w = (err e, started (record w { turns = turns }))
  with_candidates call (ok candidates, turns) w =
      with_providers call candidates
        (keep (available env.now call.endpoint) (list_provider_connections w.repository))
        (started (record w { turns = turns }))

  unfoldable pub routed :
      EndpointKind
      → Option String
      → Option Headers
      → String
      → ResponseCacheContext
      → Result NormalizedRequest
      → World env
      → Result (RoutedResult env) × Progress env
  unfolding with_candidates expand_candidates resolve_alias
  routed endpoint suffix passthrough request_id cache_context (err e) w = (err e, started w)
  routed endpoint suffix passthrough request_id cache_context (ok normalized) w =
      let resolved_model = resolve_alias normalized.model w.repository in
      with_candidates
        (record {
          endpoint = endpoint;
          suffix = suffix;
          passthrough = passthrough;
          request_id = request_id;
          cache_context = cache_context;
          normalized = normalized;
          resolved_model = resolved_model;
        })
        (expand_candidates endpoint resolved_model w.repository w.turns) w

  unfoldable pub route :
      EndpointKind
      → Value
      → Option String
      → Option Headers
      → String
      → ResponseCacheContext
      → World env
      → Result (RoutedResult env) × Progress env
  unfolding routed normalize_request
  route endpoint payload suffix passthrough request_id cache_context w =
      routed endpoint suffix passthrough request_id cache_context
        (normalize_request env.to_string endpoint payload) w
