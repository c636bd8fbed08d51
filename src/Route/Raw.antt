-- ===== src/Route/Raw.antt =====
-- src/service.rs: `proxy_raw_to_provider`. The exchange itself, `execute_raw_proxy` of
-- src/upstream.rs, is a parameter that depends on how many came before; bodies are texts.
pub mod Laws
pub mod Rows
use Prim.Native.String
use kou_router.Prelude.{
  ◌++◌, ℕ, ◌+◌, String, Bool, true, false, ◌&&◌, ◌||◌, Option, none, some, List, [], ◌∷◌,
  if◌then◌else◌, unwrap_or, and_then, map_option, keep, is_empty, str_eq,
}
use kou_router.Prelude.Sort.{sort_by}
use kou_router.Text.{is_empty_text}
use kou_router.Errors.{
  ◌>>=◌, Result, ok, err, AppError, bad_request, fallback_error, is_success, ◌>>=◌,
}
use kou_router.Errors.Body.{display}
use kou_router.Json.{Value, null, text_at}
use kou_router.Models.{ProviderConnection, ProviderAccount}
use kou_router.Models.Int.{lt_ℤ}
use kou_router.Models.Endpoint.{EndpointKind, as_str, supports_endpoint}
use kou_router.Upstream.{Headers}
use kou_router.Repository.{
  Repository, list_provider_connections, mark_provider_failure, mark_provider_success,
  mark_provider_account_failure, mark_provider_account_success,
}
use kou_router.Routing.Models.{
  before, split_model, find_providers_for_bare_model, is_anthropic_compatible_provider,
}
use kou_router.Routing.Targets.{Target, execution_targets}
use kou_router.Adapt.Codex.{is_codex_provider, build_response_debug_log}
use kou_router.Route.{Env}
use kou_router.Route.State.{World, Task, request_debug_log, response_debug_log, account_marked}
use kou_router.Route.Tasks.{raw_json}

pub record RawRoutedResponse : Type 0 where
  pub status : ℕ
  pub body : String
  pub content_type : Option String
  pub response_headers : Headers

-- What a request fixes.
pub record RawCall : Type 0 where
  pub request_id : String
  pub endpoint : EndpointKind
  pub method : String
  pub upstream_path : String
  pub payload : Option Value
  pub passthrough : Option Headers

-- `model`, the empty text if the payload names none.
abbrev pub model_of : RawCall → String
model_of call = unwrap_or "" (and_then call.payload (λ value. text_at value "model"))

unfoldable pub no_provider : RawCall → AppError
no_provider call = bad_request (
    if is_empty_text (model_of call)
    then String.◌++◌ "no provider found for endpoint '" (String.◌++◌ (as_str call.endpoint) "'")
    else String.◌++◌ "no provider found for model '" (String.◌++◌ (model_of call) "'"))

module _ (env : Env)
    (execute_raw_proxy : ℕ
      → ProviderConnection
      → RawCall
      → Option String
      → Result RawRoutedResponse) where
  -- The world with the mutable variables of the function.
  pub record RawProgress : Type 0 where
    pub world : World env
    pub debug_sequence_no : ℕ
    pub last_error : Option RawRoutedResponse

  pub data RawFlow : Type 0 where
    onward : RawFlow
    answer : Result RawRoutedResponse → RawFlow

  abbrev pub RawOutcome : Type 0
  RawOutcome = RawFlow × RawProgress

  abbrev pub with_repository : (Repository → Repository) → RawProgress → RawProgress
  with_repository f p = record p { world = record p.world { repository = f p.world.repository } }

  abbrev pub with_task : Task → RawProgress → RawProgress
  with_task task p = record p { world = record p.world { tasks = p.world.tasks ++ task ∷ [] } }

  module _ (call : RawCall) (provider : ProviderConnection) (account : Option ProviderAccount) where
    unfoldable pub marked_failure : String → RawProgress → RawProgress
    unfolding account_marked
    marked_failure message p =
        with_repository
          (λ r.
            account_marked env (λ id. mark_provider_account_failure env.now id message) account
              (mark_provider_failure env.now provider.id message r))
          p

    unfoldable pub marked_success : RawProgress → RawProgress
    unfolding account_marked
    marked_success p =
        with_repository
          (λ r.
            account_marked env (mark_provider_account_success env.now) account
              (mark_provider_success env.now provider.id r))
          p

    abbrev pub own_id : Option String
    own_id = map_option (λ (a : ProviderAccount). a.id) account

    -- The next sequence number and the debug row of the request.
    unfoldable pub raw_logged : RawProgress → RawProgress
    raw_logged p =
        let sequence_no = p.debug_sequence_no + 1 in
        with_task
          (request_debug_log (record {
            request_id = call.request_id;
            provider_id = provider.id;
            provider_account_id = own_id;
            model = model_of call;
            endpoint = call.upstream_path;
            sequence_no = sequence_no;
            raw_body = env.to_string (unwrap_or null call.payload);
          }))
          (record p { debug_sequence_no = sequence_no })

    unfoldable pub raw_response_logged : RawRoutedResponse → RawProgress → RawProgress
    raw_response_logged r p =
        with_task
          (response_debug_log (
            build_response_debug_log env.from_str env.to_string call.request_id provider.id own_id
              (model_of call) p.debug_sequence_no r.status r.body
              (unwrap_or (raw_json r.body) (env.from_str r.body)) call.endpoint
              (is_codex_provider provider)))
          p

    unfoldable pub raw_refused : RawRoutedResponse → RawProgress → RawOutcome
    unfolding marked_failure
    raw_refused r p =
        let q = record (marked_failure r.body p) { last_error = some r } in
        if fallback_error r.status r.body then (onward, q) else (answer (ok r), q)

    -- What came of the exchange.
    unfoldable pub raw_settled : Result RawRoutedResponse → RawProgress → RawOutcome
    unfolding marked_failure marked_success raw_response_logged raw_refused
    raw_settled (err e) p = (
      onward,
      record (marked_failure (display e) p) {
        last_error = some (record {
          status = 502;
          body = display e;
          content_type = some "text/plain";
          response_headers = [];
        });
      },
    )
    raw_settled (ok r) p =
        let logged = raw_response_logged r p in
        if is_success r.status then (answer (ok r), marked_success logged) else raw_refused r logged

  unfoldable pub raw_target : RawCall → ProviderConnection → Target → RawProgress → RawOutcome
  unfolding raw_settled raw_logged
  raw_target call provider target p =
      let q = raw_logged call provider target.1 p in
      let k = q.world.executions in
      raw_settled call provider target.1
        (execute_raw_proxy k target.0 call
          (and_then target.1 (λ (a : ProviderAccount). a.proxy_url)))
        (record q { world = record q.world { executions = k + 1 } })

  abbrev pub or_rest : (RawProgress → RawOutcome) → RawOutcome → RawOutcome
  or_rest rest (onward, p) = rest p
  or_rest rest (answer r, p) = (answer r, p)

  unfoldable pub raw_targets : RawCall → ProviderConnection → List Target → RawProgress → RawOutcome
  unfolding raw_target
  raw_targets call provider [] p = (onward, p)
  raw_targets call provider (target ∷ targets) p =
      or_rest (raw_targets call provider targets) (raw_target call provider target p)

  unfoldable pub raw_prepared :
      RawCall
      → ProviderConnection
      → Result (List Target) × Repository × (String → ℕ)
      → RawProgress
      → RawOutcome
  unfolding raw_targets
  raw_prepared call provider (err e, r, turns) p =
      (answer (err e), record p { world = record p.world { repository = r; turns = turns } })
  raw_prepared call provider (ok targets, r, turns) p =
      raw_targets call provider targets
        (record p { world = record p.world { repository = r; turns = turns } })

  unfoldable pub raw_providers : RawCall → List ProviderConnection → RawProgress → RawOutcome
  unfolding raw_prepared execution_targets
  raw_providers call [] p = (onward, p)
  raw_providers call (provider ∷ providers) p = or_rest (raw_providers call providers) (
      raw_prepared call provider
        (execution_targets env.refresh env.now provider call.endpoint p.world.repository
          p.world.turns)
        p)

  abbrev pub raw_available : ProviderConnection → Bool
  raw_available p =
      p.enabled && before env.now p.rate_limited_until && before env.now p.circuit_open_until

  -- The providers of the model that the request names, or those of the endpoint.
  unfoldable pub raw_matching : RawCall → List ProviderConnection → Result (List ProviderConnection)
  unfolding split_model find_providers_for_bare_model
  raw_matching call providers =
      if is_empty_text (model_of call)
      then ok (
          keep
            (λ (p : ProviderConnection).
              supports_endpoint p.supported_endpoints call.endpoint
              && is_anthropic_compatible_provider p)
            providers)
      else split_model (model_of call) >>= (λ parts. ok (
          if is_empty_text parts.0
          then find_providers_for_bare_model providers parts.1
          else keep
              (λ (p : ProviderConnection).
                str_eq p.model_prefix parts.0 || str_eq p.provider parts.0)
              providers))

  unfoldable pub raw_finished : RawCall → RawOutcome → Result RawRoutedResponse × RawProgress
  unfolding no_provider
  raw_finished call (answer r, p) = (r, p)
  raw_finished call (onward, p) =
      (unwrap_or (err (no_provider call)) (map_option (λ r. ok r) p.last_error), p)

  unfoldable pub raw_proxied :
      RawCall
      → Result (List ProviderConnection)
      → RawProgress
      → Result RawRoutedResponse × RawProgress
  unfolding raw_providers raw_finished sort_by no_provider
  raw_proxied call (err e) p = (err e, p)
  raw_proxied call (ok matching) p =
      if is_empty matching
      then (err (no_provider call), p)
      else raw_finished call (
          raw_providers call
            (sort_by (λ (a b : ProviderConnection). lt_ℤ a.priority b.priority) matching) p)

  unfoldable pub proxy_raw_to_provider :
      RawCall → World env → Result RawRoutedResponse × RawProgress
  unfolding raw_proxied raw_matching
  proxy_raw_to_provider call w =
      raw_proxied call
        (raw_matching call (keep raw_available (list_provider_connections w.repository)))
        (record { world = w; debug_sequence_no = 0; last_error = none })
