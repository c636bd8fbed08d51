-- ===== src/Route/State.antt =====
-- src/service.rs: the state that a request works on and what it is answered with.
use kou_router.Prelude.{ℕ, String, Bool, Option, List, [], ◌∷◌, ◌++◌, none, some, map_option}
use kou_router.Errors.{Result}
use kou_router.Json.{Value}
use kou_router.Models.{
  ProviderConnection, ProviderAccount, ProviderChatAttempt, routing_provider_account,
}
use kou_router.Models.Endpoint.{EndpointKind}
use kou_router.Upstream.{Headers}
use kou_router.Upstream.Stream.{Item}
use kou_router.Repository.{
  Repository, mark_provider_failure, mark_provider_success, mark_provider_account_failure,
  mark_provider_account_success,
}
use kou_router.RateLimit.{States, update}
use kou_router.RateLimit.Headers.{parse_rate_limit_headers}
use kou_router.Cost.{UsageInfo}
use kou_router.ResponseCache.{ResponseCacheContext}
use kou_router.ResponseCache.Store.{CacheRow, NewResponseCacheEntry}
use kou_router.Routing.Candidates.{Turns}
use kou_router.Routing.Formats.{ProtocolFormat}
use kou_router.Adapt.Requests.{NormalizedRequest}
use kou_router.Adapt.Codex.{NewResponseDebugLog}
use kou_router.Route.{Env}

pub record NewRequestDebugLog : Type 0 where
  pub request_id : String
  pub provider_id : String
  pub provider_account_id : Option String
  pub model : String
  pub endpoint : String
  pub sequence_no : ℕ
  pub raw_body : String

-- The arguments of `persist_codex_stream_buffer_debug_log` behind its buffer.
pub record StreamLog : Type 0 where
  pub request_id : String
  pub provider_id : String
  pub provider_account_id : Option String
  pub model : String
  pub sequence_no : ℕ
  pub upstream_status : ℕ
  pub endpoint : EndpointKind
  pub provider_is_codex : Bool

-- The tasks that a request spawns: rows of the debug logs, and what waits for a relayed stream to
-- write its log or its cache entry.
pub data Task : Type 0 where
  request_debug_log : NewRequestDebugLog → Task
  response_debug_log : NewResponseDebugLog → Task
  stream_debug_log : List Item → StreamLog → Task
  stream_cache_write : List Item → NewResponseCacheEntry → Task

module _ (env : Env) where
  -- The service's state: the database's tables, the round-robin counters, the rate-limit tracker,
  -- the executions so far and the tasks spawned.
  pub record World : Type 0 where
    pub repository : Repository
    pub cache : List CacheRow
    pub turns : Turns
    pub rates : States env.floats.F64
    pub executions : ℕ
    pub tasks : List Task

  -- The world with the mutable variables of `route`.
  pub record Progress : Type 0 where
    pub world : World
    pub tried : List ProviderChatAttempt
    pub debug_sequence_no : ℕ

  pub record RoutingDebug : Type 0 where
    pub request_id : String
    pub requested_model : String
    pub resolved_model : String
    pub endpoint : String
    pub path_suffix : Option String
    pub tried : List ProviderChatAttempt
    pub usage : Option UsageInfo
    pub cost_usd : Option env.money.F64

  pub record RoutedResponse : Type 0 where
    pub body : Value
    pub debug : RoutingDebug
    pub is_stream : Bool
    pub response_headers : Headers

  pub record RoutedStream : Type 0 where
    pub stream : List Item
    pub debug : RoutingDebug
    pub response_headers : Headers

  -- The raw relay is not an answer of `route`.
  pub data RoutedResult : Type 0 where
    json : RoutedResponse → RoutedResult
    stream : RoutedStream → RoutedResult

  -- Whether the loops go on, or `route` returns.
  pub data Flow : Type 0 where
    onward : Flow
    answer : Result RoutedResult → Flow

  abbrev pub Outcome : Type 0
  Outcome = Flow × Progress

  -- What a request fixes before the loops.
  pub record Call : Type 0 where
    pub endpoint : EndpointKind
    pub suffix : Option String
    pub passthrough : Option Headers
    pub request_id : String
    pub cache_context : ResponseCacheContext
    pub normalized : NormalizedRequest
    pub resolved_model : String

  -- What the loops fix for one execution target.
  pub record Aim : Type 0 where
    pub candidate : String
    pub raw_model : String
    pub provider : ProviderConnection
    pub source_format : ProtocolFormat
    pub target_format : ProtocolFormat
    pub upstream_endpoint : EndpointKind
    pub provider_body : Value
    pub resolved_provider : ProviderConnection
    pub account : Option ProviderAccount

  -- `repository.mark_...` on the provider and then on the account.
  unfoldable pub account_marked :
      (String → Repository → Repository) → Option ProviderAccount → Repository → Repository
  account_marked mark none r = r
  account_marked mark (some account) r = mark account.id r

  abbrev pub in_repository : (Repository → Repository) → Progress → Progress
  in_repository f p = record p { world = record p.world { repository = f p.world.repository } }

  unfoldable pub report_failure : Aim → String → Progress → Progress
  unfolding account_marked
  report_failure aim message p =
      in_repository
        (λ r.
          account_marked (λ id. mark_provider_account_failure env.now id message) aim.account
            (mark_provider_failure env.now aim.provider.id message r))
        p

  unfoldable pub report_success : Aim → Progress → Progress
  unfolding account_marked
  report_success aim p =
      in_repository
        (λ r.
          account_marked (mark_provider_account_success env.now) aim.account
            (mark_provider_success env.now aim.provider.id r))
        p

  unfoldable pub update_rates : Aim → Headers → Progress → Progress
  update_rates aim headers p = record p {
    world = record p.world {
      rates =
          update env.floats.F64 env.now aim.provider.id
            (parse_rate_limit_headers env.floats env.dates headers) p.world.rates;
    };
  }

  unfoldable pub spawn : Task → Progress → Progress
  spawn task p = record p { world = record p.world { tasks = p.world.tasks ++ task ∷ [] } }

  -- `tried.push(...)`.
  unfoldable pub push : ProviderChatAttempt → Progress → Progress
  push attempt p = record p { tried = p.tried ++ attempt ∷ [] }

  unfoldable pub attempt_of : Aim → ℕ → String → ProviderChatAttempt
  attempt_of aim status body = record {
    provider_id = aim.provider.id;
    model = aim.candidate;
    status = status;
    body = body;
    account = map_option routing_provider_account aim.account;
  }
