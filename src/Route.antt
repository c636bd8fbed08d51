-- ===== src/Route.antt =====
-- src/service.rs: `RouterService::route`. One instant stands for all readings of the clock during a
-- request.
pub mod State
pub mod Tasks
pub mod Plan
pub mod Answers
pub mod Execute
pub mod Run
pub mod Raw
pub mod Laws
mod Tests
use kou_router.Prelude.{ℕ, String, Option, Bool}
use kou_router.Errors.{Result}
use kou_router.Json.{Value}
use kou_router.Models.{Time, ProviderConnection, ProviderAccount}
use kou_router.Models.Endpoint.{EndpointKind}
use kou_router.Upstream.{Headers, UpstreamResult}
use kou_router.Upstream.Requests.{PreparedUpstreamRequest}
use kou_router.Repository.{Repository}
use kou_router.Retry.{RetryConfig}
use kou_router.RateLimit.{Floats, Dates}
use kou_router.Cost.Pricing.{Money}
use kou_router.Translate.{Translators}

pub data ProviderKind : Type 0 where
  first_party foundry vertex bedrock other : ProviderKind

pub record OAuthContext : Type 0 where
  pub account_uuid : Option String
  pub is_oauth_subscriber : Bool

-- The interface of src/fingerprint.rs that the route uses, with the client of a process.
pub record Fingerprint : Type 0 where
  pub enabled : Bool
  pub inject_body : Value → Value → Option OAuthContext → Value
  pub generate_headers : String → ProviderKind → Option OAuthContext → Headers

-- What the service is built with, and what answers it: the parsers and printers of libraries, a hash,
-- the upstream servers, the random jitter and the refresh of a token. The upstream's answer depends
-- on how many executions came before and on the number of the attempt in its execution.
pub record Env : Type 1 where
  pub now : Time
  pub floats : Floats
  pub dates : Dates
  pub money : Money
  pub from_str : String → Option Value
  pub to_string : Value → String
  pub sha256_hex : String → String
  pub ceil_secs : String → Option ℕ
  pub idle_secs : String
  pub retry_config : RetryConfig
  pub warn_threshold : floats.F64
  pub translators : Translators
  pub fingerprint : Fingerprint
  pub jitter : ℕ → ℕ → ℕ
  pub upstream :
      ℕ
      → ProviderConnection
      → EndpointKind
      → String
      → PreparedUpstreamRequest
      → Option Headers
      → Option String
      → ℕ
      → Result UpstreamResult
  pub refresh : String → Repository → Result ProviderAccount × Repository
