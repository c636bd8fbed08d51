-- ===== src/Upstream.antt =====
-- src/upstream.rs: what a request to a provider comes back with. A byte stream is the sequence of
-- what the router sees when it polls it; bytes are texts.
pub mod Stream
pub mod Passthrough
pub mod Paths
pub mod Requests
mod Tests
use kou_router.Prelude.{ℕ, String, Bool, List}

-- A poll of the byte stream yields bytes, an error, or nothing within the idle timeout.
pub data Poll : Type 0 where
  chunk : String → Poll
  broken : String → Poll
  idle : Poll

abbrev pub Headers : Type 0
Headers = List (String × String)

pub record StreamingProviderResponse : Type 0 where
  pub status : ℕ
  pub provider_id : String
  pub model : String
  pub stream : List Poll
  pub response_headers : Headers

pub record ProviderResponse : Type 0 where
  pub status : ℕ
  pub body : String
  pub is_stream : Bool
  pub response_headers : Headers

pub data UpstreamResult : Type 0 where
  buffered : ProviderResponse → UpstreamResult
  streaming : StreamingProviderResponse → UpstreamResult
