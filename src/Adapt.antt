-- ===== src/Adapt.antt =====
-- src/service.rs: adapting requests to a provider's endpoint and responses to the client's.
pub mod Sse
pub mod Events
pub mod Responses
pub mod Success
pub mod Requests
pub mod Codex
mod Tests
