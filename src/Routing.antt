-- ===== src/Routing.antt =====
-- src/service.rs and src/translate/format.rs: which providers may serve a request, and as what.
pub mod Formats
pub mod Models
pub mod Candidates
pub mod Targets
mod Tests
