-- ===== src/Route/Laws.antt =====
-- src/service.rs: what the attempts of a request satisfy.
pub mod Trail
pub mod Single
pub mod Execute
pub mod Target
pub mod Order
pub mod Failover
pub mod Whole
