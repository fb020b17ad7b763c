-- ===== src/Pipeline.antt =====
-- The handlers together, as deliveries to one server.
pub mod Deliveries
pub mod Untouched
pub mod Keeps
pub mod Lifecycle
pub mod Invariants
