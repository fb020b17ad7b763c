-- ===== src/Screen.antt =====
-- app/screen: the ordinal labels, the deterministic gate, and the handler screen-job.
pub mod Labels
pub mod Gate
pub mod Service
pub mod Overlap
pub mod Once
pub mod Frame
pub mod Redelivery
