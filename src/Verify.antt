-- ===== src/Verify.antt =====
-- app/verify: the deterministic checks, the workflow of the three stages, and verify-resume.
pub mod Patterns
pub mod Deterministic
mod Dates
pub mod Supported
pub mod Grounded
pub mod State
pub mod Graph
pub mod Verdicts
pub mod Effects
pub mod Service
pub mod Once
