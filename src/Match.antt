-- ===== src/Match.antt =====
-- app/match: the three skill buckets, the rerank, and the match cycle.
pub mod Skills
pub mod Buckets
pub mod Rerank
pub mod Batch
pub mod Recorded
pub mod Cap
pub mod Cycle
pub mod Dirty
pub mod Modes
pub mod Service
pub mod Flags
pub mod Untouched
