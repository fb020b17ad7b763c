-- ===== src/Profile.antt =====
-- app/profile: how a resume becomes a profile, and how the profile is corrected.
pub mod Schema
pub mod Fields
pub mod Spans
pub mod Stable
pub mod Offline
pub mod Quoted
pub mod Sourced
pub mod Filters
pub mod Document
pub mod Trimmed
pub mod Tail
pub mod Limits
pub mod Service
pub mod Edit
pub mod Versions
pub mod Edited
pub mod Selected
pub mod Ingested
