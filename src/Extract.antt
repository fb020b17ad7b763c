-- ===== src/Extract.antt =====
-- app/extract: a job's description becomes its requirements, its skills, a document and a vector.
pub mod Synthesize
pub mod Bounds
pub mod Trimmed
pub mod Model
pub mod Service
pub mod Once
pub mod Short
pub mod Redelivery
pub mod Preserve
