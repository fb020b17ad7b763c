-- ===== src/Generate.antt =====
-- app/generate: the schema of a generated resume, and the handler that generates one.
pub mod Schema
pub mod Service
pub mod Attempts
