-- ===== src/Tests.antt =====
-- Runs on one small database: a user, a job, two matches and their resumes.
pub mod Data
mod Screening
mod Verifying
mod Matching
mod Handling
mod Ingesting
mod Requests
mod Delivering
mod Linking
mod Profiles
