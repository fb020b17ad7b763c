-- ===== src/Handlers.antt =====
-- app/handlers.py: the HTTP handlers around the services.
pub mod Server
pub mod Postings
pub mod Matches
pub mod Requests
pub mod Resumes
pub mod Sent
pub mod Retries
pub mod Chain
pub mod Steps
pub mod Drain
