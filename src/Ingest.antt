-- ===== src/Ingest.antt =====
-- app/ingest and the shared parts of app/ats: postings become rows of `jobs`.
pub mod Html
pub mod Url
pub mod Posting
pub mod Store
pub mod Unique
pub mod Links
pub mod New
