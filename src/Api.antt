-- ===== src/Api.antt =====
-- app/api/service.py: what a user's requests read and write.
pub mod Trigger
pub mod Conserved
pub mod Events
pub mod UiState
pub mod Shown
