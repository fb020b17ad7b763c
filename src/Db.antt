-- ===== src/Db.antt =====
-- The database as the handlers see it: rows of app/db/models.py, a session's reads and writes, and
-- the queue that a handler fills.
pub mod Rows
pub mod Session
pub mod Laws
