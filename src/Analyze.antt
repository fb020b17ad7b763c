-- ===== src/Analyze.antt =====
-- app/analyze: the daily budget of analyze-batch, and the handler analyze-match.
pub mod Ranking
pub mod Batch
pub mod Order
pub mod Budget
pub mod Service
pub mod Unique
