-- ===== src/Jobs.antt =====
-- The in-memory job queue of src/jobs.
pub mod Types
pub mod Queue
pub mod Operations
pub mod Limits
pub mod Balance
pub mod Places
pub mod Order
pub mod Retries
pub mod Metrics
