-- ===== src/Wal/Producer.antt =====
-- wal/producer.go: the primary's write path. Logging and metrics are left out.
pub mod Types
pub mod Backoff
pub mod Plan
pub mod Claim
pub mod Commit
pub mod State
pub mod Flush
pub mod Close
mod Tests
