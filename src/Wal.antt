-- ===== src/Wal.antt =====
-- The package wal.
pub mod Segment
pub mod Entry
pub mod Manifest
pub mod Store
pub mod Producer
pub mod Replica
pub mod Cursor
mod Tests
