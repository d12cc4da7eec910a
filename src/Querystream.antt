-- ===== src/Querystream.antt =====
-- The packages querystream and duckdbq.
pub mod Names
pub mod Sink
pub mod Open
pub mod Jsonl
pub mod Parquetenc
pub mod Duckdbq
