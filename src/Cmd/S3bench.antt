-- ===== src/Cmd/S3bench.antt =====
-- cmd/s3bench/main.go: the benchmark that writes a log through a producer, and reads it through a
-- replica. What it prints of times and rates is not modelled.
pub mod Human
pub mod Latency
pub mod Write
pub mod Read
pub mod Main
mod Tests
