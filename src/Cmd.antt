-- ===== src/Cmd.antt =====
-- cmd/: the commands over the libraries.
pub mod Bucket
pub mod S3bench
pub mod Stream
