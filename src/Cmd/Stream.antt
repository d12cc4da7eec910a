-- ===== src/Cmd/Stream.antt =====
-- cmd/stream: the demo that streams a CSV file into the log, and a query over the log to a console.
pub mod Config
pub mod Schema
pub mod Reviews
pub mod Producer
pub mod Consumer
pub mod Render
pub mod Main
mod Tests
