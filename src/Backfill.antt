-- ===== src/Backfill.antt =====
-- internal/adapters/primary/backfill: tables are copied in chunks between watermarks in the stream of
-- changes. Several lanes work on one table each; the stream's goroutine calls the controller.
pub mod State
pub mod Controller
pub mod Chunks
pub mod Queue
pub mod Lane
