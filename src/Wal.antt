-- ===== src/Wal.antt =====
-- internal/adapters/primary/wal: the decoder of the replication stream, and the reader that batches
-- the decoded events, hands them over, and confirms positions.
pub mod Decoder
pub mod Stream
