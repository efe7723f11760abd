-- ===== src/Wal.antt =====
-- wal/: the write-ahead log: records, the writer, replay and recovery.
pub mod Record
pub mod Replay
pub mod Checkpoint
pub mod Writer
pub mod Recovery
