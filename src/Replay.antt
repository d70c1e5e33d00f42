-- ===== src/Replay.antt =====
-- riftgate-replay: the write-ahead log.
pub mod Frame
pub mod Wal
