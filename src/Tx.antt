-- ===== src/Tx.antt =====
-- src/tinydb/tx/: the write-ahead log and recovery.
pub mod Wal
pub mod Recovery
pub mod Lock
pub mod Manager
