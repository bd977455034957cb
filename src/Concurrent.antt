-- ===== src/Concurrent.antt =====
-- src/tinydb/concurrent/: the reader/writer lock and the deadlock detector.
pub mod RwLock
pub mod Deadlock
