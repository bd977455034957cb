-- ===== src/Storage.antt =====
-- src/tinydb/storage/: the page file and the page cache.
pub mod Pager
pub mod BufferPool
pub mod FreeSpace
pub mod Heap
