-- ===== src/Lib.antt =====
-- tinydb, an embedded SQL database in Python: its page file, its write-ahead log, recovery after
-- a crash, its transactions, its page cache, its locks, its column values and its wire protocol.
--
-- The parts and how they interact. `Storage.Pager` (src/tinydb/storage/pager.py) keeps the file
-- of 4096-byte pages, with the header on page 0 and a free list threaded through the free pages.
-- `Tx.Wal` (src/tinydb/tx/wal.py) appends checksummed frames to a log and reads them back.
-- `Tx.Recovery` (src/tinydb/tx/recovery.py) reads the log with `iter_from` and writes page
-- images back with the pager's `write_page`. `Storage.BufferPool`
-- (src/tinydb/storage/buffer_pool.py) caches pages above the pager. `Storage.Heap`
-- (src/tinydb/storage/heap.py) keeps records in slotted pages. `Concurrent`
-- (src/tinydb/concurrent/) has the reader/writer lock and the search for deadlocks. `Tx.Manager`
-- (src/tinydb/tx/manager.py, src/tinydb/tx/lock.py) has at most one transaction at a time, under
-- the write side of that lock: it writes control and page records to the log, restores pages
-- through the pager on a rollback, and leaves a log that recovery replays after a crash. `Types`
-- (src/tinydb/types/) encodes the values of a row as bytes. `Protocol` (src/tinydb/protocol/) is
-- independent of the rest: a message is encoded as the payload of a frame, and a reader finds
-- frames in a stream of bytes.
--
-- How state and operations correspond to the code.
--   Storage/Pager.antt: `Pager` is the object's fields, with the file as a list of pages; each
--     operation returns its result or exception and the pager after it. A file whose length is
--     not a multiple of the page size is not represented, and locks and fsync have no effect
--     here.
--   Tx/Wal.antt: `Wal` is the object's fields, with the file as a byte string; `append`,
--     `iter_from`, `truncate_to`, `_recover_lsn` and `__init__` are `append`, `iter_from`,
--     `truncate_to`, `recover_lsn` and `open_wal`.
--   Tx/Recovery.antt: `_decode_page_record`, `_encode_page_record` and the phases of `replay`.
--   Protocol/Frame.antt: `Frame` of frame.py. Protocol/Reader.antt: `FrameReader` and
--     `FrameWriter` of codec.py. Protocol/Values.antt and Protocol/Messages.antt: the messages
--     of messages.py, whose text and floating-point conversions are the fields of
--     `Protocol.Platform`.
--   Storage/BufferPool.antt: the pool's fields and operations, and `Snapshot` of
--     src/tinydb/tx/snapshot.py. Concurrent/RwLock.antt: `RWLock`, with its calls by any number
--     of threads as a step relation. Concurrent/Deadlock.antt: `DeadlockDetector`.
--   Tx/Lock.antt: `WriteLock` with the guard of its lock; a call tells whether it has the lock or
--     waits. Tx/Manager.antt: `TransactionManager`, whose calls take the thread that makes them;
--     `none` is a call that waits. `begin` is in parts between which other calls can run: its check
--     with the id that it read (`would_deadlock`), the first turn of the lock's loop
--     (`begin_locked`) and the later ones (`resume`). The check itself and what follows once a
--     thread has the lock are one step each. Tx/Manager/Session.antt: `_write_page_logged` of
--     src/tinydb/storage/heap.py with `log_page_write` as its callback.
--   Storage/FreeSpace.antt: `FreeSpaceMap`. Storage/Heap.antt: what the methods of `Heap` do with
--     the bytes of one page, and, over a transaction manager, `read`, `delete` and `insert` on
--     the page that it chose (`insert_at`).
--   Types.antt: the type tags and the values of a column. Types/Codec.antt: `value_size`,
--     `encode_value`, `decode_value` and rows. Types/Coerce.antt: `coerce_value` and
--     `encode_row_coerced`. The library's classes are `Types.Classes`, and its calls, the fields
--     of `Types.Platform`.
--   Bytes.antt: `struct` for integers of a fixed width. Base/Dict.antt: `dict`. Base.antt: the
--     Boolean tests, lists and exceptions that the parts share. Tests: the theorems at concrete
--     inputs.
--
-- Bounds and fuel. Integers are unbounded, as in Python, and a field of k bytes refuses a number
-- that does not fit, as `struct` does. The loops over the log take as fuel one more than the
-- file has bytes: each round passes 17 bytes at least. The loops over a stream run as often as
-- bytes are wanted. The search for a cycle takes as fuel one more than the graph has edges: its
-- path has no waiter twice.
--
-- What is not modelled: `zlib.crc32` is a parameter, an arbitrary function; UTF-8, ASCII,
-- doubles, the calendar, decimal numbers and JSON are parameters, with what is assumed of them
-- stated where it is used. Negative page ids and LSNs, which the code refuses, do not occur. The
-- SQL front end, the executor, the B-tree, the chain of a heap's pages, the catalog, the
-- checkpoint, the server, the clients, the command line and the JDBC driver are outside this
-- library. Waiting on a condition and its notifications are not modelled, only who may proceed.
pub mod Base
pub mod Bytes
pub mod Storage
pub mod Tx
pub mod Protocol
pub mod Concurrent
pub mod Tests
pub mod Types
