-- ===== src/Tests.antt =====
-- The theorems at concrete inputs.
mod Log
mod Replay
mod Pages
mod Wire
mod Locks
mod Cache
mod Waits
mod Transactions
mod Columns
mod Records
