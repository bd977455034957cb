-- ===== src/Tx/Manager/Session.antt =====
-- The page writes of a transaction: `_write_page_logged` of src/tinydb/storage/heap.py with
-- `log_page_write` of a manager of src/tinydb/tx/manager.py as its callback.
pub mod Writes
pub mod Undo
pub mod Begin
pub mod Crash
use tinydb.Base.{ℕ, List, [], ◌∷◌, Result, ok, raise}
use tinydb.Bytes.{ByteString}
use tinydb.Storage.Pager.{read_page, write_page}
use tinydb.Tx.Manager.{TransactionManager, log_page_write}

module _ (zlib_crc32 : ByteString → ℕ) where
  unfoldable pub write_page_logged :
      ℕ → ByteString → TransactionManager → Result (Unit {0}) × TransactionManager
  write_page_logged pid data_ m = elim (read_page m.pager pid) [
    | raise e ↦ (raise e, m)
    | ok before ↦
        let (r, m') = log_page_write zlib_crc32 pid before data_ m in
        let (s, p) = write_page m'.pager pid data_ in
        elim r [ raise e ↦ (raise e, m') | ok _ ↦ (s, record m' { pager = p }) ]
  ]

  -- Several page writes, up to the first that raises.
  unfoldable pub write_pages :
      List (ℕ × ByteString) → TransactionManager → Result (Unit {0}) × TransactionManager
  write_pages [] m = (ok tt, m)
  write_pages ((pid, data_) ∷ writes) m =
      let (r, m') = write_page_logged pid data_ m in
      let rest = write_pages writes m' in elim r [ raise e ↦ (raise e, m') | ok _ ↦ rest ]
