-- ===== src/Tx/Manager/Session/Undo.antt =====
-- `begin`, `commit` and `rollback` of src/tinydb/tx/manager.py around the page writes of a
-- transaction.
use tinydb.Base.{
  ℕ, ◌+◌, ◌<◌, ◌^◌, ◌≡◌, refl, subst, ◌∙◌, true, false, not, ◌&&◌, none, some, List, [], ◌∷◌, ◌++◌,
  arith, ok, length, reverse, eq→==,
}
use tinydb.Bytes.{ByteString, be_bytes}
use tinydb.Bytes.Laws.{length-be_bytes, pack_be_ok}
use tinydb.Storage.Pager.{Pager}
use tinydb.Concurrent.Deadlock.{remove}
use tinydb.Tx.Lock.Owner.{IsHeldBy, freed, release_last}
use tinydb.Tx.Wal.{WalRecord, Wal, append, rt_rollback}
use tinydb.Tx.Wal.Frames.{Fits as FitsFrame}
use tinydb.Tx.Wal.Log.{Represents}
use tinydb.Tx.Wal.Durability.{append-Represents}
use tinydb.Tx.Recovery.{PageTouch}
use tinydb.Tx.Recovery.Traced.{Traced}
use tinydb.Tx.Recovery.Restore.{InFile}
use tinydb.Tx.Manager.{
  TransactionContext, TransactionManager, log_control, encode_tx_id, is_active, restore_pages,
  release_lock, close_tx, rollback, current_id,
}
use tinydb.Tx.Manager.Session.{write_pages}
use tinydb.Tx.Manager.Session.Writes.{IsReady, write_pages-Ran}
use tinydb.Tx.Recovery.OneTransaction.{entries_of}

-- A record of a begin, a commit or a rollback.
abbrev pub control_record : ℕ → ℕ → ℕ → WalRecord
control_record lsn type t = record { lsn = lsn; type = type; payload = be_bytes 8 t }

pub control_Fits :
    (lsn type t : ℕ) → lsn < 256 ^ 8 → type < 256 ^ 1 → FitsFrame (control_record lsn type t)
control_Fits lsn type t h k = record {
  lsn = h;
  type = k;
  payload = omega (arith, length-be_bytes 8 t);
}

-- The end of a transaction by the thread that holds the lock once.
pub close_tx_lem :
    (me : ℕ) (tx : TransactionContext) (m : TransactionManager)
    → m.held ≡ true
    → IsHeldBy me 1 m.lock
    → close_tx me tx m ≡ (
      ok tt,
      record m {
        lock = freed m.lock;
        waits_for = remove tx.tx_id m.waits_for;
        active_tx = none;
        held = false;
        logged_pages = [];
      },
    )
unfolding close_tx release_lock
close_tx_lem me tx m h l = rw (h, release_last me m.lock l) refl

pub is_active-some :
    (tx : TransactionContext) (m : TransactionManager)
    → m.active_tx ≡ some tx
    → is_active tx m.active_tx ≡ true
unfolding is_active
is_active-some tx m a = rw a (eq→== tx.tx_id tx.tx_id refl)

module _ (zlib_crc32 : ByteString → ℕ) where
  pub log_control_lem :
      (w : Wal) (rs : List WalRecord) (type t : ℕ)
      → Represents zlib_crc32 w rs
      → (w.use_process_lock && not w.lock_available) ≡ false
      → t < 256 ^ 8
      → type < 256 ^ 1
      → w.next_lsn < 256 ^ 8
      → ((log_control zlib_crc32 w type t).0 ≡ ok w.next_lsn)
        × Represents zlib_crc32
            (log_control zlib_crc32 w type t).1
            (rs ++ (control_record w.next_lsn type t ∷ []))
  unfolding log_control encode_tx_id
  log_control_lem w rs type t h u ht hk room =
      rw (pack_be_ok 8 t ht, log_control)
        (append-Represents zlib_crc32 w rs type (be_bytes 8 t) h
          (control_Fits w.next_lsn type t room hk) u)

  pub log_control_unlocked :
      (w : Wal) (type t : ℕ)
      → (w.use_process_lock && not w.lock_available) ≡ false
      → ((log_control zlib_crc32 w type t).1.use_process_lock
          && not (log_control zlib_crc32 w type t).1.lock_available)
        ≡ false
  unfolding log_control append
  log_control_unlocked w type t u = ground (arith, u)

  rollback_lem :
      (me : ℕ) (tx : TransactionContext) (m : TransactionManager) (p : Pager)
      → is_active tx m.active_tx ≡ true
      → (log_control zlib_crc32 m.wal rt_rollback tx.tx_id).0 ≡ ok m.wal.next_lsn
      → restore_pages (reverse m.logged_pages) m.pager ≡ (ok tt, p)
      → rollback zlib_crc32 me tx m
        ≡ close_tx me tx
            (record m { wal = (log_control zlib_crc32 m.wal rt_rollback tx.tx_id).1; pager = p })
  unfolding rollback
  rollback_lem me tx m p a l r = rw (a, l, rollback, r, r) refl

  -- A transaction that is rolled back, by the thread that holds the lock once, after writes of
  -- whole pages inside the file, page 0 excepted, with no page logged before them, on a valid pager
  -- and a log with room: it returns, the pager is as before the writes, header fields
  -- included, no transaction is active and the lock is free. The log then has the records from before,
  -- a page record for each write, in order, with the bytes of the page before and after it, and last
  -- the record of the rollback.
  pub rollback_restores :
      (me : ℕ) (tx : TransactionContext) (m : TransactionManager) (rs : List WalRecord)
      (ws : List (ℕ × ByteString))
      → IsReady zlib_crc32 m rs
      → InFile m.pager.num_pages ws
      → m.wal.next_lsn + length ws < 256 ^ 8
      → m.logged_pages ≡ []
      → m.active_tx ≡ some tx
      → tx.tx_id < 256 ^ 8
      → m.held ≡ true
      → IsHeldBy me 1 m.lock
      → let (r, m') = rollback zlib_crc32 me tx (write_pages zlib_crc32 ws m).1 in
        (r ≡ ok tt)
        × (m'.pager ≡ m.pager)
        × (m'.active_tx ≡ none)
        × (m'.lock.rwlock.writer ≡ none)
        × ((us : List PageTouch) × Traced (current_id m) m.pager.pages ws us
            × Represents zlib_crc32 m'.wal (
                (rs ++ entries_of m.wal.next_lsn us)
                ++ (control_record (m.wal.next_lsn + length ws) rt_rollback tx.tx_id ∷ [])))
  unfolding restore_pages
  rollback_restores me tx m rs ws h f room l a t held lock =
      let (_, ran) = write_pages-Ran zlib_crc32 ws m rs h f (omega (arith, room)) in
      let m' = (write_pages zlib_crc32 ws m).1 in
      let kept = rs ++ entries_of m.wal.next_lsn ran.touches in
      let (logged, log) =
        log_control_lem m'.wal kept rt_rollback tx.tx_id ran.ready.log ran.ready.unlocked t
          (omega arith) (omega (arith, ran.count)) in
      let wal = (log_control zlib_crc32 m'.wal rt_rollback tx.tx_id).1 in
      rw
        (
          rollback_lem me tx m' m.pager (is_active-some tx m' (ran.active ∙ a)) logged
              (ran.undo ∙ rw l refl),
          close_tx_lem me tx (record m' { wal = wal; pager = m.pager }) (ran.held ∙ held)
              (rw ran.lock lock),
        )
        (
          refl,
          refl,
          refl,
          refl,
          (
            ran.touches,
            ran.traced,
            subst
                (λ (k : ℕ).
                  Represents zlib_crc32 wal (kept ++ (control_record k rt_rollback tx.tx_id ∷ [])))
                ran.count log,
          ),
        )
