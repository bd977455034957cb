-- ===== src/Tx/Manager/Session/Begin.antt =====
-- `begin` of src/tinydb/tx/manager.py between two transactions.
use tinydb.Base.{
  ℕ, ◌+◌, ◌-◌, ◌<◌, ◌^◌, ◌≡◌, refl, true, false, not, ◌&&◌, none, some, List, [], ◌∷◌, ◌++◌, arith,
  ok,
}
use tinydb.Base.Dict.{eq_nat, lookup, insert}
use tinydb.Bytes.{ByteString}
use tinydb.Storage.Pager.Access.{IsValid}
use tinydb.Storage.Pager.Whole.{AreWhole}
use tinydb.Concurrent.RwLock.{try_write, enter_write, is_writer_held}
use tinydb.Tx.Lock.{WriteLock, acquire, turn}
use tinydb.Tx.Lock.Owner.{IsFree, IsHeldBy}
use tinydb.Tx.Wal.{WalRecord, rt_begin}
use tinydb.Tx.Wal.Log.{Represents}
use tinydb.Tx.Manager.{
  TransactionContext, TransactionManager, log_control, acquire_snapshot, start, enter, begin,
  begin_reading, begin_locked, go_on, current_id,
}
use tinydb.Tx.Manager.SingleWriter.{would_deadlock_idle}
use tinydb.Tx.Manager.Session.Writes.{IsReady}
use tinydb.Tx.Manager.Session.Undo.{control_record, log_control_lem, log_control_unlocked}

pub acquire_free :
    (me : ℕ) (l : WriteLock)
    → IsFree l
    → l.rwlock.readers ≡ 0
    → (l' : WriteLock) × (acquire me l ≡ (true, l')) × IsHeldBy me 1 l'
unfolding acquire turn try_write enter_write is_writer_held lookup
acquire_free me l h r = (
  record {
    rwlock = record l.rwlock {
      writer = some me;
      writers_waiting = l.rwlock.writers_waiting + 1 - 1;
    };
    stacks = (me, 1) ∷ [];
  },
  unfold insert in ground (arith, h.writer, h.stacks),
  record { writer = refl; stacks = refl; entered = omega arith },
)

pub acquire_snapshot_lem :
    (m : TransactionManager)
    → m.pager.closed ≡ false
    → acquire_snapshot m ≡ ok (record { lsn = m.pager.last_lsn })
unfolding acquire_snapshot
acquire_snapshot_lem m o = ground (arith, o)

module _ (zlib_crc32 : ByteString → ℕ) where
  -- A manager between two transactions: nobody has the lock, nobody waits, its pager and its log
  -- are good.
  pub record IsResting (m : TransactionManager) (rs : List WalRecord) : Type 0 where
    pub active : m.active_tx ≡ none
    pub lock : IsFree m.lock
    pub readers : m.lock.rwlock.readers ≡ 0
    pub waits : m.waits_for ≡ []
    pub pager : IsValid m.pager
    pub whole : AreWhole m.pager.pages
    pub log : Represents zlib_crc32 m.wal rs
    pub unlocked : (m.wal.use_process_lock && not m.wal.lock_available) ≡ false
    pub positive : 0 < m.next_tx_id
    pub id : m.next_tx_id < 256 ^ 8

  -- What `begin` came to.
  pub record Begun (me : ℕ) (m m' : TransactionManager) (tx : TransactionContext)
      (rs : List WalRecord) : Type 0 where
    pub id : tx.tx_id ≡ m.next_tx_id
    pub current : current_id m' ≡ m.next_tx_id
    pub ready :
        IsReady zlib_crc32 m' (rs ++ (control_record m.wal.next_lsn rt_begin m.next_tx_id ∷ []))
    pub pager : m'.pager ≡ m.pager
    pub active : m'.active_tx ≡ some tx
    pub held : m'.held ≡ true
    pub lock : IsHeldBy me 1 m'.lock
    pub logged : m'.logged_pages ≡ []

  -- The context that `start` makes.
  abbrev opened : TransactionManager → ℕ → ℕ → TransactionContext
  opened m t lsn = record {
    tx_id = t;
    begin_lsn = lsn;
    snapshot = record { lsn = m.pager.last_lsn };
  }

  start_lem :
      (m : TransactionManager) (t lsn : ℕ)
      → m.pager.closed ≡ false
      → (log_control zlib_crc32 m.wal rt_begin t).0 ≡ ok lsn
      → start zlib_crc32 m t ≡ (
        ok (opened m t lsn),
        record m {
          wal = (log_control zlib_crc32 m.wal rt_begin t).1;
          active_tx = some (opened m t lsn);
          held = true;
          logged_pages = [];
        },
      )
  unfolding start
  start_lem m t lsn o e = rw (acquire_snapshot_lem m o, e, start) refl

  enter_lem :
      (me : ℕ) (m : TransactionManager) (lsn : ℕ)
      → m.active_tx ≡ none
      → m.pager.closed ≡ false
      → (log_control zlib_crc32 m.wal rt_begin m.next_tx_id).0 ≡ ok lsn
      → let tx = opened m m.next_tx_id lsn in
        enter zlib_crc32 me m ≡ (
          ok tx,
          record m {
            next_tx_id = m.next_tx_id + 1;
            wal = (log_control zlib_crc32 m.wal rt_begin m.next_tx_id).1;
            active_tx = some tx;
            held = true;
            logged_pages = [];
          },
        )
  unfolding enter
  enter_lem me m lsn a o e =
      rw (a, enter) (start_lem (record m { next_tx_id = m.next_tx_id + 1 }) m.next_tx_id lsn o e)

  pub begin_lem :
      (me : ℕ) (m : TransactionManager) (rs : List WalRecord)
      → IsResting m rs
      → m.wal.next_lsn < 256 ^ 8
      → (tx : TransactionContext) × (m' : TransactionManager) × (begin zlib_crc32 me m
          ≡ (some (ok tx), m'))
        × Begun me m m' tx rs
  unfolding begin begin_reading begin_locked go_on enter start current_id
  begin_lem me m rs h room =
      let (l, got, held) = acquire_free me m.lock h.lock h.readers in
      let (logged, log) =
        log_control_lem zlib_crc32 m.wal rs rt_begin m.next_tx_id h.log h.unlocked h.id
          (omega arith) room in
      let m0 : TransactionManager = record m {
        waits_for = [];
        lock = l;
        next_tx_id = m.next_tx_id + 1;
      } in
      let tx : TransactionContext = record {
        tx_id = m.next_tx_id;
        begin_lsn = m.wal.next_lsn;
        snapshot = record { lsn = m.pager.last_lsn };
      } in
      (
        tx,
        record m0 {
          wal = (log_control zlib_crc32 m.wal rt_begin m.next_tx_id).1;
          active_tx = some tx;
          held = true;
          logged_pages = [];
        },
        rw (would_deadlock_idle m.next_tx_id m h.active h.waits, got, begin)
            (rw
              (enter_lem me (record m { waits_for = []; lock = l }) m.wal.next_lsn h.active
                h.pager.is_open logged)
              refl),
        record {
          id = refl;
          current = refl;
          ready = record {
            pager = h.pager;
            whole = h.whole;
            log = log;
            unlocked = log_control_unlocked zlib_crc32 m.wal rt_begin m.next_tx_id h.unlocked;
            id = h.id;
          };
          pager = refl;
          active = refl;
          held = refl;
          lock = held;
          logged = refl;
        },
      )
