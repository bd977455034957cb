-- ===== src/Tx/Manager.antt =====
-- src/tinydb/tx/manager.py: transactions over the write lock, the log and the pager. The deadlock
-- detector is its dictionary of waits. A context is known by its id, which a manager gives out once.
-- `fsync` changes nothing that the model keeps: what `append` wrote is the file. The first argument
-- of a call is the thread that makes it, and `none` is a call that waits for the lock.
pub mod Invariant
pub mod SingleWriter
pub mod Session
pub mod Leaks
use tinydb.Base.{
  ℕ, ◌+◌, Bool, true, false, not, Option, none, some, List, [], ◌∷◌, ◌++◌, ◌==◌, if◌then◌else◌,
  Result, ok, raise, ◌>>=◌, value_error, deadlock, nested_transaction, runtime_error, reverse,
}
use tinydb.Base.Dict.{Dict}
use tinydb.Bytes.{ByteString, pack_be}
use tinydb.Storage.Pager.{Pager, write_page, set_last_lsn}
use tinydb.Storage.BufferPool.{Snapshot}
use tinydb.Concurrent.Deadlock.{add_wait, detect_cycle, remove}
use tinydb.Tx.Lock.{WriteLock, acquire, turn, release, new as new_lock}
use tinydb.Tx.Wal.{Wal, append, rt_begin, rt_commit, rt_rollback, rt_page}
use tinydb.Tx.Recovery.{encode_page_record}

pub record TransactionContext : Type 0 where
  pub tx_id : ℕ
  pub begin_lsn : ℕ
  pub snapshot : Snapshot

-- `held` tells whether the manager has a token of the lock.
pub record TransactionManager : Type 0 where
  pub pager : Pager
  pub wal : Wal
  pub lock : WriteLock
  pub waits_for : Dict ℕ ℕ
  pub next_tx_id : ℕ
  pub active_tx : Option TransactionContext
  pub held : Bool
  pub logged_pages : List (ℕ × ByteString)

unfoldable pub new : Pager → Wal → TransactionManager
new pager wal = record {
  pager = pager;
  wal = wal;
  lock = new_lock;
  waits_for = [];
  next_tx_id = 1;
  active_tx = none;
  held = false;
  logged_pages = [];
}

-- `_encode_tx_id`
unfoldable pub encode_tx_id : ℕ → Result ByteString
encode_tx_id tx_id = pack_be 8 tx_id

-- `_acquire_snapshot`: `last_lsn` of a pager that was closed raises.
unfoldable pub acquire_snapshot : TransactionManager → Result Snapshot
acquire_snapshot m =
    if m.pager.closed then raise runtime_error else ok (record { lsn = m.pager.last_lsn })

unfoldable pub is_some {ℓ} : {A : Type ℓ} → Option A → Bool
is_some none = false
is_some (some a) = true

-- The check at the start of `begin`, which runs without the lock, with the id that it read before:
-- whether there is a victim, and the waits it leaves.
unfoldable pub would_deadlock : ℕ → TransactionManager → Bool × Dict ℕ ℕ
would_deadlock new_tx_id m = elim m.active_tx [
  | none ↦ (false, m.waits_for)
  | some tx ↦
      let waiting = add_wait new_tx_id tx.tx_id m.waits_for in
      (is_some (detect_cycle waiting), remove new_tx_id waiting)
]

-- `is not tx`, negated
unfoldable pub is_active : TransactionContext → Option TransactionContext → Bool
is_active tx none = false
is_active tx (some active) = active.tx_id == tx.tx_id

-- `_release_lock`
unfoldable pub release_lock : ℕ → TransactionManager → Result (Unit {0}) × TransactionManager
release_lock me m =
    let (r, l) = release me m.lock in
    if m.held then (r, record m { lock = l; held = false }) else (ok tt, record m { held = false })

-- The end of `commit` and of `rollback`.
unfoldable pub close_tx :
    ℕ → TransactionContext → TransactionManager → Result (Unit {0}) × TransactionManager
close_tx me tx m =
    release_lock me
      (record m { waits_for = remove tx.tx_id m.waits_for; logged_pages = []; active_tx = none })

-- The loop of `rollback`, over pages that come in reverse.
unfoldable pub restore_pages : List (ℕ × ByteString) → Pager → Result (Unit {0}) × Pager
restore_pages [] p = (ok tt, p)
restore_pages ((page_id, before) ∷ items) p =
    let (r, p') = write_page p page_id before in
    let rest = restore_pages items p' in elim r [ ok _ ↦ rest | raise e ↦ (raise e, p') ]

-- The id that a page record gets.
unfoldable pub current_id : TransactionManager → ℕ
current_id m = elim m.active_tx [ none ↦ 0 | some tx ↦ tx.tx_id ]

module _ (zlib_crc32 : ByteString → ℕ) where
  -- `self._wal.append(type, _encode_tx_id(tx_id))`
  unfoldable pub log_control : Wal → ℕ → ℕ → Result ℕ × Wal
  log_control w type tx_id = elim (encode_tx_id tx_id) [
    | raise e ↦ (raise e, w)
    | ok payload ↦ append zlib_crc32 w type payload
  ]

  -- `begin` from the snapshot on
  unfoldable pub start : TransactionManager → ℕ → Result TransactionContext × TransactionManager
  start m tx_id =
      let (r, w) = log_control m.wal rt_begin tx_id in
      elim (acquire_snapshot m) [
        | raise e ↦ (raise e, m)
        | ok snapshot ↦ elim r [
          | raise e ↦ (raise e, record m { wal = w })
          | ok lsn ↦
              let tx : TransactionContext = record {
                tx_id = tx_id;
                begin_lsn = lsn;
                snapshot = snapshot;
              } in
              (ok tx, record m { wal = w; active_tx = some tx; held = true; logged_pages = [] })
        ]
      ]

  -- `begin` once the thread has the lock
  unfoldable pub enter : ℕ → TransactionManager → Result TransactionContext × TransactionManager
  enter me m = elim m.active_tx [
    | none ↦ start (record m { next_tx_id = m.next_tx_id + 1 }) m.next_tx_id
    | some _ ↦
        let (r, l) = release me m.lock in
        ((r >>= λ _. raise nested_transaction), record m { lock = l })
  ]

  -- `begin` after a turn of the lock's loop, which tells whether the thread has the lock.
  unfoldable pub go_on :
      ℕ
      → TransactionManager
      → Bool × WriteLock
      → Option (Result TransactionContext) × TransactionManager
  go_on me m (got, l) =
      let (r, m') = enter me (record m { lock = l }) in
      if got then (some r, m') else (none, record m { lock = l })

  -- `begin` behind its check, up to the first turn of the lock's loop.
  unfoldable pub begin_locked :
      ℕ → TransactionManager → Option (Result TransactionContext) × TransactionManager
  begin_locked me m = go_on me m (acquire me m.lock)

  -- A later turn, of a thread that waits in `begin`.
  unfoldable pub resume :
      ℕ → TransactionManager → Option (Result TransactionContext) × TransactionManager
  resume me m = go_on me m (turn me m.lock)

  -- `begin` with the id that it read before its check.
  unfoldable pub begin_reading :
      ℕ → ℕ → TransactionManager → Option (Result TransactionContext) × TransactionManager
  begin_reading new_tx_id me m =
      let (victim, waits) = would_deadlock new_tx_id m in
      if victim
      then (some (raise deadlock), record m { waits_for = waits })
      else begin_locked me (record m { waits_for = waits })

  -- `begin` with no call of another thread in its check.
  unfoldable pub begin :
      ℕ → TransactionManager → Option (Result TransactionContext) × TransactionManager
  begin me m = begin_reading m.next_tx_id me m

  unfoldable pub log_page_write :
      ℕ → ByteString → ByteString → TransactionManager → Result (Unit {0}) × TransactionManager
  log_page_write page_id before after m =
      elim (encode_page_record (current_id m) page_id before after) [
        | raise e ↦ (raise e, m)
        | ok payload ↦
            let (r, w) = append zlib_crc32 m.wal rt_page payload in
            elim r [
              | raise e ↦ (raise e, record m { wal = w })
              | ok lsn ↦ (
                ok tt,
                record m { wal = w; logged_pages = m.logged_pages ++ ((page_id, before) ∷ []) },
              )
            ]
      ]

  unfoldable pub commit :
      ℕ → TransactionContext → TransactionManager → Result (Unit {0}) × TransactionManager
  commit me tx m =
      let (r, w) = log_control m.wal rt_commit tx.tx_id in
      if not (is_active tx m.active_tx) then (raise value_error, m) else elim r [
        | raise e ↦ (raise e, record m { wal = w })
        | ok lsn ↦ close_tx me tx (record m { wal = w; pager = (set_last_lsn m.pager lsn).1 })
      ]

  unfoldable pub rollback :
      ℕ → TransactionContext → TransactionManager → Result (Unit {0}) × TransactionManager
  rollback me tx m =
      let (r, w) = log_control m.wal rt_rollback tx.tx_id in
      let (s, p) = restore_pages (reverse m.logged_pages) m.pager in
      if not (is_active tx m.active_tx) then (raise value_error, m) else elim r [
        | raise e ↦ (raise e, record m { wal = w })
        | ok lsn ↦ elim s [
          | raise e ↦ (raise e, record m { wal = w; pager = p })
          | ok _ ↦ close_tx me tx (record m { wal = w; pager = p })
        ]
      ]

  -- What `transaction` does with what its block came to: the state is that of the block's end.
  unfoldable pub leave {ℓ} :
      {A : Type ℓ}
      → ℕ
      → TransactionContext
      → Result A
      → TransactionManager
      → Result A × TransactionManager
  leave me tx (ok a) m = let (r, m') = commit me tx m in ((r >>= λ _. ok a), m')
  leave me tx (raise e) m = let (r, m') = rollback me tx m in ((r >>= λ _. raise e), m')

  -- `with mgr.transaction():` around a block
  unfoldable pub transaction {ℓ} :
      {A : Type ℓ}
      → ℕ
      → (TransactionManager → Result A × TransactionManager)
      → TransactionManager
      → Option (Result A) × TransactionManager
  transaction me block m =
      let (o, m') = begin me m in
      let (r, m'') = block m' in
      elim o [
        | none ↦ (none, m')
        | some (raise e) ↦ (some (raise e), m')
        | some (ok tx) ↦ let (s, left) = leave me tx r m'' in (some s, left)
      ]
