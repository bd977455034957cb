-- ===== src/Tx/Manager/Leaks.antt =====
-- Errors of `begin` and `commit` of src/tinydb/tx/manager.py that the write lock outlives.
use tinydb.Base.{
  ℕ, ◌+◌, ◌≡◌, refl, ap, ◌∙◌, true, false, none, some, [], ◌==◌, ◌⊎◌, inl, inr, ok, raise, Error,
  runtime_error, arith,
}
use tinydb.Base.Dict.{eq_nat}
use tinydb.Bytes.{ByteString}
use tinydb.Storage.Pager.{set_last_lsn}
use tinydb.Concurrent.Deadlock.{remove}
use tinydb.Tx.Lock.{WriteLock, acquire}
use tinydb.Tx.Lock.Owner.{IsFree, IsHeldBy, release_other, acquire_other}
use tinydb.Tx.Wal.{Wal, rt_begin, rt_commit}
use tinydb.Tx.Manager.{
  TransactionContext, TransactionManager, log_control, start, enter, begin, begin_reading,
  begin_locked, go_on, acquire_snapshot, commit, close_tx, release_lock,
}
use tinydb.Tx.Manager.SingleWriter.{would_deadlock_idle, remove_quiet}
use tinydb.Tx.Manager.Session.Begin.{acquire_free, acquire_snapshot_lem}
use tinydb.Tx.Manager.Session.Undo.{is_active-some}

acquire_snapshot_closed :
    (m : TransactionManager) → m.pager.closed ≡ true → acquire_snapshot m ≡ raise runtime_error
unfolding acquire_snapshot
acquire_snapshot_closed m o = ground (arith, o)

module _ (zlib_crc32 : ByteString → ℕ) where
  begin_waits :
      (m : TransactionManager) (me t depth : ℕ)
      → m.active_tx ≡ none
      → m.waits_for ≡ []
      → IsHeldBy t depth m.lock
      → (t == me) ≡ false
      → (begin zlib_crc32 me m).0 ≡ none
  unfolding begin begin_reading begin_locked go_on
  begin_waits m me t depth a w h o =
      rw (would_deadlock_idle m.next_tx_id m a w, acquire_other me t depth m.lock h o, begin) refl

  begin_enters :
      (me : ℕ) (m : TransactionManager) (l : WriteLock)
      → m.active_tx ≡ none
      → m.waits_for ≡ []
      → acquire me m.lock ≡ (true, l)
      → begin zlib_crc32 me m ≡ (
        some (enter zlib_crc32 me (record m { waits_for = []; lock = l })).0,
        (enter zlib_crc32 me (record m { waits_for = []; lock = l })).1,
      )
  unfolding begin begin_reading begin_locked go_on
  begin_enters me m l a w got = rw (would_deadlock_idle m.next_tx_id m a w, got, begin) refl

  -- Why `start` raises: the pager was closed, or the log refuses the record.
  abbrev pub Refuses : TransactionManager → ℕ → Error → Type 0
  Refuses m t x =
      ((m.pager.closed ≡ true) × (x ≡ runtime_error))
      ⊎ ((m.pager.closed ≡ false) × ((log_control zlib_crc32 m.wal rt_begin t).0 ≡ raise x))

  start_raises :
      (m : TransactionManager) (t : ℕ) (x : Error)
      → Refuses m t x
      → (w : Wal) × (start zlib_crc32 m t ≡ (raise x, record m { wal = w }))
  unfolding start
  start_raises m t x (inl (o, e)) = (m.wal, rw (acquire_snapshot_closed m o, start, e) refl)
  start_raises m t x (inr (o, e)) =
      ((log_control zlib_crc32 m.wal rt_begin t).1, rw (acquire_snapshot_lem m o, e, start) refl)

  enter_idle :
      (me : ℕ) (m : TransactionManager)
      → m.active_tx ≡ none
      → enter zlib_crc32 me m
        ≡ start zlib_crc32 (record m { next_tx_id = m.next_tx_id + 1 }) m.next_tx_id
  unfolding enter
  enter_idle me m a = ground (arith, a)

  enter_raises :
      (me : ℕ) (m : TransactionManager) (x : Error)
      → m.active_tx ≡ none
      → Refuses m m.next_tx_id x
      → (w : Wal) × (enter zlib_crc32 me m
          ≡ (raise x, record m { next_tx_id = m.next_tx_id + 1; wal = w }))
  enter_raises me m x a e =
      let m1 : TransactionManager = record m { next_tx_id = m.next_tx_id + 1 } in
      let (w, s) = start_raises m1 m.next_tx_id x e in (w, enter_idle me m a ∙ s)

  -- With no active transaction, no waits and the lock free, on a pager that was closed, or on an open
  -- one with a log that raises on the begin record: begin raises RuntimeError on the closed
  -- pager and what the log raised otherwise, no transaction is active, the manager has no token of
  -- the lock, and begin by any other thread then waits.
  pub begin_leaks :
      (me other : ℕ) (m : TransactionManager) (x : Error)
      → m.active_tx ≡ none
      → m.held ≡ false
      → m.waits_for ≡ []
      → IsFree m.lock
      → m.lock.rwlock.readers ≡ 0
      → Refuses m m.next_tx_id x
      → (me == other) ≡ false
      → let (o, m') = begin zlib_crc32 me m in
        (o ≡ some (raise x))
        × (m'.active_tx ≡ none)
        × (m'.held ≡ false)
        × ((begin zlib_crc32 other m').0 ≡ none)
  begin_leaks me other m x a h w f r e o =
      let (l, got, held) = acquire_free me m.lock f r in
      let m0 : TransactionManager = record m { waits_for = []; lock = l } in
      let (log, raised) = enter_raises me m0 x a e in
      let m' : TransactionManager = record m0 { next_tx_id = m.next_tx_id + 1; wal = log } in
      rw (begin_enters me m l a w got, raised) (refl, a, h, begin_waits m' other me 1 a refl held o)

  -- The state in which such a commit leaves the manager.
  abbrev after_commit : TransactionManager → TransactionContext → ℕ → TransactionManager
  after_commit m tx lsn = record m {
    pager = (set_last_lsn m.pager lsn).1;
    wal = (log_control zlib_crc32 m.wal rt_commit tx.tx_id).1;
    waits_for = remove tx.tx_id m.waits_for;
    active_tx = none;
    held = false;
    logged_pages = [];
  }

  -- Commit of the active transaction by a thread other than the one that holds the lock, when
  -- writing the commit record succeeds, with no waits: it raises RuntimeError, no transaction is
  -- active, the manager has no token of the lock, the lock is as before, and begin by the thread
  -- of the call then waits.
  pub commit_elsewhere :
      (me t depth lsn : ℕ) (tx : TransactionContext) (m : TransactionManager)
      → m.active_tx ≡ some tx
      → m.held ≡ true
      → m.waits_for ≡ []
      → IsHeldBy t depth m.lock
      → (t == me) ≡ false
      → (log_control zlib_crc32 m.wal rt_commit tx.tx_id).0 ≡ ok lsn
      → let (r, m') = commit zlib_crc32 me tx m in
        (r ≡ raise runtime_error)
        × (m'.active_tx ≡ none)
        × (m'.held ≡ false)
        × (m'.lock ≡ m.lock)
        × ((begin zlib_crc32 me m').0 ≡ none)
  unfolding commit close_tx release_lock
  commit_elsewhere me t depth lsn tx m a h w l o e =
      rw (is_active-some tx m a, e, commit, release_other me t depth m.lock l o, h)
        (
          refl,
          refl,
          refl,
          refl,
          begin_waits (after_commit m tx lsn) me t depth refl
              (ap (remove tx.tx_id) w ∙ remove_quiet tx.tx_id) l o,
        )
