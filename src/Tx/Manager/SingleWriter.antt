-- ===== src/Tx/Manager/SingleWriter.antt =====
-- `begin` of src/tinydb/tx/manager.py while a transaction is active, and its deadlock check.
use tinydb.Base.{
  subst, ℕ, ◌<◌, ◌≡◌, ◌≢◌, refl, sym, ap, ◌∙◌, Bool, true, false, none, some, [], arith, ◌==◌,
  if◌then◌else◌, ok, raise, Bool-cases, Option-cases, inl, inr, deadlock, nested_transaction,
}
use tinydb.Base.Dict.{Dict, eq_nat, lookup, insert, pop}
use tinydb.Bytes.{ByteString}
use tinydb.Storage.Pager.{Pager}
use tinydb.Concurrent.Deadlock.{
  from_first, maximum, add_wait, detect_cycle, detect_loop, dfs_cycle, on_path, remove, waiters_on,
  pop_all,
}
use tinydb.Concurrent.RwLock.{is_owner}
use tinydb.Tx.Wal.{Wal}
use tinydb.Tx.Lock.{WriteLock, acquire, turn, release}
use tinydb.Tx.Lock.Owner.{IsHeldBy, asked, acquire_other, turn_held, release-acquire}
use tinydb.Tx.Manager.{
  TransactionContext, TransactionManager, new, begin, begin_reading, begin_locked, resume, go_on,
  log_page_write, commit, rollback, start, enter, release_lock, close_tx, would_deadlock, is_some,
}
use tinydb.Tx.Manager.Invariant.{
  idle, busy, Step, begins, logs, checks, locks, resumes, commits, rolls_back, Reachable, fresh,
  called, Reachable-Phase,
}

-- One waiter, for another transaction.
detect_cycle_one : (a b : ℕ) → b ≢ a → detect_cycle (insert a b []) ≡ none
unfolding detect_cycle detect_loop dfs_cycle on_path insert lookup
detect_cycle_one a b h = ground arith

remove_one : (a b : ℕ) → remove a (insert a b []) ≡ []
unfolding remove waiters_on pop_all insert pop
remove_one a b = ground arith

-- One waiter, for itself.
detect_cycle_self : (a : ℕ) → 0 < a → is_some (detect_cycle (insert a a [])) ≡ true
unfolding detect_cycle detect_loop dfs_cycle on_path insert lookup is_some from_first maximum
detect_cycle_self a h = ground (arith, h)

pub would_deadlock_lem :
    (n : ℕ) (m : TransactionManager) (tx : TransactionContext)
    → m.active_tx ≡ some tx
    → 0 < tx.tx_id
    → m.waits_for ≡ []
    → would_deadlock n m ≡ (n == tx.tx_id, [])
unfolding would_deadlock add_wait is_some
would_deadlock_lem n m tx a pos w = elim (Bool-cases (n == tx.tx_id)) [
  | inr b ↦
      rw
        (
          a,
          w,
          detect_cycle_one n tx.tx_id (λ e. absurd (ground (arith, b, e))),
          remove_one n tx.tx_id,
          would_deadlock,
          b,
        )
        refl
  | inl b ↦
      let same : n ≡ tx.tx_id = ground (arith, b) in
      rw
        (
          a,
          w,
          remove_one n tx.tx_id,
          would_deadlock,
          b,
          ← same,
          detect_cycle_self n (omega (arith, pos, same)),
        )
        refl
]

pub would_deadlock_idle :
    (n : ℕ) (m : TransactionManager)
    → m.active_tx ≡ none
    → m.waits_for ≡ []
    → would_deadlock n m ≡ (false, [])
unfolding would_deadlock
would_deadlock_idle n m a w = rw (a, w, would_deadlock) refl

-- The check leaves no waits.
waits_for-would_deadlock :
    (n : ℕ) (m : TransactionManager) → m.waits_for ≡ [] → (would_deadlock n m).1 ≡ []
unfolding would_deadlock add_wait
waits_for-would_deadlock n m w = elim (Option-cases m.active_tx) [
  | inl a ↦ rw (a, would_deadlock) w
  | inr (tx, a) ↦ rw (a, w, would_deadlock) (remove_one n tx.tx_id)
]

owner_is :
    (me t depth : ℕ) (l : WriteLock) → IsHeldBy t depth l → (t == me) ≡ is_owner me l.rwlock.writer
unfolding is_owner
owner_is me t depth l h = rw h.writer refl

pub remove_quiet : (t : ℕ) → remove t [] ≡ []
unfolding remove pop waiters_on pop_all
remove_quiet t = refl

module _ (zlib_crc32 : ByteString → ℕ) where
  waits_for-enter :
      (me : ℕ) (m : TransactionManager) → (enter zlib_crc32 me m).1.waits_for ≡ m.waits_for
  unfolding enter start
  waits_for-enter me m = ground arith

  waits_for-go_on :
      (me : ℕ) (m : TransactionManager) (got : Bool) (l : WriteLock)
      → (go_on zlib_crc32 me m (got, l)).1.waits_for ≡ m.waits_for
  unfolding go_on
  waits_for-go_on me m true l = waits_for-enter me (record m { lock = l })
  waits_for-go_on me m false l = refl

  waits_for-begin_locked :
      (me : ℕ) (m : TransactionManager) → (begin_locked zlib_crc32 me m).1.waits_for ≡ m.waits_for
  unfolding begin_locked
  waits_for-begin_locked me m = waits_for-go_on me m (acquire me m.lock).0 (acquire me m.lock).1

  waits_for-resume :
      (me : ℕ) (m : TransactionManager) → (resume zlib_crc32 me m).1.waits_for ≡ m.waits_for
  unfolding resume
  waits_for-resume me m = waits_for-go_on me m (turn me m.lock).0 (turn me m.lock).1

  waits_for-begin :
      (me : ℕ) (m : TransactionManager)
      → m.waits_for ≡ []
      → (begin zlib_crc32 me m).1.waits_for ≡ []
  unfolding begin begin_reading
  waits_for-begin me m w =
      let (v, waits) = would_deadlock m.next_tx_id m in
      let quiet = waits_for-would_deadlock m.next_tx_id m w in
      elim (Bool-cases v) [
        | inl e ↦ rw (e, begin) quiet
        | inr e ↦ rw (e, begin) (waits_for-begin_locked me (record m { waits_for = waits }) ∙ quiet)
      ]

  waits_for-log_page_write :
      (pid : ℕ) (before after : ByteString) (m : TransactionManager)
      → (log_page_write zlib_crc32 pid before after m).1.waits_for ≡ m.waits_for
  unfolding log_page_write
  waits_for-log_page_write pid before after m = ground arith

  waits_for-commit :
      (me : ℕ) (tx : TransactionContext) (m : TransactionManager)
      → m.waits_for ≡ []
      → (commit zlib_crc32 me tx m).1.waits_for ≡ []
  unfolding commit close_tx release_lock
  waits_for-commit me tx m w = ground (arith, remove_quiet tx.tx_id)

  waits_for-rollback :
      (me : ℕ) (tx : TransactionContext) (m : TransactionManager)
      → m.waits_for ≡ []
      → (rollback zlib_crc32 me tx m).1.waits_for ≡ []
  unfolding rollback close_tx release_lock
  waits_for-rollback me tx m w = ground (arith, remove_quiet tx.tx_id)

  waits_for-Step :
      (m m' : TransactionManager) → Step zlib_crc32 m m' → m.waits_for ≡ [] → m'.waits_for ≡ []
  waits_for-Step m _ (begins me _) w = waits_for-begin me m w
  waits_for-Step m _ (checks n _) w = waits_for-would_deadlock n m w
  waits_for-Step m _ (locks me _) w = waits_for-begin_locked me m ∙ w
  waits_for-Step m _ (resumes me _) w = waits_for-resume me m ∙ w
  waits_for-Step m _ (logs pid b a _) w = waits_for-log_page_write pid b a m ∙ w
  waits_for-Step m _ (commits me tx _) w = waits_for-commit me tx m w
  waits_for-Step m _ (rolls_back me tx _) w = waits_for-rollback me tx m w

  waits_for-Reachable :
      (p : Pager) (w : Wal) (m : TransactionManager) → Reachable zlib_crc32 p w m → m.waits_for ≡ []
  unfolding new
  waits_for-Reachable p w _ fresh = refl
  waits_for-Reachable p w _ (called m m' r s) = waits_for-Step m m' s (waits_for-Reachable p w m r)

  -- In a state that calls of begin, log_page_write, commit and rollback reach from a new manager,
  -- with other calls between the check of a begin and the turns of its wait, and nothing else that uses
  -- its deadlock detector, while a transaction is active under an id above 0: a call of begin that
  -- read its id before, and whose check no other call interrupts, raises DeadlockError and changes
  -- nothing when that id is now the one of the transaction; with any other id it goes on to the
  -- lock, in the same state.
  pub stale_id :
      (p : Pager) (w : Wal) (m : TransactionManager) (me new_tx_id : ℕ) (tx : TransactionContext)
      → Reachable zlib_crc32 p w m
      → m.active_tx ≡ some tx
      → 0 < tx.tx_id
      → begin_reading zlib_crc32 new_tx_id me m ≡ (
          if new_tx_id == tx.tx_id
          then (some (raise deadlock), m)
          else begin_locked zlib_crc32 me m)
  unfolding begin_reading
  stale_id p w m me new_tx_id tx r a pos =
      let quiet = waits_for-Reachable p w m r in
      let same : record m { waits_for = [] } ≡ m =
        ap (λ (d : Dict ℕ ℕ). record m { waits_for = d }) (sym quiet) in
      rw (would_deadlock_lem new_tx_id m tx a pos quiet, begin_reading)
        (ap
          (λ (x : TransactionManager).
            if new_tx_id == tx.tx_id
            then (some (raise deadlock), x)
            else begin_locked zlib_crc32 me x)
          same)

  enter_busy :
      (m : TransactionManager) (me : ℕ) (tx : TransactionContext) (l : WriteLock)
      → m.active_tx ≡ some tx
      → release me m.lock ≡ (ok tt, l)
      → enter zlib_crc32 me m ≡ (raise nested_transaction, record m { lock = l })
  unfolding enter
  enter_busy m me tx l a e = ground (arith, a, e)

  begin_nested :
      (m : TransactionManager) (t depth : ℕ) (tx : TransactionContext)
      → m.active_tx ≡ some tx
      → IsHeldBy t depth m.lock
      → begin_locked zlib_crc32 t m ≡ (some (raise nested_transaction), m)
  unfolding begin_locked go_on
  begin_nested m t depth tx a h =
      let (l, got, back) = release-acquire t depth m.lock h in
      rw (got, begin_locked) (rw (enter_busy (record m { lock = l }) t tx m.lock a back) refl)

  begin_other :
      (m : TransactionManager) (me t depth : ℕ)
      → IsHeldBy t depth m.lock
      → (t == me) ≡ false
      → begin_locked zlib_crc32 me m ≡ (none, record m { lock = asked m.lock })
  unfolding begin_locked go_on
  begin_other m me t depth h o = rw (acquire_other me t depth m.lock h o, begin_locked) refl

  begin_busy :
      (m : TransactionManager) (me t depth : ℕ) (tx : TransactionContext)
      → m.active_tx ≡ some tx
      → IsHeldBy t depth m.lock
      → begin_locked zlib_crc32 me m ≡ (
          if t == me
          then (some (raise nested_transaction), m)
          else (none, record m { lock = asked m.lock }))
  begin_busy m me t depth tx a h = elim (Bool-cases (t == me)) [
    | inr o ↦ rw o (begin_other m me t depth h o)
    | inl o ↦
        let e : t ≡ me = ground (arith, o) in
        rw o (
          subst (λ (x : ℕ). begin_locked zlib_crc32 x m ≡ (some (raise nested_transaction), m)) e
            (begin_nested m t depth tx a h))
  ]

  -- In a state that calls of begin, log_page_write, commit and rollback reach from a new manager,
  -- with other calls between the check of a begin and the turns of its wait, while a transaction is
  -- active: a call of begin behind its check raises NestedTransactionError and changes nothing
  -- when its thread is the one that writes; in another thread it waits, and all that changes is that
  -- the lock counts one more writer that waits. A later turn of a thread that waits in begin
  -- changes nothing.
  pub single_writer :
      (p : Pager) (w : Wal) (m : TransactionManager) (me : ℕ) (tx : TransactionContext)
      → Reachable zlib_crc32 p w m
      → m.active_tx ≡ some tx
      → (begin_locked zlib_crc32 me m ≡ (
          if is_owner me m.lock.rwlock.writer
          then (some (raise nested_transaction), m)
          else (none, record m { lock = asked m.lock })))
        × (resume zlib_crc32 me m ≡ (none, m))
  unfolding resume go_on
  single_writer p w m me tx r a = elim (Reachable-Phase zlib_crc32 p w m r) [
    | idle b c d ↦ absurd (let e : none ≡ some tx = sym b ∙ a in cc)
    | busy tx' t depth b c lt h ↦ (
      begin_busy m me t depth tx' b h
          ∙ ap
              (λ (o : Bool).
                if o
                then (some (raise nested_transaction), m)
                else (none, record m { lock = asked m.lock }))
              (owner_is me t depth m.lock h),
      rw (turn_held me t depth m.lock h, resume) refl,
    )
  ]
