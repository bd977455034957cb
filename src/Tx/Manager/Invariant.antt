-- ===== src/Tx/Manager/Invariant.antt =====
-- The states of src/tinydb/tx/manager.py over any calls by any threads.
use tinydb.Base.{
  reverse, Result-cases, ℕ, suc, ◌+◌, ◌<◌, ◌≡◌, refl, true, false, none, some, List, [], ◌∷◌, ◌++◌,
  arith, Bool-cases, Bool, ap, ◌∙◌, inl, inr,
}
use tinydb.Base.Dict.{Dict}
use tinydb.Bytes.{ByteString}
use tinydb.Storage.Pager.{Pager}
use tinydb.Tx.Wal.{append, rt_begin, rt_commit, rt_rollback, rt_page, Wal}
use tinydb.Tx.Lock.{WriteLock, acquire, turn}
use tinydb.Tx.Lock.Owner.{
  release-IsOwned, IsHeldBy, IsOwned, unowned, owned, new-IsFree, acquire-IsFree, acquire-IsHeldBy,
  release_inner, acquire_waits, turn_waits, turn-IsFree, turn_held,
}
use tinydb.Tx.Recovery.{encode_page_record}
use tinydb.Tx.Manager.{
  is_active, current_id, restore_pages, would_deadlock, TransactionContext, TransactionManager, new,
  begin, begin_reading, begin_locked, resume, go_on, acquire_snapshot, log_page_write, commit,
  rollback, start, enter, log_control, release_lock, close_tx,
}

-- No transaction, and no token of the lock; or one transaction under an id that was given out, with
-- the token, while a thread holds the lock.
pub data Phase (m : TransactionManager) : Type 0 where
  idle : m.active_tx ≡ none → m.held ≡ false → IsOwned m.lock → Phase m
  busy :
      (tx : TransactionContext) (t depth : ℕ)
      → m.active_tx ≡ some tx
      → m.held ≡ true
      → tx.tx_id < m.next_tx_id
      → IsHeldBy t depth m.lock
      → Phase m

new-Phase : (p : Pager) (w : Wal) → Phase (new p w)
unfolding new
new-Phase p w = idle refl refl (unowned new-IsFree)

close_tx-Phase :
    (me : ℕ) (tx : TransactionContext) (m : TransactionManager)
    → m.held ≡ true
    → IsOwned m.lock
    → Phase (close_tx me tx m).1
unfolding close_tx release_lock
close_tx-Phase me tx m h o = rw h (idle refl refl (release-IsOwned me m.lock o))

logging-Phase :
    (m : TransactionManager) (w : Wal) (l : List (ℕ × ByteString))
    → Phase m
    → Phase (record m { wal = w; logged_pages = l })
logging-Phase m w l (idle a b c) = idle a b c
logging-Phase m w l (busy tx t d a b c e) = busy tx t d a b c e

waiting-Phase :
    (m : TransactionManager) (waits : Dict ℕ ℕ) → Phase m → Phase (record m { waits_for = waits })
waiting-Phase m waits (idle a b c) = idle a b c
waiting-Phase m waits (busy tx t d a b c e) = busy tx t d a b c e

module _ (zlib_crc32 : ByteString → ℕ) where
  pub start-Phase :
      (m : TransactionManager) (t me depth : ℕ)
      → m.active_tx ≡ none
      → m.held ≡ false
      → t < m.next_tx_id
      → IsHeldBy me depth m.lock
      → Phase (start zlib_crc32 m t).1
  unfolding start
  start-Phase m t me depth a h lt l = elim (Result-cases (acquire_snapshot m)) [
    | inr (x, f) ↦ rw (f, start) (idle a h (owned me depth l))
    | inl (snapshot, f) ↦ elim (Result-cases (log_control zlib_crc32 m.wal rt_begin t).0) [
      | inl (lsn, e) ↦ rw (f, e, start) (busy _ me depth refl refl lt l)
      | inr (x, e) ↦ rw (f, e, start) (idle a h (owned me depth l))
    ]
  ]

  -- A page record changes the log and the list of logged pages at most.
  log_page_write_frame :
      (pid : ℕ) (before after : ByteString) (m : TransactionManager)
      → (w : Wal) × (l : List (ℕ × ByteString)) × ((log_page_write zlib_crc32 pid before after m).1
          ≡ record m { wal = w; logged_pages = l })
  unfolding log_page_write
  log_page_write_frame pid before after m =
      elim (Result-cases (encode_page_record (current_id m) pid before after)) [
        | inr (x, e) ↦ (m.wal, m.logged_pages, rw (e, log_page_write) refl)
        | inl (b, e) ↦
            let w = (append zlib_crc32 m.wal rt_page b).1 in
            elim (Result-cases (append zlib_crc32 m.wal rt_page b).0) [
              | inr (x, f) ↦ (w, m.logged_pages, rw (e, f, log_page_write) refl)
              | inl (lsn, f) ↦
                  (w, m.logged_pages ++ ((pid, before) ∷ []), rw (e, f, log_page_write) refl)
            ]
      ]

  log_page_write-Phase :
      (pid : ℕ) (before after : ByteString) (m : TransactionManager)
      → Phase m
      → Phase (log_page_write zlib_crc32 pid before after m).1
  unfolding log_page_write
  log_page_write-Phase pid before after m h =
      let (w, l, e) = log_page_write_frame pid before after m in rw e (logging-Phase m w l h)

  commit-Phase :
      (me : ℕ) (tx : TransactionContext) (m : TransactionManager)
      → Phase m
      → Phase (commit zlib_crc32 me tx m).1
  unfolding commit is_active
  commit-Phase me tx m (idle a b c) =
      let n : is_active tx m.active_tx ≡ false = ground (arith, a) in rw (n, commit) (idle a b c)
  commit-Phase me tx m (busy tx' t d a b c e) = elim (Bool-cases (is_active tx m.active_tx)) [
    | inr x ↦ rw (x, commit) (busy tx' t d a b c e)
    | inl x ↦ elim (Result-cases (log_control zlib_crc32 m.wal rt_commit tx.tx_id).0) [
      | inl (lsn, f) ↦ rw (x, f, commit) (close_tx-Phase me tx _ b (owned t d e))
      | inr (y, f) ↦ rw (x, f, commit) (busy tx' t d a b c e)
    ]
  ]

  rollback-Phase :
      (me : ℕ) (tx : TransactionContext) (m : TransactionManager)
      → Phase m
      → Phase (rollback zlib_crc32 me tx m).1
  unfolding rollback is_active
  rollback-Phase me tx m (idle a b c) =
      let n : is_active tx m.active_tx ≡ false = ground (arith, a) in rw (n, rollback) (idle a b c)
  rollback-Phase me tx m (busy tx' t d a b c e) = elim (Bool-cases (is_active tx m.active_tx)) [
    | inr x ↦ rw (x, rollback) (busy tx' t d a b c e)
    | inl x ↦ elim (Result-cases (log_control zlib_crc32 m.wal rt_rollback tx.tx_id).0) [
      | inr (y, f) ↦ rw (x, f, rollback) (busy tx' t d a b c e)
      | inl (lsn, f) ↦ elim (Result-cases (restore_pages (reverse m.logged_pages) m.pager).0) [
        | inr (y, g) ↦ rw (x, f, g, rollback) (busy tx' t d a b c e)
        | inl (_, g) ↦ rw (x, f, g, rollback) (close_tx-Phase me tx _ b (owned t d e))
      ]
    ]
  ]

  enter_idle-Phase :
      (me depth : ℕ) (m : TransactionManager)
      → m.active_tx ≡ none
      → m.held ≡ false
      → IsHeldBy me depth m.lock
      → Phase (enter zlib_crc32 me m).1
  unfolding enter
  enter_idle-Phase me depth m a b h =
      rw (a, enter)
        (start-Phase (record m { next_tx_id = m.next_tx_id + 1 }) m.next_tx_id me depth a b
          (omega arith) h)

  enter_busy-Phase :
      (me depth : ℕ) (tx : TransactionContext) (m : TransactionManager)
      → m.active_tx ≡ some tx
      → m.held ≡ true
      → tx.tx_id < m.next_tx_id
      → 0 < depth
      → IsHeldBy me (suc depth) m.lock
      → Phase (enter zlib_crc32 me m).1
  unfolding enter
  enter_busy-Phase me depth tx m a b lt p h =
      rw (a, release_inner me depth m.lock h p, enter)
        (busy tx me depth a b lt (record { writer = h.writer; stacks = refl; entered = p }))

  acquired-Phase :
      (me : ℕ) (m : TransactionManager) (l : WriteLock)
      → Phase m
      → acquire me m.lock ≡ (true, l)
      → Phase (enter zlib_crc32 me (record m { lock = l })).1
  acquired-Phase me m l (idle a b (unowned h)) e =
      enter_idle-Phase me 1 (record m { lock = l }) a b (acquire-IsFree me m.lock l h e)
  acquired-Phase me m l (idle a b (owned t d h)) e =
      let (same, h') = acquire-IsHeldBy me t d m.lock l h e in
      enter_idle-Phase me (suc d) (record m { lock = l }) a b (rw same h')
  acquired-Phase me m l (busy tx t d a b lt h) e =
      let (same, h') = acquire-IsHeldBy me t d m.lock l h e in
      enter_busy-Phase me d tx (record m { lock = l }) a b lt h.entered (rw same h')

  -- A lock with the same owner.
  relocked-Phase :
      (m : TransactionManager) (l : WriteLock)
      → Phase m
      → l.rwlock.writer ≡ m.lock.rwlock.writer
      → l.stacks ≡ m.lock.stacks
      → Phase (record m { lock = l })
  relocked-Phase m l (idle a b (unowned h)) w s =
      idle a b (unowned (record { writer = w ∙ h.writer; stacks = s ∙ h.stacks }))
  relocked-Phase m l (idle a b (owned t d h)) w s =
      idle a b
        (owned t d (record { writer = w ∙ h.writer; stacks = s ∙ h.stacks; entered = h.entered }))
  relocked-Phase m l (busy tx t d a b lt h) w s =
      busy tx t d a b lt
        (record { writer = w ∙ h.writer; stacks = s ∙ h.stacks; entered = h.entered })

  begin_locked-Phase :
      (me : ℕ) (m : TransactionManager) → Phase m → Phase (begin_locked zlib_crc32 me m).1
  unfolding begin_locked go_on
  begin_locked-Phase me m h =
      let l = (acquire me m.lock).1 in
      elim (Bool-cases (acquire me m.lock).0) [
        | inl e ↦
            let got : acquire me m.lock ≡ (true, l) = ap (λ (b : Bool). (b, l)) e in
            rw (got, begin_locked) (acquired-Phase me m l h got)
        | inr e ↦
            let waits : acquire me m.lock ≡ (false, l) = ap (λ (b : Bool). (b, l)) e in
            let (w, s) = acquire_waits me m.lock l waits in
            rw (waits, begin_locked) (relocked-Phase m l h w s)
      ]

  -- A thread that waits gets the lock only when it is free.
  resume-Phase : (me : ℕ) (m : TransactionManager) → Phase m → Phase (resume zlib_crc32 me m).1
  unfolding resume go_on
  resume-Phase me m (idle a b (unowned h)) =
      let l = (turn me m.lock).1 in
      elim (Bool-cases (turn me m.lock).0) [
        | inl e ↦
            let got : turn me m.lock ≡ (true, l) = ap (λ (b : Bool). (b, l)) e in
            rw (got, resume)
              (enter_idle-Phase me 1 (record m { lock = l }) a b (turn-IsFree me m.lock l h got))
        | inr e ↦
            let waits : turn me m.lock ≡ (false, l) = ap (λ (b : Bool). (b, l)) e in
            rw (waits, resume, turn_waits me m.lock l waits) (idle a b (unowned h))
      ]
  resume-Phase me m (idle a b (owned t d h)) =
      rw (turn_held me t d m.lock h, resume) (idle a b (owned t d h))
  resume-Phase me m (busy tx t d a b lt h) =
      rw (turn_held me t d m.lock h, resume) (busy tx t d a b lt h)

  begin-Phase : (me : ℕ) (m : TransactionManager) → Phase m → Phase (begin zlib_crc32 me m).1
  unfolding begin begin_reading
  begin-Phase me m h =
      let (v, waits) = would_deadlock m.next_tx_id m in
      elim (Bool-cases v) [
        | inl e ↦ rw (e, begin) (waiting-Phase m waits h)
        | inr e ↦
            rw (e, begin)
              (begin_locked-Phase me (record m { waits_for = waits }) (waiting-Phase m waits h))
      ]

  -- One call by any thread, or one part of a call of `begin`: its check, with whatever id it read, the
  -- first turn of the lock's loop, or a later one.
  pub data Step : TransactionManager → TransactionManager → Type 0 where
    begins : (me : ℕ) (m : TransactionManager) → Step m (begin zlib_crc32 me m).1
    checks :
        (new_tx_id : ℕ) (m : TransactionManager)
        → Step m (record m { waits_for = (would_deadlock new_tx_id m).1 })
    locks : (me : ℕ) (m : TransactionManager) → Step m (begin_locked zlib_crc32 me m).1
    resumes : (me : ℕ) (m : TransactionManager) → Step m (resume zlib_crc32 me m).1
    logs :
        (pid : ℕ) (before after : ByteString) (m : TransactionManager)
        → Step m (log_page_write zlib_crc32 pid before after m).1
    commits :
        (me : ℕ) (tx : TransactionContext) (m : TransactionManager)
        → Step m (commit zlib_crc32 me tx m).1
    rolls_back :
        (me : ℕ) (tx : TransactionContext) (m : TransactionManager)
        → Step m (rollback zlib_crc32 me tx m).1

  -- What any calls lead to, from a new manager.
  pub data Reachable (p : Pager) (w : Wal) : TransactionManager → Type 0 where
    fresh : Reachable p w (new p w)
    called : (m m' : TransactionManager) → Reachable p w m → Step m m' → Reachable p w m'

  Step-Phase : (m m' : TransactionManager) → Step m m' → Phase m → Phase m'
  Step-Phase m _ (begins me _) h = begin-Phase me m h
  Step-Phase m _ (checks n _) h = waiting-Phase m (would_deadlock n m).1 h
  Step-Phase m _ (locks me _) h = begin_locked-Phase me m h
  Step-Phase m _ (resumes me _) h = resume-Phase me m h
  Step-Phase m _ (logs pid b a _) h = log_page_write-Phase pid b a m h
  Step-Phase m _ (commits me tx _) h = commit-Phase me tx m h
  Step-Phase m _ (rolls_back me tx _) h = rollback-Phase me tx m h

  -- In every state that calls of begin, log_page_write, commit and rollback by any threads reach
  -- from a new manager, whether they return, raise or wait, and with other calls between the check of
  -- a begin and the turns of its wait: there is no active transaction and no
  -- token of the lock, and the stacks of the lock agree with its writer; or there is one, under
  -- an id below the next one, the manager has the token, and one thread writes and has a stack.
  pub Reachable-Phase : (p : Pager) (w : Wal) (m : TransactionManager) → Reachable p w m → Phase m
  Reachable-Phase p w _ fresh = new-Phase p w
  Reachable-Phase p w _ (called m m' r s) = Step-Phase m m' s (Reachable-Phase p w m r)
