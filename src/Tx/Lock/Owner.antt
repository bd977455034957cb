-- ===== src/Tx/Lock/Owner.antt =====
-- Who holds the write lock of src/tinydb/tx/lock.py.
use tinydb.Base.{
  Bool-cases, inl, inr, zero, ℕ, suc, ◌+◌, ◌<◌, ◌≡◌, refl, none, some, [], ◌∷◌, arith, ok, raise,
  runtime_error, true, false, ◌==◌,
}
use tinydb.Base.Dict.{eq_nat, lookup, insert, pop}
use tinydb.Concurrent.RwLock.{
  enter_write, try_write, release_write, is_writer_held, is_owner, new as new_rwlock,
}
use tinydb.Tx.Lock.{WriteLock, new, acquire, turn, release}

-- Nobody writes and no thread has a stack.
pub record IsFree (l : WriteLock) : Type 0 where
  pub writer : l.rwlock.writer ≡ none
  pub stacks : l.stacks ≡ []

-- One thread writes, and only it has a stack, of one frame at least.
pub record IsHeldBy (t depth : ℕ) (l : WriteLock) : Type 0 where
  pub writer : l.rwlock.writer ≡ some t
  pub stacks : l.stacks ≡ (t, depth) ∷ []
  pub entered : 0 < depth

-- The stacks agree with the writer.
pub data IsOwned (l : WriteLock) : Type 0 where
  unowned : IsFree l → IsOwned l
  owned : (t depth : ℕ) → IsHeldBy t depth l → IsOwned l

pub new-IsFree : IsFree new
unfolding new new_rwlock
new-IsFree = record { writer = refl; stacks = refl }

-- `acquire` of a lock that is free.
pub acquire-IsFree :
    (me : ℕ) (l l' : WriteLock) → IsFree l → acquire me l ≡ (true, l') → IsHeldBy me 1 l'
unfolding acquire turn try_write enter_write is_writer_held lookup insert
acquire-IsFree me l l' h e = ground (arith, h.writer, h.stacks)

pub acquire-IsHeldBy :
    (me t depth : ℕ) (l l' : WriteLock)
    → IsHeldBy t depth l
    → acquire me l ≡ (true, l')
    → (me ≡ t) × IsHeldBy t (suc depth) l'
unfolding acquire turn try_write enter_write is_writer_held lookup insert
acquire-IsHeldBy me t depth l l' h e = ground (arith, h.writer, h.stacks)

-- The lock with one more thread that waits.
abbrev pub asked : WriteLock → WriteLock
asked l = record l { rwlock = record l.rwlock { writers_waiting = l.rwlock.writers_waiting + 1 } }

-- `acquire` of a lock that another thread holds.
pub acquire_other :
    (me t depth : ℕ) (l : WriteLock)
    → IsHeldBy t depth l
    → (t == me) ≡ false
    → acquire me l ≡ (false, asked l)
unfolding acquire turn try_write enter_write is_writer_held lookup
acquire_other me t depth l h e = ground (arith, h.writer, h.stacks)

-- A thread that waits leaves the owner as it was.
pub acquire_waits :
    (me : ℕ) (l l' : WriteLock)
    → acquire me l ≡ (false, l')
    → (l'.rwlock.writer ≡ l.rwlock.writer) × (l'.stacks ≡ l.stacks)
unfolding acquire turn try_write enter_write is_writer_held lookup
acquire_waits me l l' e = ground (arith, e)

pub turn_waits : (me : ℕ) (l l' : WriteLock) → turn me l ≡ (false, l') → l' ≡ l
unfolding turn
turn_waits me l l' e = ground (arith, e)

pub turn-IsFree : (me : ℕ) (l l' : WriteLock) → IsFree l → turn me l ≡ (true, l') → IsHeldBy me 1 l'
unfolding turn try_write is_writer_held insert
turn-IsFree me l l' h e = ground (arith, h.writer, h.stacks)

pub turn_held : (me t depth : ℕ) (l : WriteLock) → IsHeldBy t depth l → turn me l ≡ (false, l)
unfolding turn try_write is_writer_held
turn_held me t depth l h = ground (arith, h.writer)

-- The lock that the last `release` leaves.
abbrev pub freed : WriteLock → WriteLock
freed l = record { rwlock = record l.rwlock { writer = none }; stacks = [] }

pub release_last : (t : ℕ) (l : WriteLock) → IsHeldBy t 1 l → release t l ≡ (ok tt, freed l)
unfolding release release_write is_owner lookup pop
release_last t l h = ground (arith, h.writer, h.stacks)

pub release_inner :
    (t depth : ℕ) (l : WriteLock)
    → IsHeldBy t (suc depth) l
    → 0 < depth
    → release t l ≡ (ok tt, record l { stacks = (t, depth) ∷ [] })
unfolding release lookup insert
release_inner t depth l h p = ground (arith, h.stacks)

-- `release` by a thread without a stack.
pub release_other :
    (me t depth : ℕ) (l : WriteLock)
    → IsHeldBy t depth l
    → (t == me) ≡ false
    → release me l ≡ (raise runtime_error, l)
unfolding release lookup
release_other me t depth l h e = ground (arith, h.stacks)

-- `acquire` and then `release` by the thread that holds the lock.
pub release-acquire :
    (t depth : ℕ) (l : WriteLock)
    → IsHeldBy t depth l
    → (l' : WriteLock) × (acquire t l ≡ (true, l')) × (release t l' ≡ (ok tt, l))
unfolding acquire turn release lookup insert pop
release-acquire t depth l h = (
  record l { stacks = insert t (depth + 1) l.stacks },
  ground (arith, h.stacks),
  ground (arith, h.stacks, h.entered),
)

release_free : (me : ℕ) (l : WriteLock) → IsFree l → release me l ≡ (raise runtime_error, l)
unfolding release lookup
release_free me l h = ground (arith, h.stacks)

release_owner-IsOwned : (t depth : ℕ) (l : WriteLock) → IsHeldBy t depth l → IsOwned (release t l).1
release_owner-IsOwned t zero l h = absurd (omega (arith, h.entered))
release_owner-IsOwned t (suc zero) l h =
    rw (release_last t l h) (unowned (record { writer = refl; stacks = refl }))
release_owner-IsOwned t (suc (suc d)) l h =
    rw (release_inner t (suc d) l h (omega arith))
      (owned t (suc d) (record { writer = h.writer; stacks = refl; entered = omega arith }))

pub release-IsOwned : (me : ℕ) (l : WriteLock) → IsOwned l → IsOwned (release me l).1
release-IsOwned me l (unowned h) = rw (release_free me l h) (unowned h)
release-IsOwned me l (owned t d h) = elim (Bool-cases (t == me)) [
  | inl e ↦ let e' : t ≡ me = ground (arith, e) in rw (← e') (release_owner-IsOwned t d l h)
  | inr e ↦ rw (release_other me t d l h e) (owned t d h)
]

pub acquire-IsOwned :
    (me : ℕ) (l l' : WriteLock) → IsOwned l → acquire me l ≡ (true, l') → IsOwned l'
acquire-IsOwned me l l' (unowned h) e = owned me 1 (acquire-IsFree me l l' h e)
acquire-IsOwned me l l' (owned t d h) e = owned t (suc d) (acquire-IsHeldBy me t d l l' h e).1
