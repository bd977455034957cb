-- ===== src/Tx/Lock.antt =====
-- src/tinydb/tx/lock.py: the reentrant write lock over the write side of `RWLock`. The stacks of
-- `_ReentrantWriteGuard` are a dictionary from a thread to its depth; the guard of a lock is found
-- by the lock's identity, so the lock and its guard are one state. A call of
-- `acquire` tells whether the thread has the lock; otherwise it waits, and the lock counts it.
pub mod Owner
use tinydb.Base.{
  ℕ, ◌+◌, ◌-◌, Bool, true, false, none, some, [], ◌==◌, if◌then◌else◌, Result, ok, raise,
  runtime_error,
}
use tinydb.Base.Dict.{Dict, eq_nat, lookup, insert, pop}
use tinydb.Concurrent.RwLock.{RwLock, enter_write, try_write, release_write, new as new_rwlock}

-- `WriteLock`, with the guard of its `RWLock`
pub record WriteLock : Type 0 where
  pub rwlock : RwLock
  pub stacks : Dict ℕ ℕ

unfoldable pub new : WriteLock
new = record { rwlock = new_rwlock true; stacks = [] }

-- A turn of the loop of `acquire_write` by the thread `me`, and the first frame of its stack.
unfoldable pub turn : ℕ → WriteLock → Bool × WriteLock
turn me l = elim (try_write me l.rwlock) [
  | none ↦ (false, l)
  | some held ↦ (true, record { rwlock = held; stacks = insert me 1 l.stacks })
]

-- `acquire` by the thread `me`, up to the first turn of the loop.
unfoldable pub acquire : ℕ → WriteLock → Bool × WriteLock
acquire me l = elim (lookup me l.stacks) [
  | some depth ↦ (true, record l { stacks = insert me (depth + 1) l.stacks })
  | none ↦ turn me (record l { rwlock = enter_write l.rwlock })
]

-- The last frame of a thread's stack is gone: `cm.__exit__`.
abbrev pub drained : WriteLock → Result RwLock → Result (Unit {0}) × WriteLock
drained l (ok freed) = (ok tt, record l { rwlock = freed })
drained l (raise e) = (raise e, l)

unfoldable pub release : ℕ → WriteLock → Result (Unit {0}) × WriteLock
release me l = elim (lookup me l.stacks) [
  | none ↦ (raise runtime_error, l)
  | some depth ↦
      let last = drained (record l { stacks = pop me l.stacks }) (release_write me l.rwlock) in
      let fewer = record l { stacks = insert me (depth - 1) l.stacks } in
      if depth - 1 == 0 then last else (ok tt, fewer)
]
