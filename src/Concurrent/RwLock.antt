-- ===== src/Concurrent/RwLock.antt =====
-- src/tinydb/concurrent/rwlock.py. What a thread does while it holds the condition's mutex is one
-- step; a turn of a wait loop that has to wait changes nothing. A thread id is its place in the list
-- of threads.
pub mod Exclusion
use tinydb.Base.{
  ℕ, ◌+◌, ◌-◌, ◌≡◌, Bool, true, false, not, ◌&&◌, ◌||◌, Option, none, some, List, ltb, leb, ◌==◌,
  if◌then◌else◌, get_elem?, set, replicate, Result, ok, raise, runtime_error,
}

-- The fields of `RWLock`.
pub record RwLock : Type 0 where
  pub readers : ℕ
  pub writer : Option ℕ
  pub writers_waiting : ℕ
  pub prefer_writer : Bool

unfoldable pub new : Bool → RwLock
new prefer_writer = record {
  readers = 0;
  writer = none;
  writers_waiting = 0;
  prefer_writer = prefer_writer;
}

unfoldable pub is_writer_held : RwLock → Bool
is_writer_held l = elim l.writer [ none ↦ false | some _ ↦ true ]

-- A turn of the loop of `acquire_read`: `none` is a wait.
unfoldable pub try_read : RwLock → Option RwLock
try_read l =
    if is_writer_held l || (l.prefer_writer && ltb 0 l.writers_waiting)
    then none
    else some (record l { readers = l.readers + 1 })

unfoldable pub release_read : RwLock → Result RwLock
release_read l =
    if leb l.readers 0 || is_writer_held l
    then raise runtime_error
    else ok (record l { readers = l.readers - 1 })

-- `acquire_write` up to its loop
unfoldable pub enter_write : RwLock → RwLock
enter_write l = record l { writers_waiting = l.writers_waiting + 1 }

-- A turn of the loop of `acquire_write` by the thread `me`, with the `finally` when it succeeds.
unfoldable pub try_write : ℕ → RwLock → Option RwLock
try_write me l =
    if ltb 0 l.readers || is_writer_held l
    then none
    else some (record l { writer = some me; writers_waiting = l.writers_waiting - 1 })

-- The timeout of `acquire_write`, with its `finally`.
unfoldable pub give_up : RwLock → RwLock
give_up l = record l { writers_waiting = l.writers_waiting - 1 }

unfoldable pub is_owner : ℕ → Option ℕ → Bool
is_owner me none = false
is_owner me (some t) = t == me

unfoldable pub release_write : ℕ → RwLock → Result RwLock
release_write me l =
    if not (is_owner me l.writer) then raise runtime_error else ok (record l { writer = none })

-- What a thread has of the lock: nothing (it may be blocked in `acquire_read`), a read hold, a place in
-- `acquire_write`, the write hold.
pub data Status : Type 0 where
  idle reading waiting writing : Status

-- The lock and the threads that use it.
pub record System : Type 0 where
  pub lock : RwLock
  pub threads : List Status

-- A call by the thread `t`, or a turn of its loop.
pub data Step : System → System → Type 0 where
  acquire_read :
      (s : System) (t : ℕ) (l : RwLock)
      → get_elem? s.threads t ≡ some idle
      → try_read s.lock ≡ some l
      → Step s (record { lock = l; threads = set s.threads t reading })
  done_read :
      (s : System) (t : ℕ) (l : RwLock)
      → get_elem? s.threads t ≡ some reading
      → release_read s.lock ≡ ok l
      → Step s (record { lock = l; threads = set s.threads t idle })
  ask_write :
      (s : System) (t : ℕ)
      → get_elem? s.threads t ≡ some idle
      → Step s (record { lock = enter_write s.lock; threads = set s.threads t waiting })
  acquire_write :
      (s : System) (t : ℕ) (l : RwLock)
      → get_elem? s.threads t ≡ some waiting
      → try_write t s.lock ≡ some l
      → Step s (record { lock = l; threads = set s.threads t writing })
  time_out :
      (s : System) (t : ℕ)
      → get_elem? s.threads t ≡ some waiting
      → Step s (record { lock = give_up s.lock; threads = set s.threads t idle })
  done_write :
      (s : System) (t : ℕ) (l : RwLock)
      → get_elem? s.threads t ≡ some writing
      → release_write t s.lock ≡ ok l
      → Step s (record { lock = l; threads = set s.threads t idle })

-- What any sequence of steps of `n` threads leads to, from a new lock.
pub data Reachable (prefer : Bool) (n : ℕ) : System → Type 0 where
  begin : Reachable prefer n (record { lock = new prefer; threads = replicate n idle })
  next : (s s' : System) → Reachable prefer n s → Step s s' → Reachable prefer n s'
