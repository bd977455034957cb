-- ===== src/Tests/Locks.antt =====
-- The theorems on src/tinydb/concurrent/rwlock.py, with two threads.
use tinydb.Base.{◌≡◌, ◌≢◌, refl, true, none, some, [], ◌∷◌, get_elem?, set, replicate, arith}
use tinydb.Concurrent.RwLock.{
  System, new, is_writer_held, try_read, enter_write, try_write, idle, reading, waiting, writing,
  acquire_read, ask_write, acquire_write, Reachable, begin, next,
}
use tinydb.Concurrent.RwLock.Exclusion.{mutual_exclusion, writer_preference}

abbrev initial : System
initial = record { lock = new true; threads = idle ∷ idle ∷ [] }

abbrev asked : System
asked = record {
  lock = record { readers = 0; writer = none; writers_waiting = 1; prefer_writer = true };
  threads = waiting ∷ idle ∷ [];
}

abbrev held : System
held = record {
  lock = record { readers = 0; writer = some 0; writers_waiting = 0; prefer_writer = true };
  threads = writing ∷ idle ∷ [];
}

abbrev shared : System
shared = record {
  lock = record { readers = 1; writer = none; writers_waiting = 0; prefer_writer = true };
  threads = reading ∷ idle ∷ [];
}

initial-Reachable : Reachable true 2 initial
unfolding replicate
initial-Reachable = begin

asked-Reachable : Reachable true 2 asked
unfolding get_elem? set new enter_write
asked-Reachable = next initial asked initial-Reachable (ask_write initial 0 refl)

held-Reachable : Reachable true 2 held
unfolding get_elem? set try_write is_writer_held
held-Reachable = next asked held asked-Reachable (acquire_write asked 0 held.lock refl refl)

shared-Reachable : Reachable true 2 shared
unfolding get_elem? set new try_read is_writer_held
shared-Reachable =
    next initial shared initial-Reachable (acquire_read initial 0 shared.lock refl refl)

mutual_exclusion_example :
    (get_elem? held.threads 1 ≢ some reading) × (get_elem? held.threads 1 ≢ some writing)
unfolding get_elem?
mutual_exclusion_example =
    mutual_exclusion true 2 held 0 1 held-Reachable refl (λ e. omega (arith, e))

writer_preference_example : try_read asked.lock ≡ none
unfolding get_elem?
writer_preference_example = writer_preference 2 asked 0 asked-Reachable refl
