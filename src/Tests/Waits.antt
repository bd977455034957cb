-- ===== src/Tests/Waits.antt =====
-- The theorems on src/tinydb/concurrent/deadlock.py, on two transactions that wait for each other.
use tinydb.Base.{ℕ, suc, ◌≡◌, ◌≢◌, refl, List, [], ◌∷◌, true}
use tinydb.Base.Dict.{Dict, eq_nat, lookup}
use tinydb.Concurrent.Deadlock.{
  out_of_fuel, on_path, from_first, dfs_cycle, maximum, detect_loop, detect_cycle,
}
use tinydb.Concurrent.Deadlock.Victim.{IsCycle, detect_cycle_lem}
use tinydb.Concurrent.Deadlock.Ends.{search_ends}

abbrev waits : Dict ℕ ℕ
waits = (3, 4) ∷ (4, 3) ∷ (1, 3) ∷ []

detect_cycle_lem_example : (c : List ℕ) × IsCycle waits c × (on_path 4 c ≡ true)
unfolding detect_cycle detect_loop dfs_cycle on_path from_first maximum lookup
detect_cycle_lem_example = detect_cycle_lem waits 4 refl

search_ends_example : dfs_cycle (suc 3) waits 1 [] ≢ out_of_fuel
search_ends_example = search_ends waits 1
