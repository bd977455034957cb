-- ===== src/Concurrent/Deadlock.antt =====
-- src/tinydb/concurrent/deadlock.py: the wait-for graph, one edge for each waiter. The search
-- takes fuel, one for each step along its path, and gets one more than there are edges.
pub mod Victim
pub mod Ends
pub mod Removal
use tinydb.Base.{
  ℕ, zero, suc, ◌+◌, Bool, true, false, not, ◌||◌, Option, none, some, List, [], ◌∷◌, ◌++◌, length,
  ltb, ◌==◌, if◌then◌else◌,
}
use tinydb.Base.Dict.{Dict, eq_nat, lookup, contains, insert, pop}

-- What a search came to.
pub data Search : Type 0 where
  found : List ℕ → Search
  no_cycle out_of_fuel : Search

unfoldable pub add_wait : ℕ → ℕ → Dict ℕ ℕ → Dict ℕ ℕ
add_wait waiter holder waits_for = insert waiter holder waits_for

-- `stale` of `remove`
unfoldable pub waiters_on : ℕ → Dict ℕ ℕ → List ℕ
waiters_on tx_id [] = []
waiters_on tx_id ((w, h) ∷ d) =
    let rest = waiters_on tx_id d in if h == tx_id then w ∷ rest else rest

unfoldable pub pop_all : List ℕ → Dict ℕ ℕ → Dict ℕ ℕ
pop_all [] d = d
pop_all (w ∷ stale) d = pop_all stale (pop w d)

unfoldable pub remove : ℕ → Dict ℕ ℕ → Dict ℕ ℕ
remove tx_id waits_for = let d = pop tx_id waits_for in pop_all (waiters_on tx_id d) d

unfoldable pub has_edge : ℕ → Dict ℕ ℕ → Bool
has_edge waiter waits_for = contains waiter waits_for

-- `node in path`
unfoldable pub on_path : ℕ → List ℕ → Bool
on_path node [] = false
on_path node (x ∷ path) = (node == x) || on_path node path

-- `path[path.index(node):]`
unfoldable pub from_first : ℕ → List ℕ → List ℕ
from_first node [] = []
from_first node (x ∷ path) = if node == x then x ∷ path else from_first node path

-- `_dfs_cycle`
unfoldable pub dfs_cycle : ℕ → Dict ℕ ℕ → ℕ → List ℕ → Search
dfs_cycle zero waits_for node path = out_of_fuel
dfs_cycle (suc fuel) waits_for node path = elim (lookup node waits_for) [
  | none ↦ if on_path node path then found (from_first node path ++ (node ∷ [])) else no_cycle
  | some holder ↦
      let deeper = dfs_cycle fuel waits_for holder (path ++ (node ∷ [])) in
      if on_path node path then found (from_first node path ++ (node ∷ [])) else deeper
]

-- `max(cycle)`, of numbers
unfoldable pub maximum : List ℕ → ℕ
maximum [] = 0
maximum (x ∷ l) = let m = maximum l in if ltb m x then x else m

-- the loop of `detect_cycle` over the waiters that are left, with the victim so far
unfoldable pub detect_loop : Dict ℕ ℕ → Dict ℕ ℕ → ℕ → ℕ
detect_loop waits_for [] victim = victim
detect_loop waits_for ((start, _) ∷ rest) victim =
    elim (dfs_cycle (suc (length waits_for)) waits_for start []) [
      | found cycle ↦
          detect_loop waits_for rest (if ltb victim (maximum cycle) then maximum cycle else victim)
      | no_cycle ↦ detect_loop waits_for rest victim
      | out_of_fuel ↦ detect_loop waits_for rest victim
    ]

-- `victim or None`
unfoldable pub detect_cycle : Dict ℕ ℕ → Option ℕ
detect_cycle waits_for =
    let victim = detect_loop waits_for waits_for 0 in if victim == 0 then none else some victim
