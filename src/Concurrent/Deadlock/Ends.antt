-- ===== src/Concurrent/Deadlock/Ends.antt =====
-- The length of the path in the search of src/tinydb/concurrent/deadlock.py.
use tinydb.Base.{
  ℕ, zero, suc, ◌+◌, ◌≤◌, ◌<◌, ◌≡◌, ◌≢◌, inl, inr, refl, false, ◌||◌, none, List, [], ◌∷◌, ◌++◌,
  length, length-append, ◌==◌, arith, Option-cases, Bool-cases,
}
use tinydb.Base.Dict.{Dict, eq_nat, lookup, pop, lookup-pop}
use tinydb.Concurrent.Deadlock.{out_of_fuel, on_path, dfs_cycle}
use tinydb.Concurrent.Deadlock.Victim.{dfs_closed, dfs_end, dfs_deeper}

-- Different waiters of the graph.
abbrev Waiters : Dict ℕ ℕ → List ℕ → Type 0
Waiters d [] = Unit
Waiters d (x ∷ path) = (lookup x d ≢ none) × (on_path x path ≡ false) × Waiters d path

length-pop_le : (k : ℕ) (d : Dict ℕ ℕ) → length (pop k d) ≤ length d
unfolding pop
length-pop_le k [] = omega arith
length-pop_le k ((j, w) ∷ d) = ground (arith, length-pop_le k d)

length-pop_lt : (k : ℕ) (d : Dict ℕ ℕ) → lookup k d ≢ none → length (pop k d) < length d
unfolding pop lookup
length-pop_lt k [] h = absurd (h refl)
length-pop_lt k ((j, w) ∷ d) h = ground (arith, length-pop_lt k d, length-pop_le k d, h)

Waiters-pop :
    (d : Dict ℕ ℕ) (x : ℕ) (path : List ℕ)
    → on_path x path ≡ false
    → Waiters d path
    → Waiters (pop x d) path
unfolding on_path
Waiters-pop d x [] f h = tt
Waiters-pop d x (y ∷ path) f h =
    (ground (arith, lookup-pop x y d, h.0, f), h.1, Waiters-pop d x path (ground (arith, f)) h.2)

length-Waiters : (d : Dict ℕ ℕ) (path : List ℕ) → Waiters d path → length path ≤ length d
length-Waiters d [] h = omega arith
length-Waiters d (x ∷ path) h =
    let rest = length-Waiters (pop x d) path (Waiters-pop d x path h.1 h.2) in
    omega (arith, rest, length-pop_lt x d h.0)

on_path-append :
    (x y : ℕ) (path : List ℕ) → on_path x (path ++ (y ∷ [])) ≡ (on_path x path || (x == y))
unfolding on_path
on_path-append x y [] = ground arith
on_path-append x y (z ∷ path) = ground (arith, on_path-append x y path)

Waiters-append :
    (d : Dict ℕ ℕ) (path : List ℕ) (node : ℕ)
    → Waiters d path
    → on_path node path ≡ false
    → lookup node d ≢ none
    → Waiters d (path ++ (node ∷ []))
unfolding on_path
Waiters-append d [] node h f e = (e, refl, tt)
Waiters-append d (x ∷ path) node h f e = (
  h.0,
  ground (arith, on_path-append x node path, h.1, f),
  Waiters-append d path node h.2 (ground (arith, f)) e,
)

dfs_ends :
    (fuel : ℕ) (d : Dict ℕ ℕ) (node : ℕ) (path : List ℕ)
    → Waiters d path
    → length d < length path + fuel
    → dfs_cycle fuel d node path ≢ out_of_fuel
dfs_ends zero d node path h enough = absurd (omega (arith, length-Waiters d path h))
dfs_ends (suc fuel) d node path h enough = elim (Bool-cases (on_path node path)) [
  | inl m ↦ rw (dfs_closed fuel d node path m) (λ e. cc)
  | inr m ↦ elim (Option-cases (lookup node d)) [
    | inl l ↦ rw (dfs_end fuel d node path m l) (λ e. cc)
    | inr (holder, l) ↦
        let longer = Waiters-append d path node h m (rw l (λ e. cc)) in
        rw (dfs_deeper fuel d node holder path m l) (
          dfs_ends fuel d holder (path ++ (node ∷ [])) longer
            (omega (arith, length-append path (node ∷ []))))
  ]
]

-- From any transaction the search of `detect_cycle` ends: it does not use up its fuel.
pub search_ends : (d : Dict ℕ ℕ) (start : ℕ) → dfs_cycle (suc (length d)) d start [] ≢ out_of_fuel
search_ends d start = dfs_ends (suc (length d)) d start [] tt (omega arith)
