-- ===== src/Concurrent/Deadlock/Removal.antt =====
-- `remove` of src/tinydb/concurrent/deadlock.py.
use tinydb.Base.{ℕ, ◌≡◌, ◌≢◌, refl, ◌∙◌, true, none, some, List, [], ◌∷◌, if◌then◌else◌, arith}
use tinydb.Base.Dict.{Dict, eq_nat, lookup, pop, lookup-pop}
use tinydb.Concurrent.Deadlock.{waiters_on, pop_all, remove, on_path}

lookup-pop_all :
    (k : ℕ) (stale : List ℕ) (d : Dict ℕ ℕ)
    → lookup k (pop_all stale d) ≡ (if on_path k stale then none else lookup k d)
unfolding pop_all on_path
lookup-pop_all k [] d = refl
lookup-pop_all k (w ∷ stale) d = lookup-pop_all k stale (pop w d) ∙ ground (arith, lookup-pop w k d)

on_path-waiters_on :
    (tx k : ℕ) (d : Dict ℕ ℕ) → lookup k d ≡ some tx → on_path k (waiters_on tx d) ≡ true
unfolding lookup waiters_on on_path
on_path-waiters_on tx k [] h = absurd (cc)
on_path-waiters_on tx k ((w, v) ∷ d) h = ground (arith, on_path-waiters_on tx k d, h)

-- After a transaction was removed it waits for none, and none waits for it.
pub lookup-remove :
    (tx k : ℕ) (d : Dict ℕ ℕ)
    → (lookup tx (remove tx d) ≡ none) × (lookup k (remove tx d) ≢ some tx)
unfolding remove
lookup-remove tx k d =
    let rest = pop tx d in
    (
      ground (arith, lookup-pop_all tx (waiters_on tx rest) rest, lookup-pop tx tx d),
      ground (arith, lookup-pop_all k (waiters_on tx rest) rest, on_path-waiters_on tx k rest),
    )
