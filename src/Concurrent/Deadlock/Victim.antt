-- ===== src/Concurrent/Deadlock/Victim.antt =====
-- The chains of waits that src/tinydb/concurrent/deadlock.py searches.
use tinydb.Base.{
  ℕ, zero, suc, ◌<◌, ◌≡◌, ◌≢◌, ◌⊎◌, inl, inr, refl, sym, ◌∙◌, true, false, none, some, List, [],
  ◌∷◌, ◌++◌, length, ltb, ◌==◌, arith, Option-cases, Bool-cases,
}
use tinydb.Base.Dict.{Dict, eq_nat, lookup}
use tinydb.Concurrent.Deadlock.{
  Search, found, no_cycle, out_of_fuel, on_path, from_first, dfs_cycle, maximum, detect_loop,
  detect_cycle,
}

-- Each element of the path waits for the next, and the last for `node`.
abbrev pub after : List ℕ → ℕ → ℕ
after [] node = node
after (x ∷ path) node = x

abbrev pub Leads : Dict ℕ ℕ → List ℕ → ℕ → Type 0
Leads d [] node = Unit
Leads d (x ∷ path) node = (lookup x d ≡ some (after path node)) × Leads d path node

-- A closed chain of waits: `cycle` is a path from `node` to `node`, with `node` at its end again.
pub record IsCycle (d : Dict ℕ ℕ) (cycle : List ℕ) : Type 0 where
  pub node : ℕ
  pub path : List ℕ
  pub shape : cycle ≡ path ++ (node ∷ [])
  pub nonempty : 0 < length path
  pub starts : after path node ≡ node
  pub waits : Leads d path node

after-append : (path : List ℕ) (node next : ℕ) → after (path ++ (node ∷ [])) next ≡ after path node
after-append [] node next = refl
after-append (x ∷ path) node next = refl

Leads-append :
    (d : Dict ℕ ℕ) (path : List ℕ) (node next : ℕ)
    → Leads d path node
    → lookup node d ≡ some next
    → Leads d (path ++ (node ∷ [])) next
Leads-append d [] node next h e = (e, tt)
Leads-append d (x ∷ path) node next h e =
    (rw (after-append path node next) h.0, Leads-append d path node next h.1 e)

from_first-Leads :
    (d : Dict ℕ ℕ) (path : List ℕ) (node : ℕ)
    → Leads d path node
    → on_path node path ≡ true
    → Leads d (from_first node path) node
      × (after (from_first node path) node ≡ node)
      × (0 < length (from_first node path))
unfolding on_path from_first
from_first-Leads d [] node h m = absurd (cc)
from_first-Leads d (x ∷ path) node h m = elim (Bool-cases (node == x)) [
  | inl e ↦ rw e (h, ground arith, omega arith)
  | inr e ↦ rw e (from_first-Leads d path node h.1 (ground (arith, m, e)))
]

-- The steps of the search.
pub dfs_closed :
    (fuel : ℕ) (d : Dict ℕ ℕ) (node : ℕ) (path : List ℕ)
    → on_path node path ≡ true
    → dfs_cycle (suc fuel) d node path ≡ found (from_first node path ++ (node ∷ []))
unfolding dfs_cycle
dfs_closed fuel d node path m = ground (arith, m)

pub dfs_end :
    (fuel : ℕ) (d : Dict ℕ ℕ) (node : ℕ) (path : List ℕ)
    → on_path node path ≡ false
    → lookup node d ≡ none
    → dfs_cycle (suc fuel) d node path ≡ no_cycle
unfolding dfs_cycle
dfs_end fuel d node path m e = ground (arith, m, e)

pub dfs_deeper :
    (fuel : ℕ) (d : Dict ℕ ℕ) (node holder : ℕ) (path : List ℕ)
    → on_path node path ≡ false
    → lookup node d ≡ some holder
    → dfs_cycle (suc fuel) d node path ≡ dfs_cycle fuel d holder (path ++ (node ∷ []))
unfolding dfs_cycle
dfs_deeper fuel d node holder path m e = ground (arith, m, e)

found_inv : (a b : List ℕ) → found a ≡ found b → a ≡ b
found_inv a b h = cc

not_found : (c : List ℕ) → no_cycle ≢ found c
not_found c h = cc

dfs-IsCycle :
    (fuel : ℕ) (d : Dict ℕ ℕ) (node : ℕ) (path cycle : List ℕ)
    → Leads d path node
    → dfs_cycle fuel d node path ≡ found cycle
    → IsCycle d cycle
dfs-IsCycle zero d node path cycle h e = unfold dfs_cycle in absurd (cc)
dfs-IsCycle (suc fuel) d node path cycle h e = elim (Bool-cases (on_path node path)) [
  | inl m ↦
      let (leads, starts, pos) = from_first-Leads d path node h m in
      record {
        node = node;
        path = from_first node path;
        shape = found_inv _ _ (sym e ∙ dfs_closed fuel d node path m);
        nonempty = pos;
        starts = starts;
        waits = leads;
      }
  | inr m ↦ elim (Option-cases (lookup node d)) [
    | inl l ↦ absurd (not_found cycle (sym (dfs_end fuel d node path m l) ∙ e))
    | inr (holder, l) ↦
        dfs-IsCycle fuel d holder (path ++ (node ∷ [])) cycle (Leads-append d path node holder h l)
          (sym (dfs_deeper fuel d node holder path m l) ∙ e)
  ]
]

on_path-maximum : (l : List ℕ) → 0 < maximum l → on_path (maximum l) l ≡ true
unfolding maximum on_path
on_path-maximum [] h = absurd (omega arith)
on_path-maximum (x ∷ l) h = ground (arith, on_path-maximum l)

-- A victim so far: none yet, or on a cycle.
abbrev Caught : Dict ℕ ℕ → ℕ → Type 0
Caught d v = (v ≡ 0) ⊎ ((c : List ℕ) × IsCycle d c × (on_path v c ≡ true))

search-cases : (r : Search) → ((c : List ℕ) × (r ≡ found c)) ⊎ ((r ≡ no_cycle) ⊎ (r ≡ out_of_fuel))
search-cases (found c) = inl (c, refl)
search-cases no_cycle = inr (inl refl)
search-cases out_of_fuel = inr (inr refl)

detect_loop-Caught :
    (d rest : Dict ℕ ℕ) (victim : ℕ) → Caught d victim → Caught d (detect_loop d rest victim)
unfolding detect_loop
detect_loop-Caught d [] victim h = h
detect_loop-Caught d ((start, w) ∷ rest) victim h =
    let run = dfs_cycle (suc (length d)) d start [] in
    elim (search-cases run) [
      | inl (c, e) ↦
          let cycle = dfs-IsCycle (suc (length d)) d start [] c tt e in
          rw (e, detect_loop)
            (elim (Bool-cases (ltb victim (maximum c))) [
              | inl more ↦ rw more (
                  detect_loop-Caught d rest (maximum c)
                    (inr (c, cycle, on_path-maximum c (ground (arith, more)))))
              | inr less ↦ rw less (detect_loop-Caught d rest victim h)
            ])
      | inr (inl e) ↦ rw (e, detect_loop) (detect_loop-Caught d rest victim h)
      | inr (inr e) ↦ rw (e, detect_loop) (detect_loop-Caught d rest victim h)
    ]

-- A victim that is reported lies on a cycle of waits: a chain of at least one wait that leads
-- back to where it starts.
pub detect_cycle_lem :
    (d : Dict ℕ ℕ) (v : ℕ)
    → detect_cycle d ≡ some v
    → (c : List ℕ) × IsCycle d c × (on_path v c ≡ true)
unfolding detect_cycle
detect_cycle_lem d v h =
    let same : detect_loop d d 0 ≡ v = ground (arith, h) in
    let some_victim : detect_loop d d 0 ≢ 0 = ground (arith, h) in
    elim (detect_loop-Caught d d 0 (inl refl)) [
      | inl z ↦ absurd (some_victim z)
      | inr (c, cycle, on) ↦ (c, cycle, rw (← same) on)
    ]
