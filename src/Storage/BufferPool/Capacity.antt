-- ===== src/Storage/BufferPool/Capacity.antt =====
-- The number of pages that src/tinydb/storage/buffer_pool.py keeps.
use tinydb.Base.{
  ℕ, suc, ◌+◌, ◌≤◌, ◌<◌, ◌≡◌, Option, some, [], ◌∷◌, arith, length, length-append, Result, ok,
  raise, true, Option-cases, inl, inr, ◌⊎◌, refl, Error, Bool-cases,
}
use tinydb.Base.Dict.{Dict, eq_nat, lookup, contains, insert, pop}
use tinydb.Bytes.{ByteString}
use tinydb.Storage.Pager.{read_page as pager_read}
use tinydb.Storage.BufferPool.{
  BufferPool, Snapshot, move_to_end, put, admit, load, invalidate, fetch_page, write_page, is_newer,
  lsn_of,
}

length-insert :
    (k : ℕ) (v : ByteString) (d : Dict ℕ ByteString) → length (insert k v d) ≤ suc (length d)
unfolding insert
length-insert k v [] = omega arith
length-insert k v ((j, w) ∷ d) = ground (arith, length-insert k v d)

-- Writing a key that is there keeps the number of entries.
length-insert_in :
    (k : ℕ) (v : ByteString) (d : Dict ℕ ByteString)
    → contains k d ≡ true
    → length (insert k v d) ≡ length d
unfolding insert contains lookup
length-insert_in k v [] h = absurd (cc)
length-insert_in k v ((j, w) ∷ d) h = ground (arith, length-insert_in k v d)

length-pop : (k : ℕ) (d : Dict ℕ ByteString) → length (pop k d) ≤ length d
unfolding pop
length-pop k [] = omega arith
length-pop k ((j, w) ∷ d) = ground (arith, length-pop k d)

pub length-pop-some :
    (k : ℕ) (v : ByteString) (d : Dict ℕ ByteString)
    → lookup k d ≡ some v
    → length (pop k d) < length d
unfolding pop lookup
length-pop-some k v [] h = absurd (cc)
length-pop-some k v ((j, w) ∷ d) h = ground (arith, length-pop-some k v d, length-pop k d)

length-move_to_end : (k : ℕ) (d : Dict ℕ ByteString) → length (move_to_end k d) ≤ length d
unfolding move_to_end
length-move_to_end k d = elim (Option-cases (lookup k d)) [
  | inl e ↦ ground (arith, e)
  | inr (v, e) ↦ ground (arith, e, length-append (pop k d) ((k, v) ∷ []), length-pop-some k v d e)
]

Result-cases {ℓ} :
    {A : Type ℓ} (r : Result A) → ((e : Error) × (r ≡ raise e)) ⊎ ((a : A) × (r ≡ ok a))
Result-cases (raise e) = inl (e, refl)
Result-cases (ok a) = inr (a, refl)

pub cache-cases :
    (d : Dict ℕ ByteString)
    → (d ≡ []) ⊎ ((item : ℕ × ByteString) × (rest : Dict ℕ ByteString) × (d ≡ item ∷ rest))
cache-cases [] = inl refl
cache-cases (item ∷ rest) = inr (item, rest, refl)

length-admit :
    (b : BufferPool) (pid : ℕ) (d : ByteString) (lsn : ℕ)
    → 0 < b.capacity
    → length b.cache ≤ b.capacity
    → length (admit b pid d lsn).1.cache ≤ b.capacity
unfolding admit put
length-admit b pid d lsn pos h = elim (cache-cases b.cache) [
  | inl e ↦ ground (arith, e, length-insert pid d [])
  | inr (item, rest, e) ↦ ground (arith, e, length-insert pid d b.cache, length-insert pid d rest)
]

read_cases :
    (b : BufferPool) (pid : ℕ)
    → ((e : Error) × (pager_read b.pager pid ≡ raise e))
      ⊎ ((d : ByteString) × (pager_read b.pager pid ≡ ok d))
read_cases b pid = Result-cases (pager_read b.pager pid)

length-load :
    (b : BufferPool) (pid : ℕ)
    → 0 < b.capacity
    → length b.cache ≤ b.capacity
    → length (load b pid).1.cache ≤ b.capacity
unfolding load
length-load b pid pos h =
    let missed = record b { misses = b.misses + 1 } in
    elim (read_cases b pid) [
      | inl (e, r) ↦ rw (r, load) h
      | inr (d, r) ↦ ground (arith, r, length-admit missed pid d b.pager.last_lsn pos h)
    ]

length-fetch_page :
    (b : BufferPool) (pid : ℕ) (snapshot : Option Snapshot)
    → 0 < b.capacity
    → length b.cache ≤ b.capacity
    → length (fetch_page b pid snapshot).1.cache ≤ b.capacity
unfolding fetch_page invalidate
length-fetch_page b pid snapshot pos h = elim (Option-cases (lookup pid b.cache)) [
  | inl e ↦ rw (e, fetch_page) (length-load b pid pos h)
  | inr (cached, e) ↦
      let moved = length-move_to_end pid b.cache in
      let dropped =
        length-load (invalidate b pid) pid pos (omega (arith, length-pop pid b.cache)) in
      elim (Option-cases snapshot) [
        | inl s ↦ ground (arith, e, s, moved)
        | inr (at, s) ↦ elim (Bool-cases (is_newer at (lsn_of b pid))) [
          | inl newer ↦ rw (e, fetch_page, s, fetch_page, newer) dropped
          | inr old ↦ ground (arith, e, s, old, moved)
        ]
      ]
]

length-write_page :
    (b : BufferPool) (pid : ℕ) (d : ByteString) (lsn : ℕ)
    → 0 < b.capacity
    → length b.cache ≤ b.capacity
    → length (write_page b pid d lsn).1.cache ≤ b.capacity
unfolding write_page
length-write_page b pid d lsn pos h = ground (
  arith,
  length-admit b pid d lsn pos h,
  length-insert_in pid d b.cache,
  length-move_to_end pid (insert pid d b.cache),
)

-- A cache within its positive capacity stays within it, whatever page is fetched, with or without
-- a snapshot, or written, also when the call raises.
pub cache_bounded :
    (b : BufferPool) (pid : ℕ) (snapshot : Option Snapshot) (d : ByteString) (lsn : ℕ)
    → 0 < b.capacity
    → length b.cache ≤ b.capacity
    → (length (fetch_page b pid snapshot).1.cache ≤ b.capacity)
      × (length (write_page b pid d lsn).1.cache ≤ b.capacity)
cache_bounded b pid snapshot d lsn pos h =
    (length-fetch_page b pid snapshot pos h, length-write_page b pid d lsn pos h)
