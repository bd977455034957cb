-- ===== src/Storage/BufferPool.antt =====
-- src/tinydb/storage/buffer_pool.py: the LRU cache of pages above the pager. The ordered dictionaries
-- have the least recently used page in front. The pool's lock is not modelled: a call is one step.
pub mod Capacity
pub mod Stale
use tinydb.Base.{
  ℕ, ◌+◌, Bool, true, false, not, ◌||◌, Option, none, some, List, [], ◌∷◌, ◌++◌, length, ltb, leb,
  ◌==◌, if◌then◌else◌, Result, ok, raise, value_error,
}
use tinydb.Base.Dict.{Dict, eq_nat, lookup, contains, insert, pop}
use tinydb.Bytes.{ByteString}
use tinydb.Storage.Pager.{Pager, read_page as pager_read, write_page as pager_write}

pub record BufferPool : Type 0 where
  pub pager : Pager
  pub capacity : ℕ
  pub cache : Dict ℕ ByteString
  pub page_lsn : Dict ℕ ℕ
  pub dirty : List ℕ
  pub hits : ℕ
  pub misses : ℕ

-- `Snapshot` of src/tinydb/tx/snapshot.py
pub record Snapshot : Type 0 where
  pub lsn : ℕ

unfoldable pub is_visible : Snapshot → ℕ → Bool
is_visible s page_lsn = leb page_lsn s.lsn

unfoldable pub is_newer : Snapshot → ℕ → Bool
is_newer s page_lsn = ltb s.lsn page_lsn

-- `pid in self._dirty`
unfoldable pub is_dirty : ℕ → List ℕ → Bool
is_dirty pid [] = false
is_dirty pid (q ∷ dirty) = (pid == q) || is_dirty pid dirty

-- `self._dirty.discard(pid)`
unfoldable pub discard : ℕ → List ℕ → List ℕ
discard pid [] = []
discard pid (q ∷ dirty) = let rest = discard pid dirty in if pid == q then rest else q ∷ rest

-- `self._dirty.add(pid)`
unfoldable pub add : ℕ → List ℕ → List ℕ
add pid dirty = if is_dirty pid dirty then dirty else dirty ++ (pid ∷ [])

unfoldable pub move_to_end : {V : Type 0} → ℕ → Dict ℕ V → Dict ℕ V
move_to_end k d = elim (lookup k d) [ none ↦ d | some v ↦ pop k d ++ ((k, v) ∷ []) ]

-- `BufferPool(pager, capacity)`
unfoldable pub new : Pager → ℕ → Result BufferPool
new pager capacity =
    if capacity == 0
    then raise value_error
    else ok (record {
      pager = pager;
      capacity = capacity;
      cache = [];
      page_lsn = [];
      dirty = [];
      hits = 0;
      misses = 0;
    })

-- The end of `_admit`.
unfoldable pub put : BufferPool → ℕ → ByteString → ℕ → BufferPool
put b pid data_ last_lsn = record b {
  cache = insert pid data_ b.cache;
  page_lsn = insert pid last_lsn b.page_lsn;
}

-- `_admit`: an eviction that cannot write the page raises, with the page out of the cache. An empty
-- cache has room, since the constructor refuses a capacity of 0.
unfoldable pub admit : BufferPool → ℕ → ByteString → ℕ → Result (Unit {0}) × BufferPool
admit b pid data_ last_lsn = elim b.cache [
  | [] ↦ (ok tt, put b pid data_ last_lsn)
  | (old, old_data) ∷ rest ↦
      let (r, pager') = pager_write b.pager old old_data in
      let popped = record b { cache = rest } in
      let written = record popped { pager = pager'; dirty = discard old b.dirty } in
      let forget = pop old b.page_lsn in
      if ltb (length b.cache) b.capacity
      then (ok tt, put b pid data_ last_lsn)
      else if not (is_dirty old b.dirty)
      then (ok tt, put (record popped { page_lsn = forget }) pid data_ last_lsn)
      else elim r [
        | raise e ↦ (raise e, record popped { pager = pager' })
        | ok _ ↦ (ok tt, put (record written { page_lsn = forget }) pid data_ last_lsn)
      ]
]

-- `fetch_page` from the miss on.
unfoldable pub load : BufferPool → ℕ → Result ByteString × BufferPool
load b pid =
    let missed = record b { misses = b.misses + 1 } in
    elim (pager_read b.pager pid) [
      | raise e ↦ (raise e, missed)
      | ok data_ ↦
          let (r, b') = admit missed pid data_ b.pager.last_lsn in
          elim r [ raise e ↦ (raise e, b') | ok _ ↦ (ok data_, b') ]
    ]

-- `self._page_lsn.get(pid, 0)`
unfoldable pub lsn_of : BufferPool → ℕ → ℕ
lsn_of b pid = elim (lookup pid b.page_lsn) [ none ↦ 0 | some lsn ↦ lsn ]

-- `invalidate`
unfoldable pub invalidate : BufferPool → ℕ → BufferPool
invalidate b pid = record b {
  cache = pop pid b.cache;
  page_lsn = pop pid b.page_lsn;
  dirty = discard pid b.dirty;
}

unfoldable pub fetch_page : BufferPool → ℕ → Option Snapshot → Result ByteString × BufferPool
fetch_page b pid snapshot = elim (lookup pid b.cache) [
  | none ↦ load b pid
  | some cached ↦
      let hit = record b { cache = move_to_end pid b.cache; hits = b.hits + 1 } in
      elim snapshot [
        | none ↦ (ok cached, hit)
        | some s ↦
            if is_newer s (lsn_of b pid)
            then load (invalidate b pid) pid
            else (ok cached, record hit { page_lsn = move_to_end pid b.page_lsn })
      ]
]

unfoldable pub write_page : BufferPool → ℕ → ByteString → ℕ → Result (Unit {0}) × BufferPool
write_page b pid data_ last_lsn =
    let (r, b') = admit b pid data_ last_lsn in
    if contains pid b.cache
    then (
      ok tt,
      record b {
        cache = move_to_end pid (insert pid data_ b.cache);
        page_lsn = move_to_end pid (insert pid last_lsn b.page_lsn);
        dirty = add pid b.dirty;
      },
    )
    else elim r [ raise e ↦ (raise e, b') | ok _ ↦ (ok tt, record b' { dirty = add pid b'.dirty }) ]

unfoldable pub mark_dirty : BufferPool → ℕ → Result (Unit {0}) × BufferPool
mark_dirty b pid =
    if not (contains pid b.cache)
    then (raise value_error, b)
    else (ok tt, record b { dirty = add pid b.dirty })

-- the loop of `flush_all`
unfoldable pub flush_loop : Dict ℕ ByteString → BufferPool → Result (Unit {0}) × BufferPool
flush_loop [] b = (ok tt, b)
flush_loop ((pid, data_) ∷ items) b =
    let (r, pager') = pager_write b.pager pid data_ in
    let clean = flush_loop items b in
    let written = flush_loop items (record b { pager = pager'; dirty = discard pid b.dirty }) in
    if is_dirty pid b.dirty
    then elim r [ raise e ↦ (raise e, record b { pager = pager' }) | ok _ ↦ written ]
    else clean

unfoldable pub flush_all : BufferPool → Result (Unit {0}) × BufferPool
flush_all b = flush_loop b.cache b
