-- ===== src/Storage/BufferPool/Stale.antt =====
-- What src/tinydb/storage/buffer_pool.py returns for a page: after a write, and under an older snapshot.
use tinydb.Base.{
  ℕ, ◌<◌, ◌≡◌, refl, none, some, List, [], ◌∷◌, true, false, arith, length, ok, ◌+◌, ◌++◌, ◌≤◌, ◌⊎◌,
  inl, inr, Option-cases, Bool-cases,
}
use tinydb.Base.Dict.{Dict, eq_nat, lookup, contains, insert, pop, lookup-insert}
use tinydb.Bytes.{ByteString}
use tinydb.Storage.Pager.{read_page as pager_read}
use tinydb.Storage.BufferPool.{
  BufferPool, Snapshot, add, move_to_end, put, admit, load, invalidate, fetch_page, write_page,
  is_newer, lsn_of, is_dirty, discard,
}
use tinydb.Storage.BufferPool.Capacity.{cache-cases, length-pop-some}

is_dirty-discard : (pid : ℕ) (dirty : List ℕ) → is_dirty pid (discard pid dirty) ≡ false
unfolding is_dirty discard
is_dirty-discard pid [] = refl
is_dirty-discard pid (q ∷ dirty) = ground (arith, is_dirty-discard pid dirty)

lookup-pop_end :
    (k : ℕ) (v : ByteString) (d : Dict ℕ ByteString) → lookup k (pop k d ++ ((k, v) ∷ [])) ≡ some v
unfolding lookup pop
lookup-pop_end k v [] = ground arith
lookup-pop_end k v ((j, w) ∷ d) = ground (arith, lookup-pop_end k v d)

lookup-move_to_end : (k : ℕ) (d : Dict ℕ ByteString) → lookup k (move_to_end k d) ≡ lookup k d
unfolding move_to_end
lookup-move_to_end k d = elim (Option-cases (lookup k d)) [
  | inl e ↦ ground (arith, e)
  | inr (v, e) ↦ ground (arith, e, lookup-pop_end k v d)
]

fetch_page_hit :
    (b : BufferPool) (pid : ℕ) (d : ByteString)
    → lookup pid b.cache ≡ some d
    → (fetch_page b pid none).0 ≡ ok d
unfolding fetch_page
fetch_page_hit b pid d e = ground (arith, e)

-- Admitting a page while the cache has room evicts nothing.
admit_room :
    (b : BufferPool) (pid : ℕ) (d : ByteString) (lsn : ℕ)
    → length b.cache < b.capacity
    → admit b pid d lsn ≡ (ok tt, put b pid d lsn)
unfolding admit
admit_room b pid d lsn h = elim (cache-cases b.cache) [
  | inl e ↦ ground (arith, e)
  | inr (item, rest, e) ↦ ground (arith, e)
]

write_page_in :
    (b : BufferPool) (pid : ℕ) (d : ByteString) (lsn : ℕ)
    → contains pid b.cache ≡ true
    → ((write_page b pid d lsn).0 ≡ ok tt) × (lookup pid (write_page b pid d lsn).1.cache ≡ some d)
unfolding write_page
write_page_in b pid d lsn h =
    rw (h, write_page, lookup-move_to_end pid (insert pid d b.cache))
      (refl, ground (arith, lookup-insert pid pid d b.cache))

-- The step of `write_page` for a page that is not cached, and of `load` for one that the pager has,
-- once the page was admitted.
write_page_miss :
    (b b' : BufferPool) (pid : ℕ) (d : ByteString) (lsn : ℕ)
    → contains pid b.cache ≡ false
    → admit b pid d lsn ≡ (ok tt, b')
    → write_page b pid d lsn ≡ (ok tt, record b' { dirty = add pid b'.dirty })
unfolding write_page
write_page_miss b b' pid d lsn h e = ground (arith, e)

load_ok :
    (b b' : BufferPool) (pid : ℕ) (d : ByteString)
    → pager_read b.pager pid ≡ ok d
    → admit (record b { misses = b.misses + 1 }) pid d b.pager.last_lsn ≡ (ok tt, b')
    → load b pid ≡ (ok d, b')
unfolding load
load_ok b b' pid d e a = ground (arith, e, a)

write_page_new :
    (b : BufferPool) (pid : ℕ) (d : ByteString) (lsn : ℕ)
    → contains pid b.cache ≡ false
    → length b.cache < b.capacity
    → ((write_page b pid d lsn).0 ≡ ok tt) × (lookup pid (write_page b pid d lsn).1.cache ≡ some d)
unfolding put
write_page_new b pid d lsn h room =
    rw (write_page_miss b (put b pid d lsn) pid d lsn h (admit_room b pid d lsn room))
      (refl, ground (arith, lookup-insert pid pid d b.cache))

-- A page that is cached, or for which the cache has room: writing it returns, and fetching it
-- without a snapshot then yields what was written.
pub fetch_page-write_page :
    (b : BufferPool) (pid : ℕ) (d : ByteString) (lsn : ℕ)
    → (contains pid b.cache ≡ true) ⊎ (length b.cache < b.capacity)
    → ((write_page b pid d lsn).0 ≡ ok tt)
      × ((fetch_page (write_page b pid d lsn).1 pid none).0 ≡ ok d)
fetch_page-write_page b pid d lsn (inl h) =
    let (returns, has) = write_page_in b pid d lsn h in
    (returns, fetch_page_hit (write_page b pid d lsn).1 pid d has)
fetch_page-write_page b pid d lsn (inr room) = elim (Bool-cases (contains pid b.cache)) [
  | inl h ↦
      let (returns, has) = write_page_in b pid d lsn h in
      (returns, fetch_page_hit (write_page b pid d lsn).1 pid d has)
  | inr h ↦
      let (returns, has) = write_page_new b pid d lsn h room in
      (returns, fetch_page_hit (write_page b pid d lsn).1 pid d has)
]

load_room :
    (b : BufferPool) (pid : ℕ) (d : ByteString)
    → length b.cache < b.capacity
    → pager_read b.pager pid ≡ ok d
    → load b pid ≡ (ok d, put (record b { misses = b.misses + 1 }) pid d b.pager.last_lsn)
load_room b pid d room e =
    let missed = record b { misses = b.misses + 1 } in
    load_ok b (put missed pid d b.pager.last_lsn) pid d e
      (admit_room missed pid d b.pager.last_lsn room)

-- A dirty page of a cache within its capacity, with an LSN above that of a snapshot, and that the
-- pager can read: fetching it with the snapshot returns and caches what the pager holds, and the
-- page is no longer dirty.
pub stale_lost :
    (b : BufferPool) (pid lsn : ℕ) (s : Snapshot) (d old : ByteString)
    → lookup pid b.cache ≡ some d
    → is_dirty pid b.dirty ≡ true
    → lookup pid b.page_lsn ≡ some lsn
    → s.lsn < lsn
    → length b.cache ≤ b.capacity
    → pager_read b.pager pid ≡ ok old
    → ((fetch_page b pid (some s)).0 ≡ ok old)
      × (lookup pid (fetch_page b pid (some s)).1.cache ≡ some old)
      × (is_dirty pid (fetch_page b pid (some s)).1.dirty ≡ false)
unfolding fetch_page invalidate put
stale_lost b pid lsn s d old cached dirty at newer bound reads =
    let room = length-pop-some pid d b.cache cached in
    let loaded = load_room (invalidate b pid) pid old (omega arith) reads in
    let is_stale : is_newer s (lsn_of b pid) ≡ true =
      unfold lsn_of is_newer in ground (arith, at, newer) in
    rw (cached, fetch_page, is_stale, loaded)
      (
        refl,
        ground (arith, lookup-insert pid pid old (pop pid b.cache)),
        is_dirty-discard pid b.dirty,
      )
