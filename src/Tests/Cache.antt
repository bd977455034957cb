-- ===== src/Tests/Cache.antt =====
-- The theorems on src/tinydb/storage/buffer_pool.py, with room for two pages.
use tinydb.Base.{
  ◌≡◌, ◌≤◌, refl, none, some, [], ◌∷◌, false, arith, length, get_elem?, replicate, ok, inr,
}
use tinydb.Base.Dict.{eq_nat, lookup}
use tinydb.Storage.Pager.{zero_page, read_page as pager_read}
use tinydb.Storage.BufferPool.{BufferPool, Snapshot, fetch_page, write_page, is_dirty}
use tinydb.Storage.BufferPool.Capacity.{cache_bounded}
use tinydb.Storage.BufferPool.Stale.{fetch_page-write_page, stale_lost}
use tinydb.Tests.Pages.{sample, fill}

-- Page 5 was written with LSN 9 and not flushed.
abbrev pool : BufferPool
pool = record {
  pager = sample;
  capacity = 2;
  cache = (5, fill 7) ∷ [];
  page_lsn = (5, 9) ∷ [];
  dirty = 5 ∷ [];
  hits = 0;
  misses = 1;
}

abbrev early : Snapshot
early = record { lsn = 3 }

cache_bounded_example :
    (length (fetch_page pool 4 (some early)).1.cache ≤ 2)
    × (length (write_page pool 4 (fill 1) 10).1.cache ≤ 2)
cache_bounded_example = cache_bounded pool 4 (some early) (fill 1) 10 (omega arith) (omega arith)

fetch_page-write_page_example :
    ((write_page pool 4 (fill 1) 10).0 ≡ ok tt)
    × ((fetch_page (write_page pool 4 (fill 1) 10).1 4 none).0 ≡ ok (fill 1))
fetch_page-write_page_example = fetch_page-write_page pool 4 (fill 1) 10 (inr (omega arith))

stale_lost_example :
    ((fetch_page pool 5 (some early)).0 ≡ ok zero_page)
    × (lookup 5 (fetch_page pool 5 (some early)).1.cache ≡ some zero_page)
    × (is_dirty 5 (fetch_page pool 5 (some early)).1.dirty ≡ false)
unfolding lookup is_dirty
stale_lost_example =
    stale_lost pool 5 9 early (fill 7) zero_page refl refl refl (omega arith) (omega arith)
      (unfold pager_read get_elem? replicate in refl)
