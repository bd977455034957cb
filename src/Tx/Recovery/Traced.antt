-- ===== src/Tx/Recovery/Traced.antt =====
-- The table of `replay` of src/tinydb/tx/recovery.py after the page records of one transaction.
use tinydb.Base.{
  ℕ, zero, suc, ◌<◌, ◌≡◌, refl, ◌∙◌, Option, none, some, List, [], ◌∷◌, arith, length, ◌==◌,
  if◌then◌else◌, get_elem?,
}
use tinydb.Base.Dict.{eq_nat, eq_pair, lookup, contains, insert, lookup-insert}
use tinydb.Bytes.{ByteString}
use tinydb.Storage.Pager.{write_at}
use tinydb.Storage.Pager.Pages.{get_elem?-write_at}
use tinydb.Tx.Recovery.{PageTouch}
use tinydb.Tx.Recovery.Restore.{Distinct, InFile}
use tinydb.Tx.Recovery.Record.{Fits}
use tinydb.Tx.Recovery.Touches.{
  Touches, touch_all, Owned, InPages, insert-Owned, insert-InPages, after_or, before_or, or_else,
}

-- The last write of a page.
abbrev pub last_write : ℕ → List (ℕ × ByteString) → Option ByteString
last_write q [] = none
last_write q ((p, data_) ∷ ws) = or_else (last_write q ws) (if p == q then some data_ else none)

get_elem?_lt :
    (pages : List ByteString) (i : ℕ) (x : ByteString)
    → get_elem? pages i ≡ some x
    → i < length pages
unfolding get_elem?
get_elem?_lt [] i x e = absurd (cc)
get_elem?_lt (y ∷ pages) zero x e = omega arith
get_elem?_lt (y ∷ pages) (suc i) x e = omega (arith, get_elem?_lt pages i x e)

-- The touches that these writes make, on these pages: each has the page's bytes before it.
abbrev pub Traced : ℕ → List ByteString → List (ℕ × ByteString) → List PageTouch → Type 0
Traced t pages [] [] = Unit
Traced t pages [] (u ∷ us) = ⊥
Traced t pages (w ∷ ws) [] = ⊥
Traced t pages ((pid, data_) ∷ ws) (u ∷ us) =
    (u.tx_id ≡ t)
    × (u.page_id ≡ pid)
    × (u.after ≡ data_)
    × (get_elem? pages pid ≡ some u.before)
    × Fits u
    × Traced t (write_at pid data_ pages) ws us

-- The table of the touches that writes make has the last write of each page.
pub touch_all_after :
    (t q : ℕ) (ws : List (ℕ × ByteString)) (us : List PageTouch) (pages : List ByteString)
    (d : Touches)
    → Traced t pages ws us
    → after_or (lookup (t, q) (touch_all us d)) none
      ≡ or_else (last_write q ws) (after_or (lookup (t, q) d) none)
touch_all_after t q [] [] pages d h = refl
touch_all_after t q [] (u ∷ us) pages d h = absurd h
touch_all_after t q (w ∷ ws) [] pages d h = absurd h
touch_all_after t q ((p, x) ∷ ws) (u ∷ us) pages d h =
    touch_all_after t q ws us (write_at p x pages) (insert (u.tx_id, u.page_id) u d) h.5
    ∙ ground (arith, lookup-insert (u.tx_id, u.page_id) (t, q) u d, h.0, h.1, h.2)

-- With no page written twice, it has the bytes before the write.
pub touch_all_before :
    (t q : ℕ) (ws : List (ℕ × ByteString)) (us : List PageTouch) (pages : List ByteString)
    (d : Touches)
    → Traced t pages ws us
    → Distinct ws
    → before_or (lookup (t, q) (touch_all us d)) none
      ≡ (if contains q ws then get_elem? pages q else before_or (lookup (t, q) d) none)
unfolding contains lookup
touch_all_before t q [] [] pages d h k = refl
touch_all_before t q [] (u ∷ us) pages d h k = absurd h
touch_all_before t q (w ∷ ws) [] pages d h k = absurd h
touch_all_before t q ((p, x) ∷ ws) (u ∷ us) pages d h k =
    touch_all_before t q ws us (write_at p x pages) (insert (u.tx_id, u.page_id) u d) h.5 k.1
    ∙ ground (
      arith,
      lookup-insert (u.tx_id, u.page_id) (t, q) u d,
      get_elem?-write_at p q x pages (get_elem?_lt pages p u.before h.3),
      h.0,
      h.1,
      h.3,
      k.0,
    )

pub touch_all_kept :
    (t n : ℕ) (ws : List (ℕ × ByteString)) (us : List PageTouch) (pages : List ByteString)
    (d : Touches)
    → Traced t pages ws us
    → InFile n ws
    → Owned t d
    → InPages n d
    → Owned t (touch_all us d) × InPages n (touch_all us d)
touch_all_kept t n [] [] pages d h f o i = (o, i)
touch_all_kept t n [] (u ∷ us) pages d h f o i = absurd h
touch_all_kept t n (w ∷ ws) [] pages d h f o i = absurd h
touch_all_kept t n ((p, x) ∷ ws) (u ∷ us) pages d h f o i =
    touch_all_kept t n ws us (write_at p x pages) (insert (u.tx_id, u.page_id) u d) h.5 f.3
      (insert-Owned t u.tx_id u.page_id u d h.0 o)
      (insert-InPages n u.tx_id u.page_id u d
        (omega (arith, h.1, f.0), omega (arith, h.1, f.1), h.4.before, h.4.after) i)
