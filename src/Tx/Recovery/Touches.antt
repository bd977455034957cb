-- ===== src/Tx/Recovery/Touches.antt =====
-- The images that `replay` of src/tinydb/tx/recovery.py chooses from the table of one transaction.
use tinydb.Base.{
  subst, ℕ, ◌<◌, ◌≡◌, refl, sym, ◌∙◌, true, false, ◌&&◌, Bool-cases, Option, none, some, List, [],
  ◌∷◌, arith, length, ◌==◌, if◌then◌else◌, inl, inr,
}
use tinydb.Base.Dict.{
  Dict, eq_nat, eq_pair, lookup, contains, insert, setdefault, lookup-insert, lookup-setdefault,
}
use tinydb.Bytes.{ByteString}
use tinydb.Storage.Pager.{page_size}
use tinydb.Tx.Recovery.{
  PageTouch, TxState, Images, choose_image, choose_images, state_of, is_committed,
}
use tinydb.Tx.Recovery.Restore.{InFile}

abbrev pub Touches : Type 0
Touches = Dict (ℕ × ℕ) PageTouch

-- The table after these touches.
abbrev pub touch_all : List PageTouch → Touches → Touches
touch_all [] d = d
touch_all (u ∷ us) d = touch_all us (insert (u.tx_id, u.page_id) u d)

-- Touches of one transaction, each page once.
abbrev pub Owned : ℕ → Touches → Type 0
Owned t [] = Unit
Owned t ((k, u) ∷ d) = (k.0 ≡ t) × (lookup k d ≡ none) × Owned t d

-- Touches of pages behind the header page and inside the file, with whole images.
abbrev pub InPages : ℕ → Touches → Type 0
InPages n [] = Unit
InPages n ((k, u) ∷ d) =
    (0 < k.1)
    × (k.1 < n)
    × (length u.before ≡ page_size)
    × (length u.after ≡ page_size)
    × InPages n d

pub insert-Owned :
    (t x p : ℕ) (u : PageTouch) (d : Touches) → x ≡ t → Owned t d → Owned t (insert (x, p) u d)
unfolding insert lookup
insert-Owned t x p u [] e h = (e, refl, tt)
insert-Owned t x p u ((k, v) ∷ d) e h =
    ground (arith, insert-Owned t x p u d e h.2, lookup-insert (x, p) k u d, h.0, h.1)

pub insert-InPages :
    (n t p : ℕ) (u : PageTouch) (d : Touches)
    → (0 < p) × (p < n) × (length u.before ≡ page_size) × (length u.after ≡ page_size)
    → InPages n d
    → InPages n (insert (t, p) u d)
unfolding insert
insert-InPages n t p u [] f h = (f.0, f.1, f.2, f.3, tt)
insert-InPages n t p u ((k, v) ∷ d) f h = ground (arith, insert-InPages n t p u d f h.4, h.0)

pub insert-InFile :
    (n k : ℕ) (v : ByteString) (d : Dict ℕ ByteString)
    → (0 < k) × (k < n) × (length v ≡ page_size)
    → InFile n d
    → InFile n (insert k v d)
unfolding insert
insert-InFile n k v [] f h = (f.0, f.1, f.2, tt)
insert-InFile n k v ((j, w) ∷ d) f h = ground (arith, insert-InFile n k v d f h.3, h.0)

pub setdefault-InFile :
    (n k : ℕ) (v : ByteString) (d : Dict ℕ ByteString)
    → (0 < k) × (k < n) × (length v ≡ page_size)
    → InFile n d
    → InFile n (setdefault k v d)
unfolding setdefault
setdefault-InFile n k v d f h = ground (arith, insert-InFile n k v d f h)

-- A touch's image, or else another.
abbrev pub after_or : Option PageTouch → Option ByteString → Option ByteString
after_or none o = o
after_or (some u) o = some u.after

abbrev pub before_or : Option PageTouch → Option ByteString → Option ByteString
before_or none o = o
before_or (some u) o = some u.before

abbrev pub or_else : Option ByteString → Option ByteString → Option ByteString
or_else none o = o
or_else (some x) o = some x

choose_image_committed :
    (states : Dict ℕ TxState) (t x p : ℕ) (u : PageTouch) (images : Images)
    → x ≡ t
    → is_committed (state_of states t) ≡ true
    → choose_image states ((x, p), u) images
      ≡ record images { committed_after = insert p u.after images.committed_after }
unfolding choose_image
choose_image_committed states t x p u images e c = ground (arith, c, e)

choose_image_other :
    (states : Dict ℕ TxState) (t x p : ℕ) (u : PageTouch) (images : Images)
    → x ≡ t
    → 0 < t
    → is_committed (state_of states t) ≡ false
    → choose_image states ((x, p), u) images
      ≡ record images { unknown_before = setdefault p u.before images.unknown_before }
unfolding choose_image
choose_image_other states t x p u images e pos c = ground (arith, c, e)

head_after :
    (t q x p : ℕ) (u : PageTouch) (d : Touches) (o o' : Option ByteString)
    → x ≡ t
    → lookup (x, p) d ≡ none
    → o' ≡ (if p == q then some u.after else o)
    → after_or (lookup (t, q) d) o'
      ≡ after_or (if x == t && p == q then some u else lookup (t, q) d) o
head_after t q x p u d o o' e n h = elim (Bool-cases (p == q)) [
  | inl y ↦
      let pq : p ≡ q = ground (arith, y) in
      let m : lookup (t, q) d ≡ none = rw (← e, ← pq) n in rw (h, y, m) (ground (arith, e))
  | inr y ↦ rw (h, y) (ground arith)
]

head_before :
    (t q x p : ℕ) (u : PageTouch) (d : Touches) (b : Dict ℕ ByteString)
    → x ≡ t
    → lookup (x, p) d ≡ none
    → or_else (lookup q (setdefault p u.before b)) (before_or (lookup (t, q) d) none)
      ≡ or_else (lookup q b) (before_or (if x == t && p == q then some u else lookup (t, q) d) none)
unfolding contains
head_before t q x p u d b e n = elim (Bool-cases (p == q)) [
  | inl y ↦
      let pq : p ≡ q = ground (arith, y) in
      let m : lookup (t, q) d ≡ none = rw (← e, ← pq) n in
      rw (lookup-setdefault p q u.before b, m, y, pq) (ground (arith, e))
  | inr y ↦ rw (lookup-setdefault p q u.before b, y) (ground arith)
]

-- The images of a committed transaction's touches.
pub choose_images_committed :
    (states : Dict ℕ TxState) (t q n : ℕ) (d : Touches) (images : Images)
    → is_committed (state_of states t) ≡ true
    → Owned t d
    → InPages n d
    → InFile n images.committed_after
    → (lookup q (choose_images states d images).committed_after
        ≡ after_or (lookup (t, q) d) (lookup q images.committed_after))
      × ((choose_images states d images).unknown_before ≡ images.unknown_before)
      × InFile n (choose_images states d images).committed_after
unfolding choose_images lookup
choose_images_committed states t q n [] images c o i f = (refl, refl, f)
choose_images_committed states t q n (((x, p), u) ∷ d) images c o i f =
    let im : Images = record images { committed_after = insert p u.after images.committed_after } in
    let (found, same, within) =
      choose_images_committed states t q n d im c o.2 i.4
        (insert-InFile n p u.after images.committed_after (i.0, i.1, i.3) f) in
    let r = after_or (lookup (t, q) (((x, p), u) ∷ d)) (lookup q images.committed_after) in
    subst
      (λ (i' : Images).
        (lookup q (choose_images states d i').committed_after ≡ r)
        × ((choose_images states d i').unknown_before ≡ images.unknown_before)
        × InFile n (choose_images states d i').committed_after)
      (sym (choose_image_committed states t x p u images o.0 c))
      (
        found
            ∙ head_after t q x p u d (lookup q images.committed_after) (lookup q im.committed_after)
                o.0 o.1 (lookup-insert p q u.after images.committed_after),
        same,
        within,
      )

-- The images of the touches of a transaction that did not commit.
pub choose_images_other :
    (states : Dict ℕ TxState) (t q n : ℕ) (d : Touches) (images : Images)
    → 0 < t
    → is_committed (state_of states t) ≡ false
    → Owned t d
    → InPages n d
    → InFile n images.unknown_before
    → (lookup q (choose_images states d images).unknown_before
        ≡ or_else (lookup q images.unknown_before) (before_or (lookup (t, q) d) none))
      × ((choose_images states d images).committed_after ≡ images.committed_after)
      × InFile n (choose_images states d images).unknown_before
unfolding choose_images lookup
choose_images_other states t q n [] images pos c o i f = (ground arith, refl, f)
choose_images_other states t q n (((x, p), u) ∷ d) images pos c o i f =
    let im : Images = record images {
      unknown_before = setdefault p u.before images.unknown_before;
    } in
    let (found, same, within) =
      choose_images_other states t q n d im pos c o.2 i.4
        (setdefault-InFile n p u.before images.unknown_before (i.0, i.1, i.2) f) in
    let r =
      or_else (lookup q images.unknown_before) (before_or (lookup (t, q) (((x, p), u) ∷ d)) none) in
    subst
      (λ (i' : Images).
        (lookup q (choose_images states d i').unknown_before ≡ r)
        × ((choose_images states d i').committed_after ≡ images.committed_after)
        × InFile n (choose_images states d i').unknown_before)
      (sym (choose_image_other states t x p u images o.0 pos c))
      (found ∙ head_before t q x p u d images.unknown_before o.0 o.1, same, within)
