-- ===== src/Storage/Heap/Slices.antt =====
-- Slices of a page after bytes are written over it, and the fields of src/tinydb/storage/heap.py that
-- are read from them.
use tinydb.Base.{
  ℕ, zero, suc, ◌+◌, ◌-◌, ◌^◌, ◌≤◌, ◌<◌, ◌≡◌, refl, ap, sym, ◌∙◌, ◌⊎◌, inl, inr, [], ◌∷◌, ◌++◌,
  length, take, drop, ok, arith, length-append, length-take, length-drop, take-append_le,
  take-append-drop, drop-append_add, drop-drop, le→ltb_false,
}
use tinydb.Bytes.{ByteString, le_bytes}
use tinydb.Bytes.Laws.{le_value-le_bytes}
use tinydb.Storage.Pager.{splice}
use tinydb.Storage.Heap.{unpack_from, pack_into}

-- The bytes from `lo` to `hi` are the same.
abbrev pub AreSame : ℕ → ℕ → ByteString → ByteString → Type 0
AreSame lo hi a b = (o k : ℕ) → lo ≤ o → o + k ≤ hi → take k (drop o a) ≡ take k (drop o b)

slice_prefix :
    (o k : ℕ) (a rest : ByteString)
    → o + k ≤ length a
    → take k (drop o (a ++ rest)) ≡ take k (drop o a)
unfolding drop
slice_prefix zero k a rest h = take-append_le k a rest (omega arith)
slice_prefix (suc o) k [] rest h = absurd (omega arith)
slice_prefix (suc o) k (x ∷ a) rest h = slice_prefix o k a rest (omega arith)

pub length-splice :
    (offset : ℕ) (part buf : ByteString)
    → offset + length part ≤ length buf
    → length (splice offset part buf) ≡ length buf
unfolding splice
length-splice offset part buf h = omega (
  arith,
  length-append (take offset buf) (part ++ drop (offset + length part) buf),
  length-append part (drop (offset + length part) buf),
  length-take offset buf,
  length-drop (offset + length part) buf,
)

slice_before :
    (offset o k : ℕ) (part buf : ByteString)
    → offset ≤ length buf
    → o + k ≤ offset
    → take k (drop o buf) ≡ take k (drop o (splice offset part buf))
unfolding splice
slice_before offset o k part buf h lt =
    let a = take offset buf in
    let room : o + k ≤ length a = omega (arith, length-take offset buf) in
    ap (λ (x : ByteString). take k (drop o x)) (sym (take-append-drop offset buf))
    ∙ slice_prefix o k a (drop offset buf) room
    ∙ sym (slice_prefix o k a (part ++ drop (offset + length part) buf) room)

slice_after :
    (offset o k : ℕ) (part buf : ByteString)
    → offset ≤ length buf
    → offset + length part ≤ o
    → take k (drop o buf) ≡ take k (drop o (splice offset part buf))
unfolding splice
slice_after offset o k part buf h lt =
    let end = offset + length part in
    let j = o - end in
    let a = take offset buf in
    let la = length-take offset buf in
    sym (
      ap (take k) (
        drop-append_add o (length part + j) a (part ++ drop end buf) (omega (arith, la))
        ∙ drop-append_add (length part + j) j part (drop end buf) refl
        ∙ drop-drop j end buf
        ∙ ap (λ (n : ℕ). drop n buf) (omega arith)))

-- What was written is what is there.
pub slice_inside :
    (offset i k : ℕ) (part buf : ByteString)
    → offset ≤ length buf
    → i + k ≤ length part
    → take k (drop (offset + i) (splice offset part buf)) ≡ take k (drop i part)
unfolding splice
slice_inside offset i k part buf h room =
    let a = take offset buf in
    ap (take k) (
      drop-append_add (offset + i) i a (part ++ drop (offset + length part) buf)
        (omega (arith, length-take offset buf)))
    ∙ slice_prefix i k part (drop (offset + length part) buf) room

-- What was not written is as before.
pub splice-AreSame :
    (lo hi offset : ℕ) (part a b : ByteString)
    → offset ≤ length b
    → (hi ≤ offset) ⊎ (offset + length part ≤ lo)
    → AreSame lo hi a b
    → AreSame lo hi a (splice offset part b)
splice-AreSame lo hi offset part a b h (inl lt) same o k le end =
    same o k le end ∙ slice_before offset o k part b h (omega arith)
splice-AreSame lo hi offset part a b h (inr lt) same o k le end =
    same o k le end ∙ slice_after offset o k part b h (omega arith)

pub unpack_same :
    (k offset : ℕ) (a b : ByteString)
    → length a ≡ length b
    → take k (drop offset a) ≡ take k (drop offset b)
    → unpack_from k a offset ≡ unpack_from k b offset
unfolding unpack_from
unpack_same k offset a b l s = rw (l, s) refl

pub unpack_lem :
    (k n offset : ℕ) (page : ByteString)
    → n < 256 ^ k
    → offset + k ≤ length page
    → take k (drop offset page) ≡ le_bytes k n
    → unpack_from k page offset ≡ ok n
unfolding unpack_from
unpack_lem k n offset page h room s =
    rw (le→ltb_false (length page) (offset + k) room, s, le_value-le_bytes k n h) refl

pub pack_into_lem :
    (offset : ℕ) (part page : ByteString)
    → offset + length part ≤ length page
    → pack_into offset part page ≡ ok (splice offset part page)
unfolding pack_into
pack_into_lem offset part page room =
    rw (le→ltb_false (length page) (offset + length part) room) refl
