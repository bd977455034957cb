-- ===== src/Storage/Heap/Slots.antt =====
-- The slots of a page of src/tinydb/storage/heap.py.
use tinydb.Base.{
  ℕ, ◌+◌, ◌*◌, ◌^◌, ◌≤◌, ◌<◌, ◌≡◌, refl, ap, sym, ◌∙◌, ◌⊎◌, inl, inr, ◌++◌, length, take, drop, ok,
  arith, length-append, take-append, drop-append, take_all, drop-append_add,
}
use tinydb.Bytes.{ByteString, le_bytes}
use tinydb.Bytes.Laws.{length-le_bytes, pack_le_ok}
use tinydb.Storage.Pager.{page_size, splice}
use tinydb.Storage.Heap.{slot_size, read_slot, write_slot}
use tinydb.Storage.Heap.Slices.{
  AreSame, length-splice, slice_inside, splice-AreSame, unpack_same, unpack_lem, pack_into_lem,
}
use tinydb.Storage.Heap.Fields.{place, slot_offset_lem}

-- The bytes of a slot.
unfoldable pub slot_bytes : ℕ → ℕ → ℕ → ByteString
slot_bytes o l f = le_bytes 2 o ++ (le_bytes 2 l ++ le_bytes 1 f)

pub length-slot_bytes : (o l f : ℕ) → length (slot_bytes o l f) ≡ 5
unfolding slot_bytes
length-slot_bytes o l f = omega (
  arith,
  length-append (le_bytes 2 o) (le_bytes 2 l ++ le_bytes 1 f),
  length-append (le_bytes 2 l) (le_bytes 1 f),
  length-le_bytes 2 o,
  length-le_bytes 2 l,
  length-le_bytes 1 f,
)

-- A page with a slot written over it.
unfoldable pub slotted : ℕ → ℕ → ℕ → ℕ → ByteString → ByteString
slotted s o l f page = splice (place s) (slot_bytes o l f) page

-- The slots of two pages are the same where their bytes are.
pub read_slot_same :
    (s : ℕ) (a b : ByteString)
    → (s + 1) * slot_size ≤ page_size
    → length a ≡ length b
    → AreSame (place s) (place s + slot_size) a b
    → read_slot a s ≡ read_slot b s
unfolding read_slot
read_slot_same s a b h l same =
    rw
      (
        slot_offset_lem s a h,
        slot_offset_lem s b h,
        unpack_same 2 (place s) a b l (same (place s) 2 (omega arith) (omega arith)),
        unpack_same 2 (place s + 2) a b l (same (place s + 2) 2 (omega arith) (omega arith)),
        unpack_same 1 (place s + 4) a b l (same (place s + 4) 1 (omega arith) (omega arith)),
      )
      refl

module _ (s o l f : ℕ) (page : ByteString) (whole : length page ≡ page_size)
    (room : (s + 1) * slot_size ≤ page_size) where
  fits : place s + length (slot_bytes o l f) ≤ length page
  fits = omega (arith, length-slot_bytes o l f, whole, room)

  pub length-slotted : length (slotted s o l f page) ≡ page_size
  unfolding slotted
  length-slotted = length-splice (place s) (slot_bytes o l f) page fits ∙ whole

  pub write_slot_lem :
      o < 256 ^ 2 → l < 256 ^ 2 → f < 256 → write_slot s o l f page ≡ ok (slotted s o l f page)
  unfolding write_slot slotted slot_bytes
  write_slot_lem ho hl hf =
      rw
        (
          slot_offset_lem s page room,
          pack_le_ok 2 o ho,
          pack_le_ok 2 l hl,
          pack_le_ok 1 f (omega (arith, hf)),
          pack_into_lem (place s) (slot_bytes o l f) page fits,
        )
        refl

  pub read-slotted :
      o < 256 ^ 2 → l < 256 ^ 2 → f < 256 → read_slot (slotted s o l f page) s ≡ ok (o, l, f)
  unfolding read_slot slotted slot_bytes drop
  read-slotted ho hl hf =
      let part = slot_bytes o l f in
      let p1 = splice (place s) part page in
      let start : place s ≤ length page = omega (arith, whole) in
      let n = length-slot_bytes o l f in
      let whole1 : length p1 ≡ page_size = length-slotted in
      let lo = length-le_bytes 2 o in
      let ll = length-le_bytes 2 l in
      rw
        (
          slot_offset_lem s p1 room,
          unpack_lem 2 o (place s) p1 ho (omega (arith, room, whole1)) (
              ap (λ (x : ℕ). take 2 (drop x p1)) (omega arith)
              ∙ slice_inside (place s) 0 2 part page start (omega (arith, n))
              ∙ take-append 2 (le_bytes 2 o) (le_bytes 2 l ++ le_bytes 1 f) (sym lo)),
          unpack_lem 2 l (place s + 2) p1 hl (omega (arith, room, whole1)) (
              slice_inside (place s) 2 2 part page start (omega (arith, n))
              ∙ ap (take 2) (drop-append 2 (le_bytes 2 o) (le_bytes 2 l ++ le_bytes 1 f) (sym lo))
              ∙ take-append 2 (le_bytes 2 l) (le_bytes 1 f) (sym ll)),
          unpack_lem 1 f (place s + 4) p1 (omega (arith, hf)) (omega (arith, room, whole1)) (
              slice_inside (place s) 4 1 part page start (omega (arith, n))
              ∙ ap (take 1) (
                  drop-append_add 4 2 (le_bytes 2 o) (le_bytes 2 l ++ le_bytes 1 f)
                    (omega (arith, lo))
                  ∙ drop-append 2 (le_bytes 2 l) (le_bytes 1 f) (sym ll))
              ∙ take_all 1 (le_bytes 1 f) (omega (arith, length-le_bytes 1 f))),
        )
        refl

  -- A slot does not reach beyond 6 bytes.
  pub slotted-AreSame :
      (lo hi : ℕ) (a : ByteString)
      → (hi ≤ place s) ⊎ (place s + slot_size ≤ lo)
      → AreSame lo hi a page
      → AreSame lo hi a (slotted s o l f page)
  unfolding slotted
  slotted-AreSame lo hi a (inl h) same =
      splice-AreSame lo hi (place s) (slot_bytes o l f) a page (omega (arith, whole)) (inl h) same
  slotted-AreSame lo hi a (inr h) same =
      splice-AreSame lo hi (place s) (slot_bytes o l f) a page (omega (arith, whole))
        (inr (omega (arith, h, length-slot_bytes o l f))) same
