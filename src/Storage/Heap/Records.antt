-- ===== src/Storage/Heap/Records.antt =====
-- The records of a slotted page of src/tinydb/storage/heap.py.
use tinydb.Base.{
  ℕ, ◌+◌, ◌*◌, ◌^◌, ◌≤◌, ◌<◌, ◌≡◌, refl, ap, sym, ◌∙◌, ◌⊎◌, inl, inr, Option, none, some, length,
  take, drop, ◌==◌, ◌||◌, if◌then◌else◌, ok, arith, lt→leb_false,
}
use tinydb.Bytes.{ByteString}
use tinydb.Storage.Pager.{page_size}
use tinydb.Storage.Heap.{data_start, slot_size, read_header, read_slot, record_at}
use tinydb.Storage.Heap.Slices.{AreSame}
use tinydb.Storage.Heap.Fields.{place}
use tinydb.Storage.Heap.Slots.{read_slot_same}

-- A slot is free, or its record lies in the data of the page.
abbrev pub IsRecord : ByteString → ℕ → ℕ → Type 0
IsRecord page e s =
    (o l f : ℕ) × (read_slot page s ≡ ok (o, l, f)) × ((f ≡ 0) ⊎ ((data_start ≤ o) × (o + l ≤ e)))

-- A page of a heap, with its next page, its count of slots and the end of its data.
pub record IsSlotted (page : ByteString) (n c e : ℕ) : Type 0 where
  pub whole : length page ≡ page_size
  pub head : read_header page ≡ ok (n, c, e)
  pub next : n < 256 ^ 4
  pub start : data_start ≤ e
  pub room : c * slot_size + e ≤ page_size
  pub inside : (s : ℕ) → s < c → IsRecord page e s

-- What `record_at` makes of a slot.
abbrev pub found : ByteString → ℕ → ℕ → ℕ → Option ByteString
found page o l f = if (f == 0) || (l == 0) then none else some (take l (drop o page))

pub record_at_lem :
    (s n c e o l f : ℕ) (page : ByteString)
    → read_header page ≡ ok (n, c, e)
    → s < c
    → read_slot page s ≡ ok (o, l, f)
    → record_at s page ≡ ok (found page o l f)
unfolding record_at
record_at_lem s n c e o l f page h lt r = rw (h, lt→leb_false c s lt, r) refl

found_same :
    (a b : ByteString) (e o l f : ℕ)
    → AreSame data_start e a b
    → (f ≡ 0) ⊎ ((data_start ≤ o) × (o + l ≤ e))
    → found a o l f ≡ found b o l f
found_same a b e o l f same (inl z) = rw z refl
found_same a b e o l f same (inr (le, end)) = rw (same o l le end) refl

-- A record is the same on a page with the same data and slot.
pub record_same :
    (a b : ByteString) (n c e c' e' s : ℕ)
    → IsSlotted a n c e
    → read_header b ≡ ok (n, c', e')
    → length b ≡ page_size
    → s < c
    → c ≤ c'
    → AreSame data_start e a b
    → AreSame (place s) (place s + slot_size) a b
    → (record_at s b ≡ record_at s a) × (read_slot b s ≡ read_slot a s)
record_same a b n c e c' e' s h head whole lt le body slot =
    let (o, l, f, r, i) = h.inside s lt in
    let same =
      read_slot_same s a b (omega (arith, h.room, lt)) (omega (arith, h.whole, whole)) slot in
    (
      record_at_lem s n c' e' o l f b head (omega (arith, lt, le)) (sym same ∙ r)
          ∙ ap ok (sym (found_same a b e o l f body i))
          ∙ sym (record_at_lem s n c e o l f a h.head lt r),
      sym same,
    )
