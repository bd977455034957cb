-- ===== src/Storage/Heap/Delete.antt =====
-- What `delete` of src/tinydb/storage/heap.py makes of a page.
use tinydb.Base.{
  ℕ, ◌+◌, ◌*◌, ◌≤◌, ◌<◌, ◌≡◌, ◌≢◌, refl, sym, subst, ◌∙◌, ◌⊎◌, inl, inr, none, some, length, ok,
  arith, lt→leb_false,
}
use tinydb.Bytes.{ByteString}
use tinydb.Storage.Pager.{page_size}
use tinydb.Storage.Heap.{slot_size, read_header, read_slot, record_at, clear_slot}
use tinydb.Storage.Heap.Slices.{AreSame, unpack_same}
use tinydb.Storage.Heap.Fields.{place}
use tinydb.Storage.Heap.Slots.{
  slotted, length-slotted, write_slot_lem, read-slotted, slotted-AreSame,
}
use tinydb.Storage.Heap.Records.{IsSlotted, IsRecord, record_at_lem, record_same}

read_header_same :
    (a b : ByteString) → length a ≡ length b → AreSame 0 8 a b → read_header a ≡ read_header b
unfolding read_header
read_header_same a b l same =
    rw
      (
        unpack_same 4 0 a b l (same 0 4 (omega arith) (omega arith)),
        unpack_same 2 4 a b l (same 4 2 (omega arith) (omega arith)),
        unpack_same 2 6 a b l (same 6 2 (omega arith) (omega arith)),
      )
      refl

apart : (i s : ℕ) → i ≢ s → (i < s) ⊎ (s < i)
apart i s h = ground (arith, h)

same_or_apart : (i s : ℕ) → (i ≡ s) ⊎ (i ≢ s)
same_or_apart i s = ground arith

module _ (page : ByteString) (n c e s : ℕ) (h : IsSlotted page n c e) (lt : s < c) where
  -- the page with the slot free
  cleared : ByteString
  cleared = slotted s 0 0 0 page

  fits : (s + 1) * slot_size ≤ page_size
  fits = omega (arith, h.room, lt)

  length-cleared : length cleared ≡ page_size
  unfolding cleared
  length-cleared = length-slotted s 0 0 0 page h.whole fits

  kept : (lo hi : ℕ) → (hi ≤ place s) ⊎ (place s + slot_size ≤ lo) → AreSame lo hi page cleared
  unfolding cleared
  kept lo hi side = slotted-AreSame s 0 0 0 page h.whole fits lo hi page side (λ o k le end. refl)

  cleared_read : read_header cleared ≡ ok (n, c, e)
  cleared_read =
      sym (
        read_header_same page cleared (h.whole ∙ sym length-cleared)
          (kept 0 8 (inl (omega (arith, h.room, h.start, lt)))))
      ∙ h.head

  cleared_slot : read_slot cleared s ≡ ok (0, 0, 0)
  unfolding cleared
  cleared_slot = read-slotted s 0 0 0 page h.whole fits (omega arith) (omega arith) (omega arith)

  kept_record :
      (i : ℕ)
      → i < c
      → i ≢ s
      → (record_at i cleared ≡ record_at i page) × (read_slot cleared i ≡ read_slot page i)
  kept_record i le ne =
      record_same page cleared n c e c e i h cleared_read length-cleared le (omega arith)
        (kept 12 e (inl (omega (arith, h.room, lt))))
        (kept (place i) (place i + slot_size) (elim (apart i s ne) [
          | inl b ↦ inr (omega (arith, h.room, lt, b))
          | inr b ↦ inl (omega (arith, h.room, le, b))
        ]))

  cleared-IsRecord : (i : ℕ) → i < c → IsRecord cleared e i
  cleared-IsRecord i le = elim (same_or_apart i s) [
    | inl same ↦
        subst (λ (x : ℕ). IsRecord cleared e x) (sym same) (0, 0, 0, cleared_slot, inl refl)
    | inr ne ↦
        let (o, l, f, r, inside) = h.inside i le in (o, l, f, (kept_record i le ne).1 ∙ r, inside)
  ]

  -- Deleting a slot below the count of a page whose slots hold records inside its data: it returns a
  -- page of the same kind with the same counts, on which the slot reads as nothing and
  -- every other slot as before.
  pub read-clear_slot :
      (page' : ByteString) × (clear_slot s page ≡ ok (some page'))
      × IsSlotted page' n c e
      × (record_at s page' ≡ ok none)
      × ((i : ℕ) → i < c → i ≢ s → record_at i page' ≡ record_at i page)
  unfolding clear_slot cleared slotted
  read-clear_slot = (
    cleared,
    rw
        (
          h.head,
          lt→leb_false c s lt,
          write_slot_lem s 0 0 0 page h.whole fits (omega arith) (omega arith) (omega arith),
        )
        refl,
    record {
      whole = length-cleared;
      head = cleared_read;
      next = h.next;
      start = h.start;
      room = h.room;
      inside = cleared-IsRecord;
    },
    record_at_lem s n c e 0 0 0 cleared cleared_read lt cleared_slot,
    λ i le ne. (kept_record i le ne).0,
  )
