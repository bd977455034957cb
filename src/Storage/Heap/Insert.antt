-- ===== src/Storage/Heap/Insert.antt =====
-- What `insert` of src/tinydb/storage/heap.py makes of a page with room.
use tinydb.Base.{
  ℕ, ◌+◌, ◌*◌, ◌≤◌, ◌<◌, ◌≡◌, refl, ap, sym, subst, ◌∙◌, ◌⊎◌, inl, inr, none, some, length, take,
  drop, ◌==◌, if◌then◌else◌, ok, arith, take_all,
}
use tinydb.Bytes.{ByteString}
use tinydb.Storage.Pager.{page_size, splice}
use tinydb.Storage.Heap.{slot_size, read_header, read_slot, add_record, record_at}
use tinydb.Storage.Heap.Slices.{AreSame, length-splice, slice_inside, splice-AreSame}
use tinydb.Storage.Heap.Fields.{
  place, headed, length-headed, write_header_lem, read-headed, headed-AreSame,
}
use tinydb.Storage.Heap.Slots.{
  slotted, length-slotted, write_slot_lem, read-slotted, read_slot_same, slotted-AreSame,
}
use tinydb.Storage.Heap.Records.{IsSlotted, IsRecord, record_at_lem, record_same}

last_or_before : (s c : ℕ) → s < c + 1 → (s < c) ⊎ (s ≡ c)
last_or_before s c h = ground (arith, h)

module _ (enc page : ByteString) (n c e : ℕ) (h : IsSlotted page n c e)
    (fits : (c + 1) * slot_size + e + length enc ≤ page_size) where
  with_record : ByteString
  with_record = splice e enc page

  with_slot : ByteString
  unfolding with_record
  with_slot = slotted c e (length enc) 1 with_record

  -- the page with the record, its slot and the new header
  with_header : ByteString
  unfolding with_slot
  with_header = headed n (c + 1) (e + length enc) with_slot

  record_length : length with_record ≡ page_size
  unfolding with_record
  record_length = length-splice e enc page (omega (arith, h.whole, fits)) ∙ h.whole

  slot_length : length with_slot ≡ page_size
  unfolding with_slot
  slot_length = length-slotted c e (length enc) 1 with_record record_length (omega (arith, fits))

  header_length : length with_header ≡ page_size
  unfolding with_header
  header_length = length-headed n (c + 1) (e + length enc) with_slot slot_length

  header_read : read_header with_header ≡ ok (n, c + 1, e + length enc)
  unfolding with_header
  header_read =
      read-headed n (c + 1) (e + length enc) with_slot slot_length h.next (omega (arith, fits))
        (omega (arith, fits))

  added : add_record enc page ≡ ok (with_header, c)
  unfolding add_record with_header with_slot with_record
  added =
      rw
        (
          h.head,
          write_slot_lem c e (length enc) 1 with_record record_length (omega (arith, fits))
              (omega (arith, fits)) (omega (arith, fits)) (omega arith),
          write_header_lem n (c + 1) (e + length enc) with_slot slot_length h.next
              (omega (arith, fits)) (omega (arith, fits)),
        )
        refl

  -- Bytes that lie on one side of the record and of the slot.
  kept :
      (lo hi : ℕ)
      → 8 ≤ lo
      → (hi ≤ place c) ⊎ (place c + slot_size ≤ lo)
      → (hi ≤ e) ⊎ (e + length enc ≤ lo)
      → AreSame lo hi page with_header
  unfolding with_header with_slot with_record
  kept lo hi le slot body =
      headed-AreSame n (c + 1) (e + length enc) with_slot slot_length lo hi page le (
        slotted-AreSame c e (length enc) 1 with_record record_length (omega (arith, fits)) lo hi
          page slot
          (splice-AreSame lo hi e enc page page (omega (arith, h.whole, fits)) body
            (λ o k le end. refl)))

  kept_record :
      (s : ℕ)
      → s < c
      → (record_at s with_header ≡ record_at s page) × (read_slot with_header s ≡ read_slot page s)
  kept_record s lt =
      record_same page with_header n c e (c + 1) (e + length enc) s h header_read header_length lt
        (omega arith) (kept 12 e (omega arith) (inl (omega (arith, fits))) (inl (omega arith)))
        (kept (place s) (place s + slot_size) (omega (arith, h.room, h.start, lt))
          (inr (omega (arith, fits, lt))) (inr (omega (arith, fits, lt))))

  new_slot : read_slot with_header c ≡ ok (e, length enc, 1)
  unfolding with_header with_slot
  new_slot =
      sym (
        read_slot_same c with_slot with_header (omega (arith, fits))
          (slot_length ∙ sym header_length)
          (headed-AreSame n (c + 1) (e + length enc) with_slot slot_length (place c)
            (place c + slot_size) with_slot (omega (arith, fits, h.start)) (λ o k le end. refl)))
      ∙ read-slotted c e (length enc) 1 with_record record_length (omega (arith, fits))
          (omega (arith, fits)) (omega (arith, fits)) (omega arith)

  new_bytes : take (length enc) (drop e with_header) ≡ enc
  unfolding with_header with_slot with_record drop
  new_bytes =
      sym (
        headed-AreSame n (c + 1) (e + length enc) with_slot slot_length e (e + length enc)
          with_record (omega (arith, h.start))
          (slotted-AreSame c e (length enc) 1 with_record record_length (omega (arith, fits)) e
            (e + length enc) with_record (inl (omega (arith, fits))) (λ o k le end. refl))
          e (length enc) (omega arith) (omega arith))
      ∙ ap (λ (x : ℕ). take (length enc) (drop x with_record)) (omega arith)
      ∙ slice_inside e 0 (length enc) enc page (omega (arith, h.whole, fits)) (omega arith)
      ∙ take_all (length enc) enc (omega arith)

  new_record : record_at c with_header ≡ ok (if length enc == 0 then none else some enc)
  new_record =
      record_at_lem c n (c + 1) (e + length enc) e (length enc) 1 with_header header_read
        (omega arith) new_slot
      ∙ rw new_bytes refl

  new-IsRecord : (s : ℕ) → s < c + 1 → IsRecord with_header (e + length enc) s
  new-IsRecord s lt = elim (last_or_before s c lt) [
    | inl b ↦
        let (o, l, f, r, i) = h.inside s b in
        (
          o,
          l,
          f,
          (kept_record s b).1 ∙ r,
          elim i [ inl z ↦ inl z | inr (le, end) ↦ inr (le, omega (arith, end)) ],
        )
    | inr same ↦
        subst (λ (x : ℕ). IsRecord with_header (e + length enc) x) (sym same)
          (e, length enc, 1, new_slot, inr (h.start, omega arith))
  ]

  -- Adding a record to a page whose slots hold records inside its data, with room for the record
  -- and its slot: it returns the next slot and a page of the same kind with that many slots and
  -- bytes more, on which the new slot reads as the record, or as nothing when it is empty,
  -- and every earlier slot as before.
  pub read-add_record :
      (page' : ByteString) × (add_record enc page ≡ ok (page', c))
      × IsSlotted page' n (c + 1) (e + length enc)
      × (record_at c page' ≡ ok (if length enc == 0 then none else some enc))
      × ((s : ℕ) → s < c → record_at s page' ≡ record_at s page)
  read-add_record = (
    with_header,
    added,
    record {
      whole = header_length;
      head = header_read;
      next = h.next;
      start = omega (arith, h.start);
      room = omega (arith, fits);
      inside = new-IsRecord;
    },
    new_record,
    λ s lt. (kept_record s lt).0,
  )
