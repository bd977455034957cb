-- ===== src/Storage/Heap/Fields.antt =====
-- The header and the slots of a page of src/tinydb/storage/heap.py.
use tinydb.Base.{
  ℕ, ◌+◌, ◌-◌, ◌*◌, ◌^◌, ◌≤◌, ◌<◌, ◌≡◌, refl, ap, ◌∙◌, inl, inr, length, take, drop, ok, arith,
  le→leb, take_all,
}
use tinydb.Bytes.{ByteString, le_bytes}
use tinydb.Bytes.Laws.{length-le_bytes, pack_le_ok}
use tinydb.Storage.Pager.{page_size, splice}
use tinydb.Storage.Heap.{slot_size, unpack_from, read_header, write_header, slot_offset}
use tinydb.Storage.Heap.Slices.{
  AreSame, length-splice, slice_inside, splice-AreSame, unpack_same, unpack_lem, pack_into_lem,
}

-- The place of a slot of a page.
abbrev pub place : ℕ → ℕ
place slot_id = page_size - (slot_id + 1) * slot_size

pub slot_offset_lem :
    (s : ℕ) (page : ByteString)
    → (s + 1) * slot_size ≤ page_size
    → slot_offset s page ≡ ok (place s)
unfolding slot_offset
slot_offset_lem s page h = rw (le→leb ((s + 1) * slot_size) page_size h) refl

-- A field that was written over a page is read back.
unpack-splice :
    (k n offset : ℕ) (page : ByteString)
    → n < 256 ^ k
    → offset + k ≤ length page
    → unpack_from k (splice offset (le_bytes k n) page) offset ≡ ok n
unfolding drop
unpack-splice k n offset page h room =
    let l = length-le_bytes k n in
    let fits : offset + length (le_bytes k n) ≤ length page = omega (arith, l) in
    unpack_lem k n offset (splice offset (le_bytes k n) page) h
      (omega (arith, length-splice offset (le_bytes k n) page fits))
      (ap (λ (x : ℕ). take k (drop x (splice offset (le_bytes k n) page))) (omega arith)
        ∙ slice_inside offset 0 k (le_bytes k n) page (omega arith) (omega (arith, l))
        ∙ take_all k (le_bytes k n) (omega (arith, l)))

-- A page with a header written over its start.
unfoldable pub headed : ℕ → ℕ → ℕ → ByteString → ByteString
headed n c e page = splice 6 (le_bytes 2 e) (splice 4 (le_bytes 2 c) (splice 0 (le_bytes 4 n) page))

module _ (n c e : ℕ) (page : ByteString) (whole : length page ≡ page_size) where
  with_next_length : length (splice 0 (le_bytes 4 n) page) ≡ page_size
  with_next_length =
      length-splice 0 (le_bytes 4 n) page (omega (arith, length-le_bytes 4 n, whole)) ∙ whole

  with_count_length : length (splice 4 (le_bytes 2 c) (splice 0 (le_bytes 4 n) page)) ≡ page_size
  with_count_length =
      length-splice 4 (le_bytes 2 c) (splice 0 (le_bytes 4 n) page)
        (omega (arith, length-le_bytes 2 c, with_next_length))
      ∙ with_next_length

  pub length-headed : length (headed n c e page) ≡ page_size
  unfolding headed
  length-headed =
      length-splice 6 (le_bytes 2 e) (splice 4 (le_bytes 2 c) (splice 0 (le_bytes 4 n) page))
        (omega (arith, length-le_bytes 2 e, with_count_length))
      ∙ with_count_length

  pub write_header_lem :
      n < 256 ^ 4 → c < 256 ^ 2 → e < 256 ^ 2 → write_header n c e page ≡ ok (headed n c e page)
  unfolding write_header headed
  write_header_lem hn hc he =
      rw
        (
          pack_le_ok 4 n hn,
          pack_into_lem 0 (le_bytes 4 n) page (omega (arith, length-le_bytes 4 n, whole)),
          pack_le_ok 2 c hc,
          pack_into_lem 4 (le_bytes 2 c) (splice 0 (le_bytes 4 n) page)
              (omega (arith, length-le_bytes 2 c, with_next_length)),
          pack_le_ok 2 e he,
          pack_into_lem 6 (le_bytes 2 e) (splice 4 (le_bytes 2 c) (splice 0 (le_bytes 4 n) page))
              (omega (arith, length-le_bytes 2 e, with_count_length)),
        )
        refl

  pub read-headed :
      n < 256 ^ 4 → c < 256 ^ 2 → e < 256 ^ 2 → read_header (headed n c e page) ≡ ok (n, c, e)
  unfolding read_header headed
  read-headed hn hc he =
      let p1 = splice 0 (le_bytes 4 n) page in
      let p2 = splice 4 (le_bytes 2 c) p1 in
      let p3 = splice 6 (le_bytes 2 e) p2 in
      let l1 = with_next_length in
      let l2 = with_count_length in
      let l3 : length p3 ≡ page_size = length-headed in
      let s1 = splice-AreSame 0 4 6 (le_bytes 2 e) p1 p2 (omega (arith, l2)) (inl (omega arith)) (
        splice-AreSame 0 4 4 (le_bytes 2 c) p1 p1 (omega (arith, l1)) (inl (omega arith))
          (λ o k le end. refl)) in
      let s2 =
        splice-AreSame 4 6 6 (le_bytes 2 e) p2 p2 (omega (arith, l2)) (inl (omega arith))
          (λ o k le end. refl) in
      rw
        (
          ← unpack_same 4 0 p1 p3 (omega (arith, l1, l3)) (s1 0 4 (omega arith) (omega arith)),
          unpack-splice 4 n 0 page hn (omega (arith, whole)),
          ← unpack_same 2 4 p2 p3 (omega (arith, l2, l3)) (s2 4 2 (omega arith) (omega arith)),
          unpack-splice 2 c 4 p1 hc (omega (arith, l1)),
          unpack-splice 2 e 6 p2 he (omega (arith, l2)),
        )
        refl

  -- The header does not reach beyond 8 bytes.
  pub headed-AreSame :
      (lo hi : ℕ) (a : ByteString)
      → 8 ≤ lo
      → AreSame lo hi a page
      → AreSame lo hi a (headed n c e page)
  unfolding headed
  headed-AreSame lo hi a h same =
      let p1 = splice 0 (le_bytes 4 n) page in
      let p2 = splice 4 (le_bytes 2 c) p1 in
      splice-AreSame lo hi 6 (le_bytes 2 e) a p2 (omega (arith, with_count_length))
        (inr (omega (arith, length-le_bytes 2 e)))
        (splice-AreSame lo hi 4 (le_bytes 2 c) a p1 (omega (arith, with_next_length))
          (inr (omega (arith, length-le_bytes 2 c)))
          (splice-AreSame lo hi 0 (le_bytes 4 n) a page (omega (arith, whole))
            (inr (omega (arith, length-le_bytes 4 n))) same))
