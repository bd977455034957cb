-- ===== src/Tests/Records.antt =====
-- Adding and deleting records on a page.
use tinydb.Base.{
  ℕ, ◌≡◌, refl, none, some, [], ◌∷◌, ok, arith, length, length-replicate, inl, inr, get_elem?,
}
use tinydb.Bytes.{ByteString}
use tinydb.Storage.Pager.{page_size, zero_page, write_at}
use tinydb.Storage.Pager.Whole.{IsValid-write_at, write_at-AreWhole, replicate-AreWhole}
use tinydb.Storage.Pager.Pages.{get_elem?-write_at}
use tinydb.Storage.Heap.{no_next, Rid, read, insert_at, delete}
use tinydb.Storage.Heap.Fields.{headed, length-headed, read-headed}
use tinydb.Storage.Heap.Records.{IsSlotted}
use tinydb.Storage.Heap.Insert.{read-add_record}
use tinydb.Storage.Heap.Table.{IsAt, Holds, read-insert_at, read-delete}
use tinydb.Tx.Manager.{TransactionManager, current_id}
use tinydb.Tests.Pages.{sample, sample-IsValid}
use tinydb.Tests.Transactions.{checksum, running, empty-Represents}

length-zeros : length zero_page ≡ page_size
unfolding zero_page
length-zeros = length-replicate page_size 0

-- The page of a new heap.
abbrev empty_page : ByteString
empty_page = headed no_next 0 12 zero_page

empty_page-IsSlotted : IsSlotted empty_page no_next 0 12
empty_page-IsSlotted = record {
  whole = length-headed no_next 0 12 zero_page length-zeros;
  head = read-headed no_next 0 12 zero_page length-zeros (omega arith) (omega arith) (omega arith);
  next = omega arith;
  start = omega arith;
  room = omega arith;
  inside = λ s lt. absurd (omega (arith, lt));
}

abbrev hello : ByteString
hello = 104 ∷ 105 ∷ []

-- The page of a heap with one record.
abbrev full_page : ByteString
full_page = (read-add_record hello empty_page no_next 0 12 empty_page-IsSlotted (omega arith)).0

full_page-IsSlotted : IsSlotted full_page no_next 1 14
full_page-IsSlotted =
    (read-add_record hello empty_page no_next 0 12 empty_page-IsSlotted (omega arith)).2

-- A manager within a transaction, with a page of a heap as page 4.
abbrev with_page : ByteString → TransactionManager
with_page page = record running { pager = record sample { pages = write_at 4 page sample.pages } }

with_page-IsAt :
    (page : ByteString) (n c e : ℕ)
    → IsSlotted page n c e
    → IsAt checksum (with_page page) [] 4 n c e page
unfolding current_id get_elem? write_at
with_page-IsAt page n c e h = record {
  ready = record {
    pager = IsValid-write_at sample 4 page sample-IsValid (omega arith);
    whole =
        write_at-AreWhole 4 page sample.pages h.whole (omega (arith, sample-IsValid.counted))
          (replicate-AreWhole 6 zero_page length-zeros);
    log = empty-Represents;
    unlocked = refl;
    id = omega arith;
  };
  positive = omega arith;
  inside = omega arith;
  room = omega arith;
  at = get_elem?-write_at 4 4 page sample.pages (omega (arith, sample-IsValid.counted));
  slotted = h;
}

abbrev elsewhere : Rid
elsewhere = record { page_id = 5; slot_id = 0 }

read-insert_at_example :
    let (r, m') = insert_at checksum (with_page full_page) 4 hello in
    (r ≡ ok (record { page_id = 4; slot_id = 1 }))
    × (read m' (record { page_id = 4; slot_id = 1 }) ≡ ok (some hello))
    × (read m' (record { page_id = 4; slot_id = 0 })
        ≡ read (with_page full_page) (record { page_id = 4; slot_id = 0 }))
    × Holds checksum m' 4 no_next 2 16
read-insert_at_example =
    read-insert_at checksum (with_page full_page) [] 4 no_next 1 14 full_page hello
      (record { page_id = 4; slot_id = 0 })
      (with_page-IsAt full_page no_next 1 14 full_page-IsSlotted) (omega arith) (inr (omega arith))

read-delete_example :
    let (r, m') = delete checksum (with_page full_page) (record { page_id = 4; slot_id = 0 }) in
    (r ≡ ok tt)
    × (read m' (record { page_id = 4; slot_id = 0 }) ≡ ok none)
    × (read m' elsewhere ≡ read (with_page full_page) elsewhere)
    × Holds checksum m' 4 no_next 1 14
read-delete_example =
    read-delete checksum (with_page full_page) [] 4 no_next 1 14 0 full_page elsewhere
      (with_page-IsAt full_page no_next 1 14 full_page-IsSlotted) (omega arith)
      (inl (λ x. omega (arith, x)))
