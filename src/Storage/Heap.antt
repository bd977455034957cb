-- ===== src/Storage/Heap.antt =====
-- src/tinydb/storage/heap.py: the slotted page. What `insert`, `read` and `delete` do with the bytes of a
-- page, and `read`, `delete` and the end of `insert` over a transaction manager's pager, whose
-- `log_page_write` is the heap's callback.
pub mod Slices
pub mod Fields
pub mod Slots
pub mod Records
pub mod Insert
pub mod Delete
pub mod Table
use tinydb.Base.{
  ℕ, zero, suc, ◌+◌, ◌-◌, ◌*◌, Option, none, some, List, [], ◌∷◌, ◌++◌, length, take, drop, ltb,
  leb, ◌==◌, ◌||◌, if◌then◌else◌, Result, ok, raise, ◌>>=◌, struct_error, ℤ, pos, negsuc,
}
use tinydb.Bytes.{ByteString, le_value, pack_le}
use tinydb.Storage.Pager.{page_size, splice, read_page}
use tinydb.Storage.FreeSpace.{FreeSpaceMap, update}
use tinydb.Tx.Manager.{TransactionManager}
use tinydb.Tx.Manager.Session.{write_page_logged}

-- `DATA_START`, `SLOT_SIZE` and `NO_NEXT`
abbrev pub data_start : ℕ
data_start = 12

abbrev pub slot_size : ℕ
slot_size = 6

abbrev pub no_next : ℕ
no_next = 0xFFFF_FFFF

pub record Rid : Type 0 where
  pub page_id : ℕ
  pub slot_id : ℕ

-- `struct.unpack_from` of one unsigned field of `k` bytes
unfoldable pub unpack_from : ℕ → ByteString → ℕ → Result ℕ
unpack_from k page offset =
    if ltb (length page) (offset + k)
    then raise struct_error
    else ok (le_value (take k (drop offset page)))

-- `struct.pack_into` of bytes that are packed
unfoldable pub pack_into : ℕ → ByteString → ByteString → Result ByteString
pack_into offset part page =
    if ltb (length page) (offset + length part)
    then raise struct_error
    else ok (splice offset part page)

-- `_read_header`: the next page, the count of slots and the end of the data.
unfoldable pub read_header : ByteString → Result (ℕ × ℕ × ℕ)
read_header page = do
  next_pid ← unpack_from 4 page 0
  slot_count ← unpack_from 2 page 4
  data_end ← unpack_from 2 page 6
  ok (next_pid, slot_count, data_end)

-- `_write_header`
unfoldable pub write_header : ℕ → ℕ → ℕ → ByteString → Result ByteString
write_header next_pid slot_count data_end page = do
  n ← pack_le 4 next_pid
  page1 ← pack_into 0 n page
  c ← pack_le 2 slot_count
  page2 ← pack_into 4 c page1
  e ← pack_le 2 data_end
  pack_into 6 e page2

-- `_slot_offset` as `struct` takes it: an offset below 0 counts from the end of the buffer.
unfoldable pub slot_offset : ℕ → ByteString → Result ℕ
slot_offset slot_id page =
    let used = (slot_id + 1) * slot_size in
    if leb used page_size
    then ok (page_size - used)
    else if ltb (length page) (used - page_size)
    then raise struct_error
    else ok (length page - (used - page_size))

-- `_read_slot`: the offset, the length and the flags of a record.
unfoldable pub read_slot : ByteString → ℕ → Result (ℕ × ℕ × ℕ)
read_slot page slot_id = do
  at ← slot_offset slot_id page
  rec_offset ← unpack_from 2 page at
  rec_length ← unpack_from 2 page (at + 2)
  flags ← unpack_from 1 page (at + 4)
  ok (rec_offset, rec_length, flags)

-- `_write_slot`
unfoldable pub write_slot : ℕ → ℕ → ℕ → ℕ → ByteString → Result ByteString
write_slot slot_id rec_offset rec_length flags page = do
  at ← slot_offset slot_id page
  o ← pack_le 2 rec_offset
  l ← pack_le 2 rec_length
  f ← pack_le 1 flags
  pack_into at (o ++ (l ++ f)) page

-- `_slots_start(slot_count) - data_end`
unfoldable pub free_space : ℕ → ℕ → ℤ
free_space slot_count data_end =
    let used = slot_count * slot_size + data_end in
    if leb used page_size then pos (page_size - used) else negsuc (used - page_size - 1)

-- What `insert` does with the bytes of the page that it chose: the page and the slot.
unfoldable pub add_record : ByteString → ByteString → Result (ByteString × ℕ)
add_record encoded page = do
  (next_pid, slot_count, data_end) ← read_header page
  page1 ← write_slot slot_count data_end (length encoded) 1 (splice data_end encoded page)
  page2 ← write_header next_pid (slot_count + 1) (data_end + length encoded) page1
  ok (page2, slot_count)

-- What `read` finds in a slot of a page.
unfoldable pub record_at : ℕ → ByteString → Result (Option ByteString)
record_at slot_id page = do
  (_, slot_count, _) ← read_header page
  (if leb slot_count slot_id then ok none else (do
    (rec_offset, rec_length, flags) ← read_slot page slot_id
    ok (
        if (flags == 0) || (rec_length == 0)
        then none
        else some (take rec_length (drop rec_offset page)))))

-- What `delete` does with the bytes of a page; `none` where it returns early.
unfoldable pub clear_slot : ℕ → ByteString → Result (Option ByteString)
clear_slot slot_id page = do
  (_, slot_count, _) ← read_header page
  (if leb slot_count slot_id
      then ok none
      else write_slot slot_id 0 0 0 page >>= λ cleared. ok (some cleared))

-- `_refresh_fsm`
unfoldable pub refresh_fsm : ByteString → ℕ → FreeSpaceMap → Result (ℤ × FreeSpaceMap)
refresh_fsm page pid fsm = do
  (_, slot_count, data_end) ← read_header page
  entries ← update pid (free_space slot_count data_end) fsm
  ok (free_space slot_count data_end, entries)

unfoldable pub read : TransactionManager → Rid → Result (Option ByteString)
read m rid = read_page m.pager rid.page_id >>= record_at rid.slot_id

module _ (zlib_crc32 : ByteString → ℕ) where
  -- `insert` on the page that it chose, from the read of that page to its write.
  unfoldable pub insert_at : TransactionManager → ℕ → ByteString → Result Rid × TransactionManager
  insert_at m pid encoded = elim (read_page m.pager pid >>= add_record encoded) [
    | raise e ↦ (raise e, m)
    | ok (page, slot) ↦
        let (r, m') = write_page_logged zlib_crc32 pid page m in
        ((r >>= λ _. ok (record { page_id = pid; slot_id = slot })), m')
  ]

  unfoldable pub delete : TransactionManager → Rid → Result (Unit {0}) × TransactionManager
  delete m rid = elim (read_page m.pager rid.page_id >>= clear_slot rid.slot_id) [
    | raise e ↦ (raise e, m)
    | ok none ↦ (ok tt, m)
    | ok (some page) ↦ write_page_logged zlib_crc32 rid.page_id page m
  ]
