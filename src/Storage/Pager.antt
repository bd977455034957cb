-- ===== src/Storage/Pager.antt =====
-- src/tinydb/storage/pager.py. The file is a list of pages; page 0 has the header. A page id is a
-- natural number, so the tests for a negative one have no counterpart.
pub mod Pages
pub mod Header
pub mod Access
pub mod Whole
pub mod FreeList
use tinydb.Base.{
  ℕ, zero, suc, ◌+◌, ◌-◌, ◌*◌, ◌^◌, Bool, true, false, not, Option, none, some, List, [], ◌∷◌, ◌++◌,
  length, take, drop, get_or, get_elem?, replicate, ltb, leb, ◌==◌, if◌then◌else◌, Result, ok,
  raise, ◌>>=◌, value_error, index_error, runtime_error, os_error, struct_error,
}
use tinydb.Bytes.{ByteString, bytes_eq, le_bytes, le_value, pack_le}

abbrev pub page_size : ℕ
page_size = 4096

-- the pages that hold the header and the catalog
abbrev pub reserved_pages : ℕ
reserved_pages = 4

-- `_NO_FREE`
abbrev pub no_free : ℕ
no_free = 0xFFFF_FFFF

-- b"T1NYDB01"
abbrev pub magic : ByteString
magic = b'T' ∷ b'1' ∷ b'N' ∷ b'Y' ∷ b'D' ∷ b'B' ∷ b'0' ∷ b'1' ∷ []

-- `_HEADER_VERSION` and the page size, as the header stores them
abbrev pub version : ByteString
version = 1 ∷ 0 ∷ []

abbrev pub stored_page_size : ByteString
stored_page_size = 0 ∷ 16 ∷ []

-- A page of zeros.
unfoldable pub zero_page : ByteString
zero_page = replicate page_size 0

pub record Pager : Type 0 where
  pub pages : List ByteString
  pub num_pages : ℕ
  pub free_head : ℕ
  pub last_lsn : ℕ
  pub closed : Bool

-- `buf[offset : offset + len(part)] = part`, and `pack_into`
unfoldable pub splice : ℕ → ByteString → ByteString → ByteString
splice offset part buf = take offset buf ++ (part ++ drop (offset + length part) buf)

-- `seek` to a page and write it: a gap before it is filled with zeros.
unfoldable pub write_at : ℕ → ByteString → List ByteString → List ByteString
write_at zero data_ [] = data_ ∷ []
write_at zero data_ (page ∷ pages) = data_ ∷ pages
write_at (suc i) data_ [] = zero_page ∷ write_at i data_ []
write_at (suc i) data_ (page ∷ pages) = page ∷ write_at i data_ pages

-- `count` pages of zeros from page `start` on.
unfoldable pub write_zeros : ℕ → ℕ → List ByteString → List ByteString
write_zeros start zero pages = pages
write_zeros start (suc count) pages = write_zeros (start + 1) count (write_at start zero_page pages)

-- The header fields written over the start of page 0: `_protect_header`, and the middle of
-- `_write_header_unlocked`.
unfoldable pub protect_header : Pager → ByteString → Result ByteString
protect_header p buf = do
  num_pages ← pack_le 4 p.num_pages
  free_head ← pack_le 4 p.free_head
  last_lsn ← pack_le 4 p.last_lsn
  ok (
      splice 20 last_lsn (
        splice 16 free_head (
          splice 12 num_pages
            (splice 10 stored_page_size (splice 8 version (splice 0 magic buf))))))

-- `_write_header_unlocked`
unfoldable pub write_header : Pager → Result (Unit {0}) × Pager
write_header p = elim (protect_header p (get_or p.pages 0 zero_page)) [
  | ok buf ↦ (ok tt, record p { pages = write_at 0 buf p.pages })
  | raise e ↦ (raise e, p)
]

-- What follows a step that returned nothing.
abbrev pub returning {ℓ} : {A : Type ℓ} → A → Result (Unit {0}) × Pager → Result A × Pager
returning a (ok _, p) = (ok a, p)
returning a (raise e, p) = (raise e, p)

-- `_extend_to_unlocked`
unfoldable pub extend_to : Pager → ℕ → Result (Unit {0}) × Pager
extend_to p new_num_pages =
    if leb new_num_pages p.num_pages
    then (ok tt, p)
    else write_header (record p {
      pages = write_zeros p.num_pages (new_num_pages - p.num_pages) p.pages;
      num_pages = new_num_pages;
    })

unfoldable pub read_page : Pager → ℕ → Result ByteString
read_page p pid =
    if p.closed
    then raise runtime_error
    else if leb p.num_pages pid
    then raise index_error
    else elim (get_elem? p.pages pid) [ none ↦ raise os_error | some data_ ↦ ok data_ ]

-- The seek and the write that end `write_page`.
unfoldable pub put_page : Pager → ℕ → ByteString → Result (Unit {0}) × Pager
put_page p pid data_ = elim (if pid == 0 then protect_header p data_ else ok data_) [
  | ok out ↦ (ok tt, record p { pages = write_at pid out p.pages })
  | raise e ↦ (raise e, p)
]

-- `put_page` after `_extend_to_unlocked`, if that did not raise.
abbrev pub after_extend : ℕ → ByteString → Result (Unit {0}) × Pager → Result (Unit {0}) × Pager
after_extend pid data_ (ok _, p) = put_page p pid data_
after_extend pid data_ (raise e, p) = (raise e, p)

unfoldable pub write_page : Pager → ℕ → ByteString → Result (Unit {0}) × Pager
write_page p pid data_ =
    if p.closed
    then (raise runtime_error, p)
    else if not (length data_ == page_size)
    then (raise value_error, p)
    else if ltb pid p.num_pages
    then put_page p pid data_
    else after_extend pid data_ (extend_to p (pid + 1))

unfoldable pub allocate_page : Pager → Result ℕ × Pager
allocate_page p =
    if p.closed
    then (raise runtime_error, p)
    else if p.free_head == no_free
    then returning p.num_pages (extend_to p (p.num_pages + 1))
    else elim (get_elem? p.pages p.free_head) [
      | none ↦ (raise struct_error, p)
      | some page ↦ returning p.free_head (
          write_header (record p {
            pages = write_at p.free_head zero_page p.pages;
            free_head = le_value (take 4 page);
          }))
    ]

unfoldable pub free_page : Pager → ℕ → Result (Unit {0}) × Pager
free_page p pid =
    if p.closed
    then (raise runtime_error, p)
    else if ltb pid reserved_pages
    then (raise value_error, p)
    else if leb p.num_pages pid
    then (raise value_error, p)
    else elim (pack_le 4 p.free_head) [
      | raise e ↦ (raise e, p)
      | ok next ↦ write_header (record p {
        pages = write_at pid (splice 0 next (get_or p.pages pid zero_page)) p.pages;
        free_head = pid;
      })
    ]

unfoldable pub set_last_lsn : Pager → ℕ → Result (Unit {0}) × Pager
set_last_lsn p lsn =
    if p.closed
    then (raise runtime_error, p)
    else if ltb p.last_lsn lsn
    then write_header (record p { last_lsn = lsn })
    else (ok tt, p)

-- A header that cannot be written does not stop `close`.
unfoldable pub close : Pager → Pager
close p = if p.closed then p else record (write_header p).1 { closed = true }

-- `_read_header` on the pages of an existing file
unfoldable pub read_header : List ByteString → Result Pager
read_header pages =
    let header = get_or pages 0 zero_page in
    if not (bytes_eq (take 8 header) magic)
    then raise value_error
    else if not (le_value (take 2 (drop 8 header)) == 1)
    then raise value_error
    else if not (le_value (take 2 (drop 10 header)) == page_size)
    then raise value_error
    else ok (record {
      pages = pages;
      num_pages = le_value (take 4 (drop 12 header));
      free_head = le_value (take 4 (drop 16 header));
      last_lsn = le_value (take 4 (drop 20 header));
      closed = false;
    })

-- Zeros for the reserved pages behind a header that was written.
abbrev pub zero_reserved : Result (Unit {0}) × Pager → Result (Unit {0}) × Pager
zero_reserved (ok _, p) = (ok tt, record p { pages = write_zeros 1 3 p.pages })
zero_reserved (raise e, p) = (raise e, p)

-- `_init_new`
unfoldable pub init_new : Result (Unit {0}) × Pager
init_new = zero_reserved (
    write_header (record {
      pages = [];
      num_pages = reserved_pages;
      free_head = no_free;
      last_lsn = 0;
      closed = false;
    }))
