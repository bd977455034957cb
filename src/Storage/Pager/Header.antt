-- ===== src/Storage/Pager/Header.antt =====
-- The header of src/tinydb/storage/pager.py, as bytes of page 0.
use mathlib.Core.List.{append_assoc}
use tinydb.Base.{
  ℕ, ◌+◌, ◌^◌, ◌<◌, ◌≡◌, refl, ap, sym, false, List, [], ◌∷◌, ◌++◌, arith, length, take, drop,
  get_or, ok, length-append, take-append, drop-append, drop-drop, drop-append_add,
}
use tinydb.Bytes.{ByteString, bytes_eq, le_bytes, le_value}
use tinydb.Bytes.Laws.{length-le_bytes, le_value-le_bytes, pack_le_ok}
use tinydb.Storage.Pager.{
  Pager, magic, version, stored_page_size, splice, protect_header, read_header,
}

-- The counters fit their places in the header.
pub record Fits (p : Pager) : Type 0 where
  pub num_pages : p.num_pages < 256 ^ 4
  pub free_head : p.free_head < 256 ^ 4
  pub last_lsn : p.last_lsn < 256 ^ 4

-- Page 0 with the fields of `p` in front of `rest`.
unfoldable pub header_page : Pager → ByteString → ByteString
header_page p rest =
    magic
    ++ (version
        ++ (stored_page_size
            ++ (le_bytes 4 p.num_pages
                ++ (le_bytes 4 p.free_head ++ (le_bytes 4 p.last_lsn ++ rest)))))

splice_step :
    (offset : ℕ) (pre part rest : ByteString)
    → offset ≡ length pre
    → splice offset part (pre ++ rest) ≡ (pre ++ part) ++ drop (length part) rest
unfolding splice
splice_step offset pre part rest h =
    rw
      (
        take-append offset pre rest h,
        drop-append_add (offset + length part) (length part) pre rest (omega arith),
      )
      (sym (append_assoc pre part (drop (length part) rest)))

splice_fields :
    (b c d buf : ByteString)
    → length b ≡ 4
    → length c ≡ 4
    → length d ≡ 4
    → splice 20 d (
        splice 16 c
          (splice 12 b (splice 10 stored_page_size (splice 8 version (splice 0 magic buf)))))
      ≡ magic ++ (version ++ (stored_page_size ++ (b ++ (c ++ (d ++ drop 24 buf)))))
splice_fields b c d buf hb hc hd =
    let m0 = [] ++ magic in
    let m1 = m0 ++ version in
    let m2 = m1 ++ stored_page_size in
    let m3 = m2 ++ b in
    let m4 = m3 ++ c in
    rw
      (
        splice_step 0 [] magic buf refl,
        splice_step 8 m0 version (drop 8 buf) refl,
        splice_step 10 m1 stored_page_size (drop 2 (drop 8 buf)) refl,
        splice_step 12 m2 b (drop 2 (drop 2 (drop 8 buf))) refl,
        splice_step 16 m3 c (drop (length b) (drop 2 (drop 2 (drop 8 buf))))
            (omega (arith, length-append m2 b)),
        splice_step 20 m4 d (drop (length c) (drop (length b) (drop 2 (drop 2 (drop 8 buf)))))
            (omega (arith, length-append m2 b, length-append m3 c)),
        hb,
        hc,
        hd,
      )
      (simp (append_assoc, drop-drop))

-- What the header protection leaves of a page that is written to page 0.
pub protect_header_lem :
    (p : Pager) (buf : ByteString)
    → Fits p
    → protect_header p buf ≡ ok (header_page p (drop 24 buf))
unfolding protect_header header_page
protect_header_lem p buf h =
    rw
      (
        pack_le_ok 4 p.num_pages h.num_pages,
        pack_le_ok 4 p.free_head h.free_head,
        pack_le_ok 4 p.last_lsn h.last_lsn,
      )
      (ap ok (
        splice_fields (le_bytes 4 p.num_pages) (le_bytes 4 p.free_head) (le_bytes 4 p.last_lsn) buf
          (length-le_bytes 4 p.num_pages) (length-le_bytes 4 p.free_head)
          (length-le_bytes 4 p.last_lsn)))

-- A header page whose fields fit 32 bits, at the start of any file, is read back as the fields
-- that it was made from.
pub read-header_page :
    (p : Pager) (rest : ByteString) (pages : List ByteString)
    → Fits p
    → read_header (header_page p rest ∷ pages)
      ≡ ok (record p { pages = header_page p rest ∷ pages; closed = false })
unfolding read_header header_page get_or drop take bytes_eq le_value
read-header_page p rest pages h =
    let n = le_bytes 4 p.num_pages in
    let f = le_bytes 4 p.free_head in
    let l = le_bytes 4 p.last_lsn in
    let ln = length-le_bytes 4 p.num_pages in
    let lf = length-le_bytes 4 p.free_head in
    let ll = length-le_bytes 4 p.last_lsn in
    rw (
      take-append 4 n (f ++ (l ++ rest)) (sym ln),
      drop-append 4 n (f ++ (l ++ rest)) (sym ln),
      drop-append_add 8 4 n (f ++ (l ++ rest)) (omega arith),
      take-append 4 f (l ++ rest) (sym lf),
      drop-append 4 f (l ++ rest) (sym lf),
      take-append 4 l rest (sym ll),
      le_value-le_bytes 4 p.num_pages h.num_pages,
      le_value-le_bytes 4 p.free_head h.free_head,
      le_value-le_bytes 4 p.last_lsn h.last_lsn,
    )
