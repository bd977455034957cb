-- ===== src/Storage/Pager/Access.antt =====
-- `read_page` and `write_page` of src/tinydb/storage/pager.py.
use tinydb.Base.{
  ℕ, ◌+◌, ◌-◌, ◌^◌, ◌≤◌, ◌<◌, ◌≡◌, refl, ◌∙◌, sym, false, some, List, ◌++◌, arith, length, drop,
  get_elem?, get_or, replicate, ◌==◌, ltb, if◌then◌else◌, ok, length-append, length-replicate,
  Bool-cases, inl, inr, lt→leb_false,
}
use tinydb.Bytes.{ByteString}
use tinydb.Storage.Pager.{
  Pager, page_size, zero_page, write_at, write_header, extend_to, read_page, put_page, write_page,
}
use tinydb.Storage.Pager.Pages.{
  get_elem?-write_at, length-write_at, write_zeros_end, get_elem?-append, get_elem?-replicate,
}
use tinydb.Storage.Pager.Header.{Fits, header_page, protect_header_lem}

-- An open pager whose file has the pages that the header counts, and the header page at least.
pub record IsValid (p : Pager) : Type 0 where
  pub counted : length p.pages ≡ p.num_pages
  pub has_header : 0 < p.num_pages
  pub fits : Fits p
  pub is_open : p.closed ≡ false

-- Page 0 after a header was written.
abbrev pub stamped : Pager → ByteString
stamped p = header_page p (drop 24 (get_or p.pages 0 zero_page))

pub write_header_lem :
    (p : Pager)
    → Fits p
    → write_header p ≡ (ok tt, record p { pages = write_at 0 (stamped p) p.pages })
unfolding write_header
write_header_lem p h = rw (protect_header_lem p (get_or p.pages 0 zero_page) h, write_header)

-- The pager after `extend_to` a greater count.
abbrev pub extended : Pager → ℕ → Pager
extended p n = record p { pages = p.pages ++ replicate (n - p.num_pages) zero_page; num_pages = n }

pub extend_to_lem :
    (p : Pager) (n : ℕ)
    → IsValid p
    → p.num_pages < n
    → n < 256 ^ 4
    → extend_to p n ≡ (
      ok tt,
      record (extended p n) { pages = write_at 0 (stamped (extended p n)) (extended p n).pages },
    )
unfolding extend_to
extend_to_lem p n h lt fits = rw (
  lt→leb_false n p.num_pages lt,
  write_zeros_end (n - p.num_pages) p.num_pages p.pages (sym h.counted),
  write_header_lem (extended p n)
      (record { num_pages = fits; free_head = h.fits.free_head; last_lsn = h.fits.last_lsn }),
)

-- What page 0 gets when it is written with `d`; other pages get `d`.
abbrev pub written : Pager → ℕ → ByteString → ByteString
written p pid d = if pid == 0 then header_page p (drop 24 d) else d

put_page_lem :
    (p : Pager) (pid : ℕ) (d : ByteString)
    → Fits p
    → put_page p pid d ≡ (ok tt, record p { pages = write_at pid (written p pid d) p.pages })
unfolding put_page
put_page_lem p pid d h = elim (Bool-cases (pid == 0)) [
  | inl z ↦ rw (z, protect_header_lem p d h, put_page)
  | inr z ↦ rw (z, put_page)
]

pub write_page_in :
    (p : Pager) (pid : ℕ) (d : ByteString)
    → IsValid p
    → length d ≡ page_size
    → pid < p.num_pages
    → write_page p pid d ≡ (ok tt, record p { pages = write_at pid (written p pid d) p.pages })
unfolding write_page
write_page_in p pid d h size lt = ground (arith, put_page_lem p pid d h.fits)

pub read_page-some :
    (p : Pager) (q : ℕ) (d : ByteString)
    → p.closed ≡ false
    → q < p.num_pages
    → get_elem? p.pages q ≡ some d
    → read_page p q ≡ ok d
unfolding read_page
read_page-some p q d o lt e = ground arith

-- Writing a whole page inside the file, on a valid pager: it returns, the page reads back, with
-- the header protected if it is page 0, every other page of the file reads as before, and the
-- pager stays valid.
pub read-write_page :
    (p : Pager) (pid q : ℕ) (d : ByteString)
    → IsValid p
    → length d ≡ page_size
    → pid < p.num_pages
    → q < p.num_pages
    → ((write_page p pid d).0 ≡ ok tt)
      × (read_page (write_page p pid d).1 q
          ≡ (if pid == q then ok (written p pid d) else read_page p q))
      × IsValid (write_page p pid d).1
read-write_page p pid q d h size lt ltq = rw (write_page_in p pid d h size lt) (
  refl,
  unfold read_page in
      ground (arith, get_elem?-write_at pid q (written p pid d) p.pages (omega (arith, h.counted))),
  record {
    counted = length-write_at pid (written p pid d) p.pages (omega (arith, h.counted)) ∙ h.counted;
    has_header = h.has_header;
    fits = record {
      num_pages = h.fits.num_pages;
      free_head = h.fits.free_head;
      last_lsn = h.fits.last_lsn;
    };
    is_open = h.is_open;
  },
)

-- Writing a whole page inside the file leaves the number of pages.
pub num_pages-write_page :
    (p : Pager) (pid : ℕ) (d : ByteString)
    → IsValid p
    → length d ≡ page_size
    → pid < p.num_pages
    → (write_page p pid d).1.num_pages ≡ p.num_pages
num_pages-write_page p pid d h size lt = rw (write_page_in p pid d h size lt)

-- The pages after a write behind the end of the file.
abbrev grown : Pager → ℕ → List ByteString
grown p n = p.pages ++ replicate (n - p.num_pages) zero_page

write_page_beyond :
    (p : Pager) (pid : ℕ) (d : ByteString)
    → IsValid p
    → length d ≡ page_size
    → p.num_pages ≤ pid
    → pid + 1 < 256 ^ 4
    → write_page p pid d ≡ (
      ok tt,
      record p {
        pages = write_at pid d (write_at 0 (stamped (extended p (pid + 1))) (grown p (pid + 1)));
        num_pages = pid + 1;
      },
    )
unfolding write_page
write_page_beyond p pid d h size le fits =
    let q = record (extended p (pid + 1)) {
      pages = write_at 0 (stamped (extended p (pid + 1))) (extended p (pid + 1)).pages;
    } in
    let f : Fits q = record {
      num_pages = fits;
      free_head = h.fits.free_head;
      last_lsn = h.fits.last_lsn;
    } in
    ground (arith, extend_to_lem p (pid + 1) h (omega arith) fits, put_page_lem q pid d f)

-- Writing a whole page behind the end of the file, on a valid pager and within 32 bits: it
-- returns, the file then ends with that page, the page reads back, the pages of the gap read as
-- zeros, and the pages from 1 on that were there read as before.
pub read-write_page_beyond :
    (p : Pager) (pid q : ℕ) (d : ByteString)
    → IsValid p
    → length d ≡ page_size
    → p.num_pages ≤ pid
    → pid + 1 < 256 ^ 4
    → 0 < q
    → q ≤ pid
    → ((write_page p pid d).0 ≡ ok tt)
      × ((write_page p pid d).1.num_pages ≡ pid + 1)
      × (read_page (write_page p pid d).1 q
          ≡ (if pid == q then ok d else if ltb q p.num_pages then read_page p q else ok zero_page))
read-write_page_beyond p pid q d h size le fits pos bound =
    let g = grown p (pid + 1) in
    let k = pid + 1 - p.num_pages in
    let s = stamped (extended p (pid + 1)) in
    let lg : length g ≡ pid + 1 = omega (
      arith,
      h.counted,
      length-append p.pages (replicate k zero_page),
      length-replicate k zero_page,
    ) in
    let lw = length-write_at 0 s g (omega arith) in
    rw (write_page_beyond p pid d h size le fits) (
      refl,
      refl,
      unfold read_page in
          ground (
            arith,
            get_elem?-write_at pid q d (write_at 0 s g) (omega arith),
            get_elem?-write_at 0 q s g (omega arith),
            get_elem?-append q p.pages (replicate k zero_page),
            get_elem?-replicate (q - length p.pages) k zero_page,
            h.counted,
          ),
    )
