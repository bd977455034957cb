-- ===== src/Tests/Pages.antt =====
-- The theorems on src/tinydb/storage/pager.py on a file of six pages of zeros.
use tinydb.Base.{
  ℕ, ◌≡◌, refl, false, [], ◌∷◌, arith, replicate, length-replicate, ◌==◌, if◌then◌else◌, ok,
}
use tinydb.Bytes.{ByteString}
use tinydb.Storage.Pager.{
  Pager, page_size, zero_page, no_free, read_page, write_page, allocate_page, free_page,
  read_header,
}
use tinydb.Storage.Pager.Header.{Fits, header_page, read-header_page}
use tinydb.Storage.Pager.Access.{IsValid, written, read-write_page}
use tinydb.Storage.Pager.FreeList.{Chain, free_page-Chain, allocate_page-Chain, double_free}

abbrev pub sample : Pager
sample = record {
  pages = replicate 6 zero_page;
  num_pages = 6;
  free_head = no_free;
  last_lsn = 0;
  closed = false;
}

abbrev pub fill : ℕ → ByteString
fill byte = replicate page_size byte

pub sample-Fits : Fits sample
sample-Fits = record { num_pages = omega arith; free_head = omega arith; last_lsn = omega arith }

pub sample-IsValid : IsValid sample
sample-IsValid = record {
  counted = length-replicate 6 zero_page;
  has_header = omega arith;
  fits = sample-Fits;
  is_open = refl;
}

read-write_page_example :
    ((write_page sample 4 (fill 7)).0 ≡ ok tt)
    × (read_page (write_page sample 4 (fill 7)).1 5
        ≡ (if 4 == 5 then ok (written sample 4 (fill 7)) else read_page sample 5))
    × IsValid (write_page sample 4 (fill 7)).1
read-write_page_example =
    read-write_page sample 4 5 (fill 7) sample-IsValid (length-replicate page_size 7) (omega arith)
      (omega arith)

read-header_page_example :
    read_header (header_page sample [] ∷ [])
    ≡ ok (record sample { pages = header_page sample [] ∷ []; closed = false })
read-header_page_example = read-header_page sample [] [] sample-Fits

free_page-Chain_example :
    ((free_page sample 5).0 ≡ ok tt)
    × IsValid (free_page sample 5).1
    × Chain (free_page sample 5).1.pages (free_page sample 5).1.free_head (5 ∷ [])
free_page-Chain_example =
    free_page-Chain sample 5 [] sample-IsValid refl (omega arith) (omega arith) tt

-- The sample with page 5 on the free list.
abbrev one_free : Pager
one_free = (free_page sample 5).1

one_free-Chain : IsValid one_free × Chain one_free.pages one_free.free_head (5 ∷ [])
one_free-Chain =
    let (_, valid, chain) =
      free_page-Chain sample 5 [] sample-IsValid refl (omega arith) (omega arith) tt in
    (valid, chain)

allocate_page-Chain_example :
    ((allocate_page one_free).0 ≡ ok 5)
    × (read_page (allocate_page one_free).1 5 ≡ ok zero_page)
    × Chain (allocate_page one_free).1.pages (allocate_page one_free).1.free_head []
allocate_page-Chain_example = allocate_page-Chain one_free 5 [] one_free-Chain.0 one_free-Chain.1

double_free_example :
    let p' = (free_page (free_page sample 5).1 5).1 in
    ((free_page (free_page sample 5).1 5).0 ≡ ok tt)
    × ((allocate_page p').0 ≡ ok 5)
    × ((allocate_page (allocate_page p').1).0 ≡ ok 5)
double_free_example = double_free sample 5 sample-IsValid (omega arith) (omega arith)
