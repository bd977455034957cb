-- ===== src/Storage/Pager/Whole.antt =====
-- Files of whole pages of src/tinydb/storage/pager.py.
use tinydb.Base.{
  ℕ, zero, suc, ◌<◌, ◌≡◌, refl, ap, ◌∙◌, Bool, false, some, List, [], ◌∷◌, arith, ◌==◌,
  if◌then◌else◌, ok, length, get_elem?, drop, replicate, length-replicate,
}
use tinydb.Bytes.{ByteString}
use tinydb.Storage.Pager.{Pager, page_size, zero_page, read_page, write_page, write_at}
use tinydb.Storage.Pager.Access.{IsValid, write_page_in, read_page-some}
use tinydb.Storage.Pager.Pages.{get_elem?_in, length-write_at}
use tinydb.Storage.Pager.Header.{header_page}

pub write_at-write_at :
    (i : ℕ) (a b : ByteString) (pages : List ByteString)
    → get_elem? pages i ≡ some b
    → write_at i b (write_at i a pages) ≡ pages
unfolding write_at get_elem?
write_at-write_at i a b [] h = absurd (cc)
write_at-write_at zero a b (x ∷ pages) h = ap (λ (y : ByteString). y ∷ pages) (cc)
write_at-write_at (suc i) a b (x ∷ pages) h =
    ap (λ (l : List ByteString). x ∷ l) (write_at-write_at i a b pages h)

-- Every page of the file is whole.
abbrev pub AreWhole : List ByteString → Type 0
AreWhole [] = Unit
AreWhole (x ∷ pages) = (length x ≡ page_size) × AreWhole pages

pub replicate-AreWhole : (n : ℕ) (d : ByteString) → length d ≡ page_size → AreWhole (replicate n d)
unfolding replicate
replicate-AreWhole zero d h = tt
replicate-AreWhole (suc n) d h = (h, replicate-AreWhole n d h)

pub length-zero_page : length zero_page ≡ page_size
unfolding zero_page
length-zero_page = length-replicate page_size 0

AreWhole-get_elem? :
    (pages : List ByteString) (i : ℕ) (d : ByteString)
    → AreWhole pages
    → get_elem? pages i ≡ some d
    → length d ≡ page_size
unfolding get_elem?
AreWhole-get_elem? [] i d a e = absurd (cc)
AreWhole-get_elem? (x ∷ pages) zero d a e = let f : x ≡ d = cc in rw (← f) a.0
AreWhole-get_elem? (x ∷ pages) (suc i) d a e = AreWhole-get_elem? pages i d a.1 e

-- A page of a file of whole pages.
pub read_page-AreWhole :
    (p : Pager) (pid : ℕ)
    → IsValid p
    → AreWhole p.pages
    → pid < p.num_pages
    → (d : ByteString) × (read_page p pid ≡ ok d)
      × (get_elem? p.pages pid ≡ some d)
      × (length d ≡ page_size)
read_page-AreWhole p pid v a lt =
    let (d, e) = get_elem?_in pid p.pages (omega (arith, v.counted)) in
    (d, read_page-some p pid d v.is_open lt e, e, AreWhole-get_elem? p.pages pid d a e)

pub write_at-AreWhole :
    (i : ℕ) (d : ByteString) (pages : List ByteString)
    → length d ≡ page_size
    → i < length pages
    → AreWhole pages
    → AreWhole (write_at i d pages)
unfolding write_at
write_at-AreWhole i d [] h lt a = absurd (omega arith)
write_at-AreWhole zero d (x ∷ pages) h lt a = (h, a.1)
write_at-AreWhole (suc i) d (x ∷ pages) h lt a =
    (a.0, write_at-AreWhole i d pages h (omega arith) a.1)

-- Writing a page other than the header page.
pub write_page_data :
    (p : Pager) (pid : ℕ) (d : ByteString)
    → IsValid p
    → 0 < pid
    → pid < p.num_pages
    → length d ≡ page_size
    → write_page p pid d ≡ (ok tt, record p { pages = write_at pid d p.pages })
write_page_data p pid d v pos lt h =
    let nz : (pid == 0) ≡ false = ground arith in
    write_page_in p pid d v h lt
    ∙ ap (λ (x : ByteString). (ok tt, record p { pages = write_at pid x p.pages }))
        (ap (λ (b : Bool). if b then header_page p (drop 24 d) else d) nz)

pub IsValid-write_at :
    (p : Pager) (pid : ℕ) (d : ByteString)
    → IsValid p
    → pid < p.num_pages
    → IsValid (record p { pages = write_at pid d p.pages })
IsValid-write_at p pid d v lt = record {
  counted = length-write_at pid d p.pages (omega (arith, v.counted)) ∙ v.counted;
  has_header = v.has_header;
  fits = record {
    num_pages = v.fits.num_pages;
    free_head = v.fits.free_head;
    last_lsn = v.fits.last_lsn;
  };
  is_open = v.is_open;
}

-- Writing a page and then its old bytes.
pub write_page_back :
    (p : Pager) (pid : ℕ) (new old : ByteString)
    → IsValid p
    → 0 < pid
    → pid < p.num_pages
    → length old ≡ page_size
    → get_elem? p.pages pid ≡ some old
    → write_page (record p { pages = write_at pid new p.pages }) pid old ≡ (ok tt, p)
write_page_back p pid new old v pos lt ho e =
    let q : Pager = record p { pages = write_at pid new p.pages } in
    write_page_data q pid old (IsValid-write_at p pid new v lt) pos lt ho
    ∙ rw (write_at-write_at pid new old p.pages e) refl
