-- ===== src/Storage/Pager/FreeList.antt =====
-- The free list of src/tinydb/storage/pager.py, as the list of pages that it threads.
use tinydb.Base.{
  ℕ, ◌+◌, ◌-◌, ◌^◌, ◌≤◌, ◌<◌, ◌≡◌, ◌≢◌, refl, ap, ◌∙◌, sym, subst, List, [], ◌∷◌, ◌++◌, arith,
  length, take, drop, get_or, replicate, ◌==◌, if◌then◌else◌, Result, ok, length-append,
  length-replicate, take-append, eq→==,
}
use tinydb.Bytes.{ByteString, le_bytes, le_value}
use tinydb.Bytes.Laws.{length-le_bytes, le_value-le_bytes, pack_le_ok}
use tinydb.Storage.Pager.{
  Pager, reserved_pages, no_free, zero_page, splice, write_at, read_page, allocate_page, free_page,
}
use tinydb.Storage.Pager.Pages.{
  get_elem?-write_at, length-write_at, get_elem?-append, get_elem?-replicate, get_or-some,
  get_elem?_in,
}
use tinydb.Storage.Pager.Header.{Fits}
use tinydb.Storage.Pager.Access.{IsValid, stamped, extended, write_header_lem, extend_to_lem}

-- The id that a free page holds of the next one.
abbrev pub next_of : ByteString → ℕ
next_of page = le_value (take 4 page)

abbrev pub Absent : ℕ → List ℕ → Type 0
Absent q [] = Unit
Absent q (x ∷ l) = (q ≢ x) × Absent q l

-- From `head` on the pages thread the list `l`, and end with the sentinel.
abbrev pub Chain : List ByteString → ℕ → List ℕ → Type 0
Chain pages head [] = head ≡ no_free
Chain pages head (q ∷ l) =
    (head ≡ q)
    × (reserved_pages ≤ q)
    × (q < length pages)
    × Absent q l
    × Chain pages (next_of (get_or pages q zero_page)) l

get_or-write_at :
    (i j : ℕ) (d : ByteString) (pages : List ByteString)
    → i < length pages
    → j < length pages
    → get_or (write_at i d pages) j zero_page ≡ (if i == j then d else get_or pages j zero_page)
get_or-write_at i j d pages h k =
    let (x, e) = get_elem?_in j pages k in
    ground (
      arith,
      get_elem?-write_at i j d pages h,
      get_or-some j zero_page d (write_at i d pages),
      get_or-some j zero_page x (write_at i d pages),
      get_or-some j zero_page x pages e,
      e,
    )

-- Writing a page that is not on the list leaves it.
Chain-write_at :
    (i head : ℕ) (d : ByteString) (pages : List ByteString) (l : List ℕ)
    → i < length pages
    → Absent i l
    → Chain pages head l
    → Chain (write_at i d pages) head l
Chain-write_at i head d pages [] h a c = c
Chain-write_at i head d pages (q ∷ l) h a (e, lo, hi, fresh, rest) =
    let same : get_or (write_at i d pages) q zero_page ≡ get_or pages q zero_page =
      get_or-write_at i q d pages h hi ∙ ground (arith, a.0) in
    (
      e,
      lo,
      omega (arith, length-write_at i d pages h),
      fresh,
      rw same (Chain-write_at i (next_of (get_or pages q zero_page)) d pages l h a.1 rest),
    )

-- The header page is never on the list.
header-Absent : (head : ℕ) (pages : List ByteString) (l : List ℕ) → Chain pages head l → Absent 0 l
header-Absent head pages [] c = tt
header-Absent head pages (q ∷ l) c =
    (omega arith, header-Absent (next_of (get_or pages q zero_page)) pages l c.4)

-- The page that `free_page` links in.
abbrev linked : Pager → ℕ → ByteString
linked p pid = splice 0 (le_bytes 4 p.free_head) (get_or p.pages pid zero_page)

next-linked : (p : Pager) (pid : ℕ) → p.free_head < 256 ^ 4 → next_of (linked p pid) ≡ p.free_head
unfolding splice take
next-linked p pid h =
    let b = le_bytes 4 p.free_head in
    rw
      (take-append 4 b (drop (0 + length b) (get_or p.pages pid zero_page))
        (sym (length-le_bytes 4 p.free_head)))
      (le_value-le_bytes 4 p.free_head h)

abbrev freed_pages : Pager → ℕ → Pager
freed_pages p pid = record p { pages = write_at pid (linked p pid) p.pages; free_head = pid }

abbrev freed : Pager → ℕ → Pager
freed p pid = record (freed_pages p pid) {
  pages = write_at 0 (stamped (freed_pages p pid)) (write_at pid (linked p pid) p.pages);
}

free_page_lem :
    (p : Pager) (pid : ℕ)
    → IsValid p
    → reserved_pages ≤ pid
    → pid < p.num_pages
    → free_page p pid ≡ (ok tt, freed p pid)
unfolding free_page
free_page_lem p pid h lo hi =
    let f : Fits (freed_pages p pid) = record {
      num_pages = h.fits.num_pages;
      free_head = omega (arith, h.fits.num_pages);
      last_lsn = h.fits.last_lsn;
    } in
    ground
      (arith, pack_le_ok 4 p.free_head h.fits.free_head, write_header_lem (freed_pages p pid) f)

freed-IsValid : (p : Pager) (pid : ℕ) → IsValid p → pid < p.num_pages → IsValid (freed p pid)
freed-IsValid p pid h hi =
    let lw = length-write_at pid (linked p pid) p.pages (omega (arith, h.counted)) in
    record {
      counted =
          length-write_at 0 (stamped (freed_pages p pid)) (write_at pid (linked p pid) p.pages)
            (omega (arith, lw, h.counted, h.has_header))
          ∙ lw
          ∙ h.counted;
      has_header = h.has_header;
      fits = record {
        num_pages = h.fits.num_pages;
        free_head = omega (arith, h.fits.num_pages);
        last_lsn = h.fits.last_lsn;
      };
      is_open = h.is_open;
    }

-- Freeing a page of the file that is not reserved and not on the free list, on a valid pager: it
-- returns, the pager stays valid, and the page is in front of the free list.
pub free_page-Chain :
    (p : Pager) (pid : ℕ) (l : List ℕ)
    → IsValid p
    → Chain p.pages p.free_head l
    → reserved_pages ≤ pid
    → pid < p.num_pages
    → Absent pid l
    → ((free_page p pid).0 ≡ ok tt)
      × IsValid (free_page p pid).1
      × Chain (free_page p pid).1.pages (free_page p pid).1.free_head (pid ∷ l)
free_page-Chain p pid l h c lo hi fresh =
    let d = linked p pid in
    let w = write_at pid d p.pages in
    let lt : pid < length p.pages = omega (arith, h.counted) in
    let lw = length-write_at pid d p.pages lt in
    let linked_in : Chain w pid (pid ∷ l) = (
      refl,
      lo,
      omega arith,
      fresh,
      rw
          (
            get_or-write_at pid pid d p.pages lt lt,
            eq→== pid pid refl,
            next-linked p pid h.fits.free_head,
          )
          (Chain-write_at pid p.free_head d p.pages l lt fresh c),
    ) in
    subst (λ x. (x.0 ≡ ok tt) × IsValid x.1 × Chain x.1.pages x.1.free_head (pid ∷ l))
      (sym (free_page_lem p pid h lo hi))
      (
        refl,
        freed-IsValid p pid h hi,
        Chain-write_at 0 pid (stamped (freed_pages p pid)) w (pid ∷ l) (omega arith)
            (header-Absent pid w (pid ∷ l) linked_in) linked_in,
      )

abbrev popped_pages : Pager → Pager
popped_pages p = record p {
  pages = write_at p.free_head zero_page p.pages;
  free_head = next_of (get_or p.pages p.free_head zero_page);
}

abbrev popped : Pager → Pager
popped p = record (popped_pages p) {
  pages = write_at 0 (stamped (popped_pages p)) (write_at p.free_head zero_page p.pages);
}

allocate_page_pop :
    (p : Pager)
    → IsValid p
    → p.free_head < p.num_pages
    → next_of (get_or p.pages p.free_head zero_page) < 256 ^ 4
    → allocate_page p ≡ (ok p.free_head, popped p)
unfolding allocate_page
allocate_page_pop p h hi fits =
    let (x, e) = get_elem?_in p.free_head p.pages (omega (arith, h.counted)) in
    let f : Fits (popped_pages p) = record {
      num_pages = h.fits.num_pages;
      free_head = fits;
      last_lsn = h.fits.last_lsn;
    } in
    ground (
      arith,
      e,
      h.fits.num_pages,
      get_or-some p.free_head zero_page x p.pages e,
      write_header_lem (popped_pages p) f,
    )

Chain-head_fits :
    (pages : List ByteString) (head : ℕ) (l : List ℕ)
    → length pages < 256 ^ 4
    → Chain pages head l
    → head < 256 ^ 4
Chain-head_fits pages head [] h c = omega arith
Chain-head_fits pages head (q ∷ l) h c = omega arith

-- What allocating the page `q` does, with `l` left on the list.
abbrev Hands : ℕ → List ℕ → Result ℕ × Pager → Type 0
Hands q l x = (x.0 ≡ ok q) × (read_page x.1 q ≡ ok zero_page) × Chain x.1.pages x.1.free_head l

pop_Hands :
    (p : Pager) (l : List ℕ)
    → IsValid p
    → Chain p.pages p.free_head (p.free_head ∷ l)
    → Hands p.free_head l (allocate_page p)
pop_Hands p l h (e, lo, hi, fresh, rest) =
    let q = p.free_head in
    let w = write_at q zero_page p.pages in
    let lw = length-write_at q zero_page p.pages hi in
    let s = stamped (popped_pages p) in
    let next = next_of (get_or p.pages q zero_page) in
    let kept = Chain-write_at q next zero_page p.pages l hi fresh rest in
    let fits = Chain-head_fits p.pages next l (omega (arith, h.counted, h.fits.num_pages)) rest in
    let run = allocate_page_pop p h (omega (arith, h.counted)) fits in
    subst (Hands q l) (sym run) (
      refl,
      unfold read_page in
          ground (
            arith,
            h.is_open,
            h.counted,
            get_elem?-write_at 0 q s w (omega arith),
            get_elem?-write_at q q zero_page p.pages hi,
          ),
      Chain-write_at 0 next s w l (omega arith) (header-Absent next w l kept) kept,
    )

-- Allocating on a valid pager with pages on the free list: it returns the first of them, which
-- then reads as zeros, and the free list is the rest.
pub allocate_page-Chain :
    (p : Pager) (q : ℕ) (l : List ℕ)
    → IsValid p
    → Chain p.pages p.free_head (q ∷ l)
    → ((allocate_page p).0 ≡ ok q)
      × (read_page (allocate_page p).1 q ≡ ok zero_page)
      × Chain (allocate_page p).1.pages (allocate_page p).1.free_head l
allocate_page-Chain p q l h c =
    subst (λ (x : ℕ). Chain p.pages p.free_head (x ∷ l) → Hands x l (allocate_page p)) c.0
      (pop_Hands p l h) c

popped-IsValid :
    (p : Pager)
    → IsValid p
    → p.free_head < p.num_pages
    → next_of (get_or p.pages p.free_head zero_page) < 256 ^ 4
    → IsValid (popped p)
popped-IsValid p h hi fits =
    let w = write_at p.free_head zero_page p.pages in
    let lw = length-write_at p.free_head zero_page p.pages (omega (arith, h.counted)) in
    record {
      counted =
          length-write_at 0 (stamped (popped_pages p)) w
            (omega (arith, lw, h.counted, h.has_header))
          ∙ lw
          ∙ h.counted;
      has_header = h.has_header;
      fits = record { num_pages = h.fits.num_pages; free_head = fits; last_lsn = h.fits.last_lsn };
      is_open = h.is_open;
    }

-- Allocating on a valid pager with an empty free list, within 32 bits: it returns the first page
-- behind the file, which is then one page longer, and that page reads as zeros.
pub allocate_page_extends :
    (p : Pager)
    → IsValid p
    → p.free_head ≡ no_free
    → p.num_pages + 1 < 256 ^ 4
    → ((allocate_page p).0 ≡ ok p.num_pages)
      × ((allocate_page p).1.num_pages ≡ p.num_pages + 1)
      × (read_page (allocate_page p).1 p.num_pages ≡ ok zero_page)
unfolding allocate_page read_page
allocate_page_extends p h e fits =
    let n = p.num_pages + 1 in
    let k = n - p.num_pages in
    let g = p.pages ++ replicate k zero_page in
    let s = stamped (extended p n) in
    let lg : length g ≡ n = omega (
      arith,
      h.counted,
      length-append p.pages (replicate k zero_page),
      length-replicate k zero_page,
    ) in
    let lw = length-write_at 0 s g (omega arith) in
    let run = extend_to_lem p n h (omega arith) fits in
    (
      ground (arith, run),
      ground (arith, run),
      ground (
        arith,
        run,
        h.has_header,
        get_elem?-write_at 0 p.num_pages s g (omega arith),
        get_elem?-append p.num_pages p.pages (replicate k zero_page),
        get_elem?-replicate (p.num_pages - length p.pages) k zero_page,
        h.counted,
      ),
    )

next-zero_page : next_of zero_page ≡ 0
unfolding zero_page replicate take le_value
next-zero_page = refl

-- On a valid pager a page of the file that is not reserved can be freed twice in a row, and then
-- two allocations in a row both return it.
pub double_free :
    (p : Pager) (pid : ℕ)
    → IsValid p
    → reserved_pages ≤ pid
    → pid < p.num_pages
    → let p' = (free_page (free_page p pid).1 pid).1 in
      ((free_page (free_page p pid).1 pid).0 ≡ ok tt)
      × ((allocate_page p').0 ≡ ok pid)
      × ((allocate_page (allocate_page p').1).0 ≡ ok pid)
double_free p pid h lo hi =
    let p1 = freed p pid in
    let p2 = freed p1 pid in
    let v1 = freed-IsValid p pid h hi in
    let v2 = freed-IsValid p1 pid v1 hi in
    let d = linked p1 pid in
    let lt : pid < length p1.pages = omega (arith, v1.counted) in
    let lw = length-write_at pid d p1.pages lt in
    let at : get_or p2.pages pid zero_page ≡ d =
      get_or-write_at 0 pid (stamped (freed_pages p1 pid)) (write_at pid d p1.pages) (omega arith)
        (omega arith)
      ∙ ground (arith, get_or-write_at pid pid d p1.pages lt lt) in
    let next : next_of (get_or p2.pages p2.free_head zero_page) ≡ pid =
      ap next_of at ∙ next-linked p1 pid (omega (arith, h.fits.num_pages)) in
    let a2 = allocate_page_pop p2 v2 hi (omega (arith, next, h.fits.num_pages)) in
    let p3 = popped p2 in
    let v3 = popped-IsValid p2 v2 hi (omega (arith, next, h.fits.num_pages)) in
    let lt2 : pid < length p2.pages = omega (arith, v2.counted) in
    let lw2 = length-write_at pid zero_page p2.pages lt2 in
    let zeroed : get_or p3.pages pid zero_page ≡ zero_page =
      get_or-write_at 0 pid (stamped (popped_pages p2)) (write_at pid zero_page p2.pages)
        (omega arith) (omega arith)
      ∙ ground (arith, get_or-write_at pid pid zero_page p2.pages lt2 lt2) in
    let last : next_of (get_or p3.pages p3.free_head zero_page) ≡ 0 =
      ap (λ (x : ℕ). next_of (get_or p3.pages x zero_page)) next
      ∙ ap next_of zeroed
      ∙ next-zero_page in
    let a3 = allocate_page_pop p3 v3 (omega (arith, next)) (omega (arith, last)) in
    rw (free_page_lem p pid h lo hi, free_page_lem p1 pid v1 lo hi, a2, a3) (refl, refl, ap ok next)
