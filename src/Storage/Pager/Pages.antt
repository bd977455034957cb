-- ===== src/Storage/Pager/Pages.antt =====
-- The pages of a file as the seeks and writes of src/tinydb/storage/pager.py leave them.
use mathlib.Core.List.{append-nil, append_assoc}
use tinydb.Base.{
  ℕ, zero, suc, ◌+◌, ◌-◌, ◌<◌, ◌≡◌, refl, ap, sym, some, List, [], ◌∷◌, ◌++◌, arith, length,
  get_elem?, get_or, replicate, ◌==◌, ltb, if◌then◌else◌, length-append,
}
use tinydb.Bytes.{ByteString}
use tinydb.Storage.Pager.{zero_page, write_at, write_zeros}

pub get_elem?-write_at :
    (i j : ℕ) (d : ByteString) (pages : List ByteString)
    → i < length pages
    → get_elem? (write_at i d pages) j ≡ (if i == j then some d else get_elem? pages j)
unfolding get_elem? write_at
get_elem?-write_at i j d [] h = absurd (omega arith)
get_elem?-write_at zero zero d (x ∷ pages) h = refl
get_elem?-write_at zero (suc j) d (x ∷ pages) h = ground arith
get_elem?-write_at (suc i) zero d (x ∷ pages) h = ground arith
get_elem?-write_at (suc i) (suc j) d (x ∷ pages) h =
    ground (arith, get_elem?-write_at i j d pages (omega arith))

pub length-write_at :
    (i : ℕ) (d : ByteString) (pages : List ByteString)
    → i < length pages
    → length (write_at i d pages) ≡ length pages
unfolding write_at
length-write_at i d [] h = absurd (omega arith)
length-write_at zero d (x ∷ pages) h = refl
length-write_at (suc i) d (x ∷ pages) h = ap suc (length-write_at i d pages (omega arith))

-- Writing right behind the last page appends.
write_at_end :
    (i : ℕ) (d : ByteString) (pages : List ByteString)
    → i ≡ length pages
    → write_at i d pages ≡ pages ++ (d ∷ [])
unfolding write_at
write_at_end zero d [] h = refl
write_at_end zero d (x ∷ pages) h = absurd (omega arith)
write_at_end (suc i) d [] h = absurd (omega arith)
write_at_end (suc i) d (x ∷ pages) h = ap (◌∷◌ x) (write_at_end i d pages (omega arith))

pub write_zeros_end :
    (count start : ℕ) (pages : List ByteString)
    → start ≡ length pages
    → write_zeros start count pages ≡ pages ++ replicate count zero_page
unfolding write_zeros replicate
write_zeros_end zero start pages h = sym (append-nil pages)
write_zeros_end (suc count) start pages h =
    rw
      (
        write_at_end start zero_page pages h,
        write_zeros_end count (start + 1) (pages ++ (zero_page ∷ []))
            (omega (arith, length-append pages (zero_page ∷ []))),
      )
      (append_assoc pages (zero_page ∷ []) (replicate count zero_page))

pub get_elem?-append :
    (i : ℕ) (pages more : List ByteString)
    → get_elem? (pages ++ more) i
      ≡ (if ltb i (length pages) then get_elem? pages i else get_elem? more (i - length pages))
unfolding get_elem?
get_elem?-append i [] more = let e : i - 0 ≡ i = omega arith in ground (arith, e)
get_elem?-append zero (x ∷ pages) more = ground arith
get_elem?-append (suc i) (x ∷ pages) more =
    let e : suc i - suc (length pages) ≡ i - length pages = omega arith in
    rw e (ground (arith, get_elem?-append i pages more))

pub get_elem?-replicate : (i n : ℕ) (d : ByteString) → i < n → get_elem? (replicate n d) i ≡ some d
unfolding get_elem? replicate
get_elem?-replicate i zero d h = absurd (omega arith)
get_elem?-replicate zero (suc n) d h = refl
get_elem?-replicate (suc i) (suc n) d h = get_elem?-replicate i n d (omega arith)

pub get_or-some :
    (i : ℕ) (d x : ByteString) (pages : List ByteString)
    → get_elem? pages i ≡ some x
    → get_or pages i d ≡ x
unfolding get_elem? get_or
get_or-some i d x [] h = cc
get_or-some zero d x (y ∷ pages) h = cc
get_or-some (suc i) d x (y ∷ pages) h = get_or-some i d x pages h

pub get_elem?_in :
    (i : ℕ) (pages : List ByteString)
    → i < length pages
    → (d : ByteString) × (get_elem? pages i ≡ some d)
unfolding get_elem?
get_elem?_in i [] h = absurd (omega arith)
get_elem?_in zero (x ∷ pages) h = (x, refl)
get_elem?_in (suc i) (x ∷ pages) h = get_elem?_in i pages (omega arith)
