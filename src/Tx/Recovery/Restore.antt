-- ===== src/Tx/Recovery/Restore.antt =====
-- What the REDO and UNDO loops of src/tinydb/tx/recovery.py leave on each page.
use tinydb.Base.{
  ℕ, ◌+◌, ◌<◌, ◌≡◌, refl, ◌∙◌, ap, false, Option, none, some, List, [], ◌∷◌, arith, length, ◌==◌,
  if◌then◌else◌, Result, ok, Bool-cases, inl, inr,
}
use tinydb.Base.Dict.{Dict, eq_nat, lookup, contains}
use tinydb.Bytes.{ByteString}
use tinydb.Storage.Pager.{Pager, page_size, read_page, write_page}
use tinydb.Storage.Pager.Access.{IsValid, read-write_page, num_pages-write_page}
use tinydb.Tx.Recovery.{Images, insert_item, sorted_items, redo_pages, undo_pages, restore}

-- No key twice.
abbrev pub Distinct : {V : Type 0} → Dict ℕ V → Type 0
Distinct [] = Unit
Distinct ((k, v) ∷ d) = (lookup k d ≡ none) × Distinct d

-- Whole pages, behind the header page and inside the file.
abbrev pub InFile : ℕ → List (ℕ × ByteString) → Type 0
InFile n [] = Unit
InFile n ((k, v) ∷ items) = (0 < k) × (k < n) × (length v ≡ page_size) × InFile n items

module _ {V : Type 0} where
  pub lookup-insert_item :
      (k q : ℕ) (v : V) (items : List (ℕ × V))
      → lookup k items ≡ none
      → lookup q (insert_item k v items) ≡ (if k == q then some v else lookup q items)
  unfolding lookup insert_item
  lookup-insert_item k q v [] h = refl
  lookup-insert_item k q v ((j, w) ∷ items) h = ground (arith, lookup-insert_item k q v items)

  insert_item-Distinct :
      (k : ℕ) (v : V) (items : List (ℕ × V))
      → lookup k items ≡ none
      → Distinct items
      → Distinct (insert_item k v items)
  unfolding lookup insert_item
  insert_item-Distinct k v [] h d = (refl, tt)
  insert_item-Distinct k v ((j, w) ∷ items) h d =
      ground (arith, insert_item-Distinct k v items, lookup-insert_item k j v items)

  pub lookup-sorted_items :
      (q : ℕ) (d : Dict ℕ V) → Distinct d → lookup q (sorted_items d) ≡ lookup q d
  unfolding lookup sorted_items
  lookup-sorted_items q [] h = refl
  lookup-sorted_items q ((k, v) ∷ d) h =
      lookup-insert_item k q v (sorted_items d) (lookup-sorted_items k d h.1 ∙ h.0)
      ∙ ap (λ (o : Option V). if k == q then some v else o) (lookup-sorted_items q d h.1)

  pub sorted_items-Distinct : (d : Dict ℕ V) → Distinct d → Distinct (sorted_items d)
  unfolding sorted_items
  sorted_items-Distinct [] h = tt
  sorted_items-Distinct ((k, v) ∷ d) h =
      insert_item-Distinct k v (sorted_items d) (lookup-sorted_items k d h.1 ∙ h.0)
        (sorted_items-Distinct d h.1)

insert_item-InFile :
    (n k : ℕ) (v : ByteString) (items : List (ℕ × ByteString))
    → (0 < k) × (k < n) × (length v ≡ page_size)
    → InFile n items
    → InFile n (insert_item k v items)
unfolding insert_item
insert_item-InFile n k v [] h f = (h.0, h.1, h.2, tt)
insert_item-InFile n k v ((j, w) ∷ items) h f = ground (arith, insert_item-InFile n k v items h f.3)

sorted_items-InFile : (n : ℕ) (d : Dict ℕ ByteString) → InFile n d → InFile n (sorted_items d)
unfolding sorted_items
sorted_items-InFile n [] h = tt
sorted_items-InFile n ((k, v) ∷ d) h =
    insert_item-InFile n k v (sorted_items d) (h.0, h.1, h.2) (sorted_items-InFile n d h.3)

-- What a page reads as: the item's image, if there is one.
abbrev pub image_or : Option ByteString → Result ByteString → Result ByteString
image_or none r = r
image_or (some d) r = ok d

-- The loop ended well on `q`, and left this on page `pid`.
pub record Leaves (p p' : Pager) (r : Result ℕ) (image : Option ByteString) (pid : ℕ) : Type 0 where
  pub valid : IsValid p'
  pub size : p'.num_pages ≡ p.num_pages
  pub done : (n : ℕ) × (r ≡ ok n)
  pub page : read_page p' pid ≡ image_or image (read_page p pid)

redo-Leaves :
    (items : List (ℕ × ByteString)) (n pid : ℕ) (p : Pager)
    → IsValid p
    → InFile p.num_pages items
    → Distinct items
    → pid < p.num_pages
    → Leaves p (redo_pages items n p).1 (redo_pages items n p).0 (lookup pid items) pid
unfolding redo_pages lookup
redo-Leaves [] n pid p v f d lt = record { valid = v; size = refl; done = (n, refl); page = refl }
redo-Leaves ((k, x) ∷ items) n pid p v f d lt =
    let (wrote, reads, valid) = read-write_page p k pid x v f.2 f.1 lt in
    let p' = (write_page p k x).1 in
    let same = num_pages-write_page p k x v f.2 f.1 in
    let ih = redo-Leaves items (n + 1) pid p' valid (rw same f.3) d.1 (rw same lt) in
    rw (wrote, redo_pages)
      (record {
        valid = ih.valid;
        size = ih.size ∙ same;
        done = ih.done;
        page = ih.page ∙ ground (arith, reads, d.0, f.0);
      })

undo-Leaves :
    (redone : Dict ℕ ByteString) (items : List (ℕ × ByteString)) (n pid : ℕ) (p : Pager)
    → IsValid p
    → InFile p.num_pages items
    → Distinct items
    → pid < p.num_pages
    → Leaves p
        (undo_pages redone items n p).1
        (undo_pages redone items n p).0
        (if contains pid redone then none else lookup pid items)
        pid
unfolding undo_pages lookup
undo-Leaves redone [] n pid p v f d lt = record {
  valid = v;
  size = refl;
  done = (n, refl);
  page = ground arith;
}
undo-Leaves redone ((k, x) ∷ items) n pid p v f d lt = elim (Bool-cases (contains k redone)) [
  | inl skip ↦
      let ih = undo-Leaves redone items n pid p v f.3 d.1 lt in
      rw (skip, undo_pages)
        (record {
          valid = ih.valid;
          size = ih.size;
          done = ih.done;
          page = ih.page ∙ ground (arith, skip, d.0);
        })
  | inr write ↦
      let (wrote, reads, valid) = read-write_page p k pid x v f.2 f.1 lt in
      let p' = (write_page p k x).1 in
      let same = num_pages-write_page p k x v f.2 f.1 in
      let ih = undo-Leaves redone items (n + 1) pid p' valid (rw same f.3) d.1 (rw same lt) in
      rw (write, wrote, undo_pages)
        (record {
          valid = ih.valid;
          size = ih.size ∙ same;
          done = ih.done;
          page = ih.page ∙ ground (arith, reads, d.0, f.0, write);
        })
]

-- What recovery leaves on a page: the after-image of a committed write if there is one, or else the
-- before-image of another, or else what was there.
abbrev pub recovered : Images → ℕ → Option ByteString
recovered images pid =
    if contains pid images.committed_after
    then lookup pid images.committed_after
    else lookup pid images.unknown_before

-- The dictionaries name each page once, with whole pages inside the file.
pub record Restorable (images : Images) (n : ℕ) : Type 0 where
  pub after_distinct : Distinct images.committed_after
  pub after_in : InFile n images.committed_after
  pub before_distinct : Distinct images.unknown_before
  pub before_in : InFile n images.unknown_before

pub not_contained : (k : ℕ) (d : Dict ℕ ByteString) → contains k d ≡ false → lookup k d ≡ none
unfolding contains
not_contained k d h = ground arith

-- REDO and UNDO with images of whole pages inside the file, each page once in each table, on a
-- valid pager: they return the counts, a page of the file then reads as its committed
-- after-image, or without one as its before-image, or without either as before, and the pager
-- stays valid with as many pages.
pub restore_lem :
    (images : Images) (p : Pager) (pid : ℕ)
    → IsValid p
    → Restorable images p.num_pages
    → pid < p.num_pages
    → let (r, p') = restore images p in
      ((counts : ℕ × ℕ) × (r ≡ ok counts))
      × (read_page p' pid ≡ image_or (recovered images pid) (read_page p pid))
      × IsValid p'
      × (p'.num_pages ≡ p.num_pages)
unfolding restore
restore_lem images p pid v h lt =
    let after = sorted_items images.committed_after in
    let before = sorted_items images.unknown_before in
    let redo =
      redo-Leaves after 0 pid p v
        (sorted_items-InFile p.num_pages images.committed_after h.after_in)
        (sorted_items-Distinct images.committed_after h.after_distinct) lt in
    let p' = (redo_pages after 0 p).1 in
    let undo =
      undo-Leaves images.committed_after before 0 pid p' redo.valid
        (rw redo.size (sorted_items-InFile p.num_pages images.unknown_before h.before_in))
        (sorted_items-Distinct images.unknown_before h.before_distinct) (rw redo.size lt) in
    let (n, redone) = redo.done in
    let (m, undone) = undo.done in
    rw (redone, undone, restore)
      (
        ((n, m), refl),
        undo.page
            ∙ ground (
              arith,
              redo.page,
              lookup-sorted_items pid images.committed_after h.after_distinct,
              lookup-sorted_items pid images.unknown_before h.before_distinct,
              not_contained pid images.committed_after,
            ),
        undo.valid,
        undo.size ∙ redo.size,
      )

-- Running REDO and UNDO again changes no page.
pub restore_idempotent :
    (images : Images) (p : Pager) (pid : ℕ)
    → IsValid p
    → Restorable images p.num_pages
    → pid < p.num_pages
    → read_page (restore images (restore images p).1).1 pid ≡ read_page (restore images p).1 pid
restore_idempotent images p pid v h lt =
    let (_, once, valid, size) = restore_lem images p pid v h lt in
    let (_, twice, _, _) =
      restore_lem images (restore images p).1 pid valid (rw size h) (rw size lt) in
    twice ∙ ground (arith, once)
