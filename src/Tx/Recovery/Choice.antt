-- ===== src/Tx/Recovery/Choice.antt =====
-- Which images `replay` of src/tinydb/tx/recovery.py writes, from the touches of pages in the order of
-- the table and the states of the transactions.
use tinydb.Base.{
  ℕ, ◌<◌, ◌≡◌, refl, sym, ap, ◌∙◌, Bool, true, false, ◌||◌, ◌&&◌, not, Bool-cases, Option, none,
  some, [], ◌∷◌, arith, ◌==◌, if◌then◌else◌, inl, inr, ok,
}
use tinydb.Base.Dict.{
  Dict, eq_nat, eq_pair, lookup, contains, insert, setdefault, lookup-insert, lookup-setdefault,
}
use tinydb.Bytes.{ByteString}
use tinydb.Storage.Pager.{Pager, read_page}
use tinydb.Storage.Pager.Access.{IsValid}
use tinydb.Tx.Wal.{Wal}
use tinydb.Tx.Recovery.{
  PageTouch, TxState, committed, rolled_back, unknown, Analysis, Images, Stats, choose_image,
  choose_images, images_of, state_of, is_committed, analyse_log, replay,
}
use tinydb.Tx.Recovery.Restore.{InFile, recovered, image_or}
use tinydb.Tx.Recovery.Touches.{Touches, InPages, or_else, insert-InFile, setdefault-InFile}
use tinydb.Tx.Recovery.Outcome.{replay_restored}

-- The commit of a transaction is in the log.
abbrev has_commit : Option TxState → Bool
has_commit none = false
has_commit (some committed) = true
has_commit (some rolled_back) = false
has_commit (some unknown) = false

-- The writes of the id are there to stay: it is that of autocommits, or its transaction committed.
abbrev pub lasts : Dict ℕ TxState → ℕ → Bool
lasts states t = (t == 0) || has_commit (lookup t states)

-- The bytes after the last touch of a page by a transaction that lasts.
abbrev pub last_after : Dict ℕ TxState → ℕ → Touches → Option ByteString
last_after states pid [] = none
last_after states pid (((t, q), u) ∷ touches) =
    or_else (last_after states pid touches)
      (if q == pid && lasts states t then some u.after else none)

-- The bytes before the first touch of a page by a transaction that does not.
abbrev pub first_before : Dict ℕ TxState → ℕ → Touches → Option ByteString
first_before states pid [] = none
first_before states pid (((t, q), u) ∷ touches) =
    or_else (if q == pid && not (lasts states t) then some u.before else none)
      (first_before states pid touches)

choice :
    (states : Dict ℕ TxState) (t q : ℕ) (u : PageTouch) (images : Images)
    → choose_image states ((t, q), u) images ≡ (
        if lasts states t
        then record images { committed_after = insert q u.after images.committed_after }
        else record images { unknown_before = setdefault q u.before images.unknown_before })
unfolding choose_image state_of is_committed
choice states t q u images = ground arith

or_else_assoc : (a b o : Option ByteString) → or_else (or_else a b) o ≡ or_else a (or_else b o)
or_else_assoc none b o = refl
or_else_assoc (some x) b o = refl

-- The tables after the loop over the touches.
record Chosen (states : Dict ℕ TxState) (pid n : ℕ) (touches : Touches) (images final : Images)
    : Type 0 where
  after :
      lookup pid final.committed_after
      ≡ or_else (last_after states pid touches) (lookup pid images.committed_after)
  before :
      lookup pid final.unknown_before
      ≡ or_else (lookup pid images.unknown_before) (first_before states pid touches)
  after_in : InFile n final.committed_after
  before_in : InFile n final.unknown_before

or_else-none : (o : Option ByteString) → o ≡ or_else o none
or_else-none none = refl
or_else-none (some x) = refl

kept_after :
    (states : Dict ℕ TxState) (t q pid : ℕ) (u : PageTouch) (d : Dict ℕ ByteString)
    → lasts states t ≡ true
    → lookup pid (insert q u.after d)
      ≡ or_else (if q == pid && lasts states t then some u.after else none) (lookup pid d)
kept_after states t q pid u d y = ground (arith, lookup-insert q pid u.after d, y)

kept_before :
    (states : Dict ℕ TxState) (t q pid : ℕ) (u : PageTouch) (d : Dict ℕ ByteString)
    → lasts states t ≡ false
    → lookup pid (setdefault q u.before d)
      ≡ or_else (lookup pid d) (if q == pid && not (lasts states t) then some u.before else none)
unfolding contains
kept_before states t q pid u d y = elim (Bool-cases (q == pid)) [
  | inl b ↦
      let same : q ≡ pid = ground (arith, b) in
      rw (lookup-setdefault q pid u.before d, b, y, same) (ground arith)
  | inr b ↦ rw (lookup-setdefault q pid u.before d, b) (ground arith)
]

no_before : (b c : Bool) (x : ByteString) → c ≡ true → (if b && not c then some x else none) ≡ none
no_before b c x y = ground (arith, y)

no_after : (b c : Bool) (x : ByteString) → c ≡ false → (if b && c then some x else none) ≡ none
no_after b c x y = ground (arith, y)

-- The loop after a touch that lasts, and after one that does not.
module _ (states : Dict ℕ TxState) (pid n t q : ℕ) (u : PageTouch) (touches : Touches)
    (images final : Images) where
  lasting-Chosen :
      lasts states t ≡ true
      → Chosen states pid n touches
          (record images { committed_after = insert q u.after images.committed_after })
          final
      → Chosen states pid n (((t, q), u) ∷ touches) images final
  lasting-Chosen y r = record {
    after =
        r.after
        ∙ ap (or_else (last_after states pid touches))
            (kept_after states t q pid u images.committed_after y)
        ∙ sym (or_else_assoc (last_after states pid touches) _ _);
    before =
        r.before
        ∙ ap
            (λ (o : Option ByteString).
              or_else (lookup pid images.unknown_before)
                (or_else o (first_before states pid touches)))
            (sym (no_before (q == pid) (lasts states t) u.before y));
    after_in = r.after_in;
    before_in = r.before_in;
  }

  passing-Chosen :
      lasts states t ≡ false
      → Chosen states pid n touches
          (record images { unknown_before = setdefault q u.before images.unknown_before })
          final
      → Chosen states pid n (((t, q), u) ∷ touches) images final
  passing-Chosen y r = record {
    after =
        r.after
        ∙ ap (λ (o : Option ByteString). or_else o (lookup pid images.committed_after))
            (or_else-none (last_after states pid touches)
              ∙ ap (or_else (last_after states pid touches))
                  (sym (no_after (q == pid) (lasts states t) u.after y)));
    before =
        r.before
        ∙ ap (λ (o : Option ByteString). or_else o (first_before states pid touches))
            (kept_before states t q pid u images.unknown_before y)
        ∙ or_else_assoc (lookup pid images.unknown_before) _ _;
    after_in = r.after_in;
    before_in = r.before_in;
  }

choose_images-Chosen :
    (states : Dict ℕ TxState) (pid n : ℕ) (touches : Touches) (images : Images)
    → InPages n touches
    → InFile n images.committed_after
    → InFile n images.unknown_before
    → Chosen states pid n touches images (choose_images states touches images)
unfolding choose_images
choose_images-Chosen states pid n [] images i a b = record {
  after = refl;
  before = or_else-none (lookup pid images.unknown_before);
  after_in = a;
  before_in = b;
}
choose_images-Chosen states pid n (((t, q), u) ∷ touches) images i a b =
    elim (Bool-cases (lasts states t)) [
      | inl y ↦
          let im : Images = record images {
            committed_after = insert q u.after images.committed_after;
          } in
          let same : choose_image states ((t, q), u) images ≡ im =
            choice states t q u images ∙ rw y refl in
          rw same (
            lasting-Chosen states pid n t q u touches images _ y (
              choose_images-Chosen states pid n touches im i.4
                (insert-InFile n q u.after images.committed_after (i.0, i.1, i.3) a) b))
      | inr y ↦
          let im : Images = record images {
            unknown_before = setdefault q u.before images.unknown_before;
          } in
          let same : choose_image states ((t, q), u) images ≡ im =
            choice states t q u images ∙ rw y refl in
          rw same (
            passing-Chosen states pid n t q u touches images _ y (
              choose_images-Chosen states pid n touches im i.4 a
                (setdefault-InFile n q u.before images.unknown_before (i.0, i.1, i.2) b)))
    ]

recovered-or_else :
    (images : Images) (pid : ℕ)
    → recovered images pid
      ≡ or_else (lookup pid images.committed_after) (lookup pid images.unknown_before)
unfolding contains
recovered-or_else images pid = ground arith

module _ (zlib_crc32 : ByteString → ℕ) where
  -- Replaying a log whose analysis succeeds, with touches of pages inside the file, page 0 excepted,
  -- and whole images, on a valid pager: it returns. A page of the file then reads as the bytes
  -- after the last touch of it, in the order of the analysis' table, by an autocommit or by a
  -- transaction whose commit was found; without one as the bytes before the first touch of it; and
  -- without any as before. The pager stays valid with as many pages.
  pub replay_lem :
      (w : Wal) (a : Analysis) (p : Pager) (pid : ℕ)
      → IsValid p
      → analyse_log zlib_crc32 w ≡ ok a
      → InPages p.num_pages a.page_touches
      → pid < p.num_pages
      → ((s : Stats) × ((replay zlib_crc32 w p).0 ≡ ok s))
        × (read_page (replay zlib_crc32 w p).1 pid
            ≡ image_or
                (or_else
                  (last_after a.tx_state pid a.page_touches)
                  (first_before a.tx_state pid a.page_touches))
                (read_page p pid))
        × IsValid (replay zlib_crc32 w p).1
        × ((replay zlib_crc32 w p).1.num_pages ≡ p.num_pages)
  unfolding images_of lookup
  replay_lem w a p pid v e i lt =
      let c =
        choose_images-Chosen a.tx_state pid p.num_pages a.page_touches
          (record { committed_after = []; unknown_before = [] }) i tt tt in
      let (done, reads, valid, size) =
        replay_restored zlib_crc32 w a p pid v e c.after_in c.before_in lt in
      (
        done,
        reads
            ∙ ap (λ (o : Option ByteString). image_or o (read_page p pid))
                (recovered-or_else (images_of a) pid
                  ∙ ap (or_else (lookup pid (images_of a).committed_after)) c.before
                  ∙ ap
                      (λ (o : Option ByteString).
                        or_else o (first_before a.tx_state pid a.page_touches))
                      (c.after ∙ sym (or_else-none (last_after a.tx_state pid a.page_touches)))),
        valid,
        size,
      )
