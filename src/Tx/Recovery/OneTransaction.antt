-- ===== src/Tx/Recovery/OneTransaction.antt =====
-- `replay` of src/tinydb/tx/recovery.py on the log of one transaction: its begin, its page records
-- and, if it committed, its commit.
use mathlib.Core.List.{append-nil}
use tinydb.Base.{
  ℕ, suc, ◌+◌, ◌<◌, ◌^◌, ◌≡◌, refl, sym, ap, ◌∙◌, subst, true, false, none, some, Option, List, [],
  ◌∷◌, ◌++◌, arith, ok, get_elem?, if◌then◌else◌,
}
use tinydb.Base.Dict.{eq_nat, eq_pair, lookup, contains, insert, setdefault}
use tinydb.Bytes.{ByteString}
use tinydb.Storage.Pager.{Pager, read_page}
use tinydb.Storage.Pager.Access.{IsValid}
use tinydb.Tx.Wal.{WalRecord, Wal}
use tinydb.Tx.Wal.Log.{Represents}
use tinydb.Tx.Recovery.{
  PageTouch, Analysis, Images, Stats, start, analyse, analyse_record, unknown, committed, state_of,
  is_committed, images_of, replay,
}
use tinydb.Tx.Recovery.Record.{Fits, decode-payload_of}
use tinydb.Tx.Recovery.Restore.{Distinct, InFile, image_or, recovered}
use tinydb.Tx.Recovery.Outcome.{
  begin_record, commit_record, page_entry, unpack_tx_id_lem, analyse-Represents, replay_restored,
}
use tinydb.Tx.Recovery.Touches.{
  Touches, touch_all, Owned, InPages, after_or, before_or, or_else, choose_images_committed,
  choose_images_other,
}
use tinydb.Tx.Recovery.Traced.{
  Traced, last_write, touch_all_after, touch_all_before, touch_all_kept,
}

-- The page records of these touches, from an LSN on.
abbrev pub entries_of : ℕ → List PageTouch → List WalRecord
entries_of lsn [] = []
entries_of lsn (u ∷ us) = page_entry lsn u ∷ entries_of (suc lsn) us

-- The tables after a page record, and after several.
abbrev scanned : PageTouch → Analysis → Analysis
scanned u a = record a {
  records_scanned = a.records_scanned + 1;
  page_records = a.page_records + 1;
  page_touches = insert (u.tx_id, u.page_id) u a.page_touches;
  page_last_writer = insert u.page_id u a.page_last_writer;
}

abbrev scan : List PageTouch → Analysis → Analysis
scan [] a = a
scan (u ∷ us) a = scan us (scanned u a)

scan_state : (us : List PageTouch) (a : Analysis) → (scan us a).tx_state ≡ a.tx_state
scan_state [] a = refl
scan_state (u ∷ us) a = scan_state us (scanned u a)

scan_touches :
    (us : List PageTouch) (a : Analysis) → (scan us a).page_touches ≡ touch_all us a.page_touches
scan_touches [] a = refl
scan_touches (u ∷ us) a = scan_touches us (scanned u a)

analyse_record_page :
    (lsn : ℕ) (u : PageTouch) (a : Analysis)
    → Fits u
    → analyse_record a (page_entry lsn u) ≡ ok (scanned u a)
unfolding analyse_record
analyse_record_page lsn u a f = rw (decode-payload_of u f) refl

analyse_record_begin :
    (lsn t : ℕ) (a : Analysis)
    → t < 256 ^ 8
    → analyse_record a (begin_record lsn t)
      ≡ ok (record a {
        records_scanned = a.records_scanned + 1;
        tx_state = setdefault t unknown a.tx_state;
      })
unfolding analyse_record
analyse_record_begin lsn t a h = rw (unpack_tx_id_lem t h) refl

analyse_record_commit :
    (lsn t : ℕ) (a : Analysis)
    → t < 256 ^ 8
    → analyse_record a (commit_record lsn t)
      ≡ ok (record a {
        records_scanned = a.records_scanned + 1;
        tx_state = insert t committed a.tx_state;
      })
unfolding analyse_record
analyse_record_commit lsn t a h = rw (unpack_tx_id_lem t h) refl

analyse_entries :
    (t lsn : ℕ) (ws : List (ℕ × ByteString)) (us : List PageTouch) (pages : List ByteString)
    (rest : List WalRecord) (a : Analysis)
    → Traced t pages ws us
    → analyse (entries_of lsn us ++ rest) a ≡ analyse rest (scan us a)
unfolding analyse
analyse_entries t lsn ws [] pages rest a h = refl
analyse_entries t lsn [] (u ∷ us) pages rest a h = absurd h
analyse_entries t lsn ((p, x) ∷ ws) (u ∷ us) pages rest a h =
    rw (analyse_record_page lsn u a h.4)
      (analyse_entries t (suc lsn) ws us _ rest (scanned u a) h.5)

-- The tables after the begin.
abbrev opened : ℕ → Analysis
opened t = record start { records_scanned = 1; tx_state = (t, unknown) ∷ [] }

-- The tables after the transaction, unfinished and committed.
abbrev pub unfinished : ℕ → List PageTouch → Analysis
unfinished t us = scan us (opened t)

abbrev pub finished : ℕ → List PageTouch → Analysis
finished t us = record (unfinished t us) {
  records_scanned = (unfinished t us).records_scanned + 1;
  tx_state = insert t committed (unfinished t us).tx_state;
}

analyse_begin :
    (t lsn : ℕ) (rest : List WalRecord)
    → t < 256 ^ 8
    → analyse (begin_record lsn t ∷ rest) start ≡ analyse rest (opened t)
unfolding analyse setdefault contains lookup insert
analyse_begin t lsn rest h = rw (analyse_record_begin lsn t start h) refl

pub analyse-unfinished :
    (t : ℕ) (ws : List (ℕ × ByteString)) (us : List PageTouch) (pages : List ByteString)
    → t < 256 ^ 8
    → Traced t pages ws us
    → analyse (begin_record 1 t ∷ entries_of 2 us) start ≡ ok (unfinished t us)
unfolding analyse
analyse-unfinished t ws us pages h traced =
    analyse_begin t 1 (entries_of 2 us) h
    ∙ ap (λ (l : List WalRecord). analyse l (opened t)) (sym (append-nil (entries_of 2 us)))
    ∙ analyse_entries t 2 ws us pages [] (opened t) traced

pub analyse-finished :
    (t lsn : ℕ) (ws : List (ℕ × ByteString)) (us : List PageTouch) (pages : List ByteString)
    → t < 256 ^ 8
    → Traced t pages ws us
    → analyse (begin_record 1 t ∷ (entries_of 2 us ++ (commit_record lsn t ∷ []))) start
      ≡ ok (finished t us)
unfolding analyse
analyse-finished t lsn ws us pages h traced =
    analyse_begin t 1 (entries_of 2 us ++ (commit_record lsn t ∷ [])) h
    ∙ analyse_entries t 2 ws us pages (commit_record lsn t ∷ []) (opened t) traced
    ∙ rw (analyse_record_commit lsn t (unfinished t us) h) refl

committed_state :
    (t : ℕ) (us : List PageTouch) → is_committed (state_of (finished t us).tx_state t) ≡ true
unfolding is_committed state_of insert lookup
committed_state t us = rw (scan_state us (opened t)) (ground arith)

unknown_state :
    (t : ℕ) (us : List PageTouch) → is_committed (state_of (unfinished t us).tx_state t) ≡ false
unfolding is_committed state_of lookup
unknown_state t us = rw (scan_state us (opened t)) (ground arith)

table_kept :
    (t n : ℕ) (ws : List (ℕ × ByteString)) (us : List PageTouch) (pages : List ByteString)
    → Traced t pages ws us
    → InFile n ws
    → Owned t (unfinished t us).page_touches × InPages n (unfinished t us).page_touches
table_kept t n ws us pages traced f =
    rw (scan_touches us (opened t)) (touch_all_kept t n ws us pages [] traced f tt tt)

recovered_after :
    (images : Images) (pid : ℕ) (o : Option ByteString)
    → lookup pid images.committed_after ≡ o
    → images.unknown_before ≡ []
    → recovered images pid ≡ o
unfolding contains lookup
recovered_after images pid o e f = rw f (ground (arith, e))

recovered_before :
    (images : Images) (pid : ℕ) (o : Option ByteString)
    → images.committed_after ≡ []
    → lookup pid images.unknown_before ≡ o
    → recovered images pid ≡ o
unfolding contains lookup
recovered_before images pid o e f = rw e f

or_else-none : (o : Option ByteString) → or_else o none ≡ o
or_else-none none = refl
or_else-none (some x) = refl

images_finished :
    (t n pid : ℕ) (ws : List (ℕ × ByteString)) (us : List PageTouch) (pages : List ByteString)
    → Traced t pages ws us
    → InFile n ws
    → (recovered (images_of (finished t us)) pid ≡ last_write pid ws)
      × InFile n (images_of (finished t us)).committed_after
      × InFile n (images_of (finished t us)).unknown_before
unfolding images_of lookup
images_finished t n pid ws us pages traced f =
    let (o, i) = table_kept t n ws us pages traced f in
    let (found, same, within) =
      choose_images_committed (finished t us).tx_state t pid n (unfinished t us).page_touches
        (record { committed_after = []; unknown_before = [] }) (committed_state t us) o i tt in
    let last =
      ap (λ (d : Touches). after_or (lookup (t, pid) d) none) (scan_touches us (opened t))
      ∙ touch_all_after t pid ws us pages [] traced
      ∙ or_else-none (last_write pid ws) in
    (
      recovered_after (images_of (finished t us)) pid (last_write pid ws) (found ∙ last) same,
      within,
      subst (InFile n) (sym same) tt,
    )

images_unfinished :
    (t n pid : ℕ) (ws : List (ℕ × ByteString)) (us : List PageTouch) (pages : List ByteString)
    → 0 < t
    → Traced t pages ws us
    → InFile n ws
    → Distinct ws
    → (recovered (images_of (unfinished t us)) pid
        ≡ (if contains pid ws then get_elem? pages pid else none))
      × InFile n (images_of (unfinished t us)).committed_after
      × InFile n (images_of (unfinished t us)).unknown_before
unfolding images_of lookup
images_unfinished t n pid ws us pages pos traced f di =
    let (o, i) = table_kept t n ws us pages traced f in
    let (found, same, within) =
      choose_images_other (unfinished t us).tx_state t pid n (unfinished t us).page_touches
        (record { committed_after = []; unknown_before = [] }) pos (unknown_state t us) o i tt in
    let first =
      ap (λ (d : Touches). before_or (lookup (t, pid) d) none) (scan_touches us (opened t))
      ∙ touch_all_before t pid ws us pages [] traced di in
    (
      recovered_before (images_of (unfinished t us)) pid
          (if contains pid ws then get_elem? pages pid else none) same (found ∙ first),
      subst (InFile n) (sym same) tt,
      within,
    )

module _ (zlib_crc32 : ByteString → ℕ) where
  -- What a replay leaves on a page: the image, if there is one, or else what was there.
  pub record Recovers (w : Wal) (p : Pager) (pid : ℕ) (image : Option ByteString) : Type 0 where
    pub returns : (s : Stats) × ((replay zlib_crc32 w p).0 ≡ ok s)
    pub page : read_page (replay zlib_crc32 w p).1 pid ≡ image_or image (read_page p pid)

  pub finished-Recovers :
      (w : Wal) (p : Pager) (pid t lsn : ℕ) (ws : List (ℕ × ByteString)) (us : List PageTouch)
      (pages : List ByteString)
      → Represents zlib_crc32 w (begin_record 1 t ∷ (entries_of 2 us ++ (commit_record lsn t ∷ [])))
      → IsValid p
      → pid < p.num_pages
      → t < 256 ^ 8
      → Traced t pages ws us
      → InFile p.num_pages ws
      → Recovers w p pid (last_write pid ws)
  finished-Recovers w p pid t lsn ws us pages r v lt h traced f =
      let a = analyse-Represents zlib_crc32 w _ r ∙ analyse-finished t lsn ws us pages h traced in
      let (image, after, before) = images_finished t p.num_pages pid ws us pages traced f in
      let (done, reads, _, _) =
        replay_restored zlib_crc32 w (finished t us) p pid v a after before lt in
      record {
        returns = done;
        page = reads ∙ ap (λ (o : Option ByteString). image_or o (read_page p pid)) image;
      }

  pub unfinished-Recovers :
      (w : Wal) (p : Pager) (pid t : ℕ) (ws : List (ℕ × ByteString)) (us : List PageTouch)
      (pages : List ByteString)
      → Represents zlib_crc32 w (begin_record 1 t ∷ entries_of 2 us)
      → IsValid p
      → pid < p.num_pages
      → 0 < t
      → t < 256 ^ 8
      → Traced t pages ws us
      → InFile p.num_pages ws
      → Distinct ws
      → Recovers w p pid (if contains pid ws then get_elem? pages pid else none)
  unfinished-Recovers w p pid t ws us pages r v lt pos h traced f di =
      let a = analyse-Represents zlib_crc32 w _ r ∙ analyse-unfinished t ws us pages h traced in
      let (image, after, before) =
        images_unfinished t p.num_pages pid ws us pages pos traced f di in
      let (done, reads, _, _) =
        replay_restored zlib_crc32 w (unfinished t us) p pid v a after before lt in
      record {
        returns = done;
        page = reads ∙ ap (λ (o : Option ByteString). image_or o (read_page p pid)) image;
      }
