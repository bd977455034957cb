-- ===== src/Tx/Recovery/Outcome.antt =====
-- The log of a database through src/tinydb/tx/recovery.py: what replay leaves on the pages.
use tinydb.Base.{
  ℕ, ◌^◌, ◌<◌, ◌≡◌, refl, ◌∙◌, List, [], ◌∷◌, arith, length, Result, ok, raise, ◌>>=◌, eq→==,
}
use tinydb.Base.Dict.{Dict, eq_nat, eq_pair, lookup, contains, insert, setdefault, lookup-insert}
use tinydb.Bytes.{ByteString, be_bytes}
use tinydb.Bytes.Laws.{length-be_bytes, be_value-be_bytes}
use tinydb.Storage.Pager.{Pager, read_page}
use tinydb.Storage.Pager.Access.{IsValid}
use tinydb.Tx.Wal.{WalRecord, Wal, rt_begin, rt_commit, rt_page}
use tinydb.Tx.Wal.Log.{Represents}
use tinydb.Tx.Wal.Durability.{iter_from-Represents, from_lsn_all}
use tinydb.Tx.Recovery.{
  PageTouch, Analysis, TxState, unknown, Images, start, analyse_record, analyse, analyse_log,
  check_ending, choose_image, choose_images, images_of, state_of, is_committed, unpack_tx_id,
  replay, Stats,
}
use tinydb.Tx.Wal.Frames.{Fits as FitsFrame}
use tinydb.Tx.Recovery.Record.{Fits, payload_of, length-payload_of, decode-payload_of}
use tinydb.Tx.Recovery.Restore.{Distinct, InFile, Restorable, recovered, image_or, restore_lem}

insert-Distinct :
    (k : ℕ) (v : ByteString) (d : Dict ℕ ByteString) → Distinct d → Distinct (insert k v d)
unfolding insert lookup
insert-Distinct k v [] h = (refl, tt)
insert-Distinct k v ((j, w) ∷ d) h =
    ground (arith, insert-Distinct k v d h.1, lookup-insert k j v d, h.0)

setdefault-Distinct :
    (k : ℕ) (v : ByteString) (d : Dict ℕ ByteString) → Distinct d → Distinct (setdefault k v d)
unfolding setdefault
setdefault-Distinct k v d h = ground (arith, insert-Distinct k v d h)

choose_image-Distinct :
    (states : Dict ℕ TxState) (item : (ℕ × ℕ) × PageTouch) (images : Images)
    → Distinct images.committed_after
    → Distinct images.unknown_before
    → Distinct (choose_image states item images).committed_after
      × Distinct (choose_image states item images).unknown_before
unfolding choose_image
choose_image-Distinct states ((t, p), touch) images a b = ground (
  arith,
  insert-Distinct p touch.after images.committed_after a,
  setdefault-Distinct p touch.before images.unknown_before b,
)

choose_images-Distinct :
    (states : Dict ℕ TxState) (touches : List ((ℕ × ℕ) × PageTouch)) (images : Images)
    → Distinct images.committed_after
    → Distinct images.unknown_before
    → Distinct (choose_images states touches images).committed_after
      × Distinct (choose_images states touches images).unknown_before
unfolding choose_images
choose_images-Distinct states [] images a b = (a, b)
choose_images-Distinct states (item ∷ rest) images a b =
    let (a', b') = choose_image-Distinct states item images a b in
    choose_images-Distinct states rest (choose_image states item images) a' b'

images_of-Restorable :
    (a : Analysis) (n : ℕ)
    → InFile n (images_of a).committed_after
    → InFile n (images_of a).unknown_before
    → Restorable (images_of a) n
unfolding images_of
images_of-Restorable a n ia ib =
    let (da, db) =
      choose_images-Distinct a.tx_state a.page_touches
        (record { committed_after = []; unknown_before = [] }) tt tt in
    record { after_distinct = da; after_in = ia; before_distinct = db; before_in = ib }

bind_ok {ℓ} : {A : Type ℓ} (m : Result A) → (m >>= λ a. ok a) ≡ m
bind_ok (ok a) = refl
bind_ok (raise e) = refl

module _ (zlib_crc32 : ByteString → ℕ) where
  -- Replaying a log whose analysis succeeds and gives images of pages inside the file, page 0
  -- excepted, on a valid pager: it returns, a page of the file then reads as the image that was chosen
  -- for it, or without one as before, and the pager stays valid with as many pages.
  pub replay_restored :
      (w : Wal) (a : Analysis) (p : Pager) (pid : ℕ)
      → IsValid p
      → analyse_log zlib_crc32 w ≡ ok a
      → InFile p.num_pages (images_of a).committed_after
      → InFile p.num_pages (images_of a).unknown_before
      → pid < p.num_pages
      → ((s : Stats) × ((replay zlib_crc32 w p).0 ≡ ok s))
        × (read_page (replay zlib_crc32 w p).1 pid
            ≡ image_or (recovered (images_of a) pid) (read_page p pid))
        × IsValid (replay zlib_crc32 w p).1
        × ((replay zlib_crc32 w p).1.num_pages ≡ p.num_pages)
  unfolding replay
  replay_restored w a p pid v e ia ib lt =
      let (counts, reads, valid, size) =
        restore_lem (images_of a) p pid v (images_of-Restorable a p.num_pages ia ib) lt in
      rw (e, counts.1, replay) ((_, refl), reads, valid, size)

  -- Under the conditions of a replay that returns (a valid pager, an analysis that succeeds with
  -- images of pages inside the file, page 0 excepted), replaying twice leaves every page of the
  -- file as replaying once.
  pub replay_idempotent :
      (w : Wal) (a : Analysis) (p : Pager) (pid : ℕ)
      → IsValid p
      → analyse_log zlib_crc32 w ≡ ok a
      → InFile p.num_pages (images_of a).committed_after
      → InFile p.num_pages (images_of a).unknown_before
      → pid < p.num_pages
      → read_page (replay zlib_crc32 w (replay zlib_crc32 w p).1).1 pid
        ≡ read_page (replay zlib_crc32 w p).1 pid
  replay_idempotent w a p pid v e ia ib lt =
      let p' = (replay zlib_crc32 w p).1 in
      let (_, once, valid, size) = replay_restored w a p pid v e ia ib lt in
      let (_, twice, _, _) =
        replay_restored w a p' pid valid e (rw size ia) (rw size ib) (rw size lt) in
      twice ∙ ground (arith, once)

  -- The analysis of a log that stands for these records.
  pub analyse-Represents :
      (w : Wal) (rs : List WalRecord)
      → Represents zlib_crc32 w rs
      → analyse_log zlib_crc32 w ≡ analyse rs start
  unfolding analyse_log check_ending
  analyse-Represents w rs h =
      rw (iter_from-Represents zlib_crc32 w rs 1 h, from_lsn_all 1 1 rs h.numbered (omega arith))
        (bind_ok (analyse rs start))

abbrev pub begin_record : ℕ → ℕ → WalRecord
begin_record lsn t = record { lsn = lsn; type = rt_begin; payload = be_bytes 8 t }

abbrev pub commit_record : ℕ → ℕ → WalRecord
commit_record lsn t = record { lsn = lsn; type = rt_commit; payload = be_bytes 8 t }

abbrev pub page_entry : ℕ → PageTouch → WalRecord
page_entry lsn u = record { lsn = lsn; type = rt_page; payload = payload_of u }

pub unpack_tx_id_lem : (t : ℕ) → t < 256 ^ 8 → unpack_tx_id (be_bytes 8 t) ≡ ok t
unfolding unpack_tx_id
unpack_tx_id_lem t h =
    rw (eq→== (length (be_bytes 8 t)) 8 (length-be_bytes 8 t), be_value-be_bytes 8 t h)

-- The tables after one transaction that wrote a page twice and did not end.
abbrev pub twice : ℕ → PageTouch → PageTouch → Analysis
twice t u v = record {
  records_scanned = 3;
  page_records = 2;
  page_touches = insert (v.tx_id, v.page_id) v (((u.tx_id, u.page_id), u) ∷ []);
  page_last_writer = insert v.page_id v ((u.page_id, u) ∷ []);
  tx_state = (t, unknown) ∷ [];
}

pub analyse-twice :
    (t : ℕ) (u v : PageTouch)
    → t < 256 ^ 8
    → Fits u
    → Fits v
    → analyse (begin_record 1 t ∷ page_entry 2 u ∷ page_entry 3 v ∷ []) start ≡ ok (twice t u v)
unfolding analyse analyse_record setdefault contains insert lookup
analyse-twice t u v ht hu hv =
    rw (unpack_tx_id_lem t ht, decode-payload_of u hu, decode-payload_of v hv)

pub images_of-twice :
    (t pid : ℕ) (u v : PageTouch)
    → 0 < t
    → u.tx_id ≡ t
    → v.tx_id ≡ t
    → u.page_id ≡ pid
    → v.page_id ≡ pid
    → images_of (twice t u v)
      ≡ record { committed_after = []; unknown_before = (pid, v.before) ∷ [] }
unfolding images_of choose_images choose_image setdefault contains insert lookup state_of
    is_committed
images_of-twice t pid u v pos a b c d = ground arith

pub entry_Fits : (lsn : ℕ) (u : PageTouch) → lsn < 256 ^ 8 → Fits u → FitsFrame (page_entry lsn u)
entry_Fits lsn u h f = record {
  lsn = h;
  type = omega arith;
  payload = omega (arith, length-payload_of u f);
}
