-- ===== src/Tx/Recovery/Anomalies.antt =====
-- Logs that src/tinydb/tx/manager.py can write, for src/tinydb/tx/recovery.py: a page written
-- twice, a transaction id of an earlier session, an autocommit after a commit.
use tinydb.Base.{ℕ, ◌^◌, ◌<◌, ◌≡◌, ◌∙◌, [], ◌∷◌, arith, ok}
use tinydb.Base.Dict.{eq_nat, eq_pair, lookup, contains, insert, setdefault}
use tinydb.Bytes.{ByteString}
use tinydb.Storage.Pager.{Pager, read_page}
use tinydb.Storage.Pager.Access.{IsValid}
use tinydb.Tx.Wal.{Wal}
use tinydb.Tx.Wal.Log.{Represents}
use tinydb.Tx.Recovery.{
  PageTouch, Analysis, start, analyse_record, analyse, choose_image, choose_images, images_of,
  state_of, is_committed, committed, unknown, replay,
}
use tinydb.Tx.Recovery.Record.{Fits, decode-payload_of}
use tinydb.Tx.Recovery.Outcome.{
  begin_record, commit_record, page_entry, unpack_tx_id_lem, twice, analyse-twice, images_of-twice,
  analyse-Represents, replay_restored,
}

-- The tables after a session whose transaction `t` wrote a page and did not end, and a session whose
-- transaction `t` committed.
abbrev reused : ℕ → PageTouch → Analysis
reused t u = record {
  records_scanned = 4;
  page_records = 1;
  page_touches = ((u.tx_id, u.page_id), u) ∷ [];
  page_last_writer = (u.page_id, u) ∷ [];
  tx_state = insert t committed (setdefault t unknown ((t, unknown) ∷ []));
}

analyse-reused :
    (t : ℕ) (u : PageTouch)
    → t < 256 ^ 8
    → Fits u
    → analyse (begin_record 1 t ∷ page_entry 2 u ∷ begin_record 3 t ∷ commit_record 4 t ∷ []) start
      ≡ ok (reused t u)
unfolding analyse analyse_record setdefault contains insert lookup
analyse-reused t u ht hu = rw (unpack_tx_id_lem t ht, decode-payload_of u hu)

images_of-reused :
    (t : ℕ) (u : PageTouch)
    → u.tx_id ≡ t
    → images_of (reused t u)
      ≡ record { committed_after = (u.page_id, u.after) ∷ []; unknown_before = [] }
unfolding images_of choose_images choose_image setdefault contains insert lookup state_of
    is_committed
images_of-reused t u a = ground arith

-- The tables after an autocommit, a committed transaction and an autocommit on one page.
abbrev interleaved : ℕ → PageTouch → PageTouch → PageTouch → Analysis
interleaved t a u b = record {
  records_scanned = 5;
  page_records = 3;
  page_touches =
      insert (b.tx_id, b.page_id) b
        (insert (u.tx_id, u.page_id) u (((a.tx_id, a.page_id), a) ∷ []));
  page_last_writer = insert b.page_id b (insert u.page_id u ((a.page_id, a) ∷ []));
  tx_state = insert t committed ((t, unknown) ∷ []);
}

analyse-interleaved :
    (t : ℕ) (a u b : PageTouch)
    → t < 256 ^ 8
    → Fits a
    → Fits u
    → Fits b
    → analyse
        (page_entry 1 a
          ∷ begin_record 2 t
          ∷ page_entry 3 u
          ∷ commit_record 4 t
          ∷ page_entry 5 b
          ∷ [])
        start
      ≡ ok (interleaved t a u b)
unfolding analyse analyse_record setdefault contains insert lookup
analyse-interleaved t a u b ht ha hu hb =
    rw (
      unpack_tx_id_lem t ht,
      decode-payload_of a ha,
      decode-payload_of u hu,
      decode-payload_of b hb,
    )

images_of-interleaved :
    (t : ℕ) (a u b : PageTouch)
    → 0 < t
    → a.tx_id ≡ 0
    → u.tx_id ≡ t
    → b.tx_id ≡ 0
    → a.page_id ≡ u.page_id
    → b.page_id ≡ u.page_id
    → images_of (interleaved t a u b)
      ≡ record { committed_after = (u.page_id, u.after) ∷ []; unknown_before = [] }
unfolding images_of choose_images choose_image setdefault contains insert lookup state_of
    is_committed
images_of-interleaved t a u b pos ta tu tb pa pb = ground arith

module _ (zlib_crc32 : ByteString → ℕ) where
  -- A log in which one transaction wrote a page of the file twice and did not end: after recovery
  -- on a valid pager the page reads as the image before the second write.
  pub undo_intermediate :
      (w : Wal) (p : Pager) (t pid : ℕ) (u v : PageTouch)
      → Represents zlib_crc32 w (begin_record 1 t ∷ page_entry 2 u ∷ page_entry 3 v ∷ [])
      → IsValid p
      → 0 < t
      → t < 256 ^ 8
      → Fits u
      → Fits v
      → u.tx_id ≡ t
      → v.tx_id ≡ t
      → u.page_id ≡ pid
      → v.page_id ≡ pid
      → 0 < pid
      → pid < p.num_pages
      → read_page (replay zlib_crc32 w p).1 pid ≡ ok v.before
  undo_intermediate w p t pid u v r valid pos ht hu hv a b c d low high =
      let e = analyse-Represents zlib_crc32 w _ r ∙ analyse-twice t u v ht hu hv in
      let i = images_of-twice t pid u v pos a b c d in
      let out =
        replay_restored zlib_crc32 w (twice t u v) p pid valid e (rw i tt)
          (rw i (low, high, hv.before, tt)) high in
      out.1 ∙ rw i (unfold contains lookup in ground arith)

  -- A log in which a transaction wrote a page of the file and did not end, and then another with
  -- the same id committed without writing: after recovery on a valid pager the page reads as the
  -- first wrote it.
  pub reused_id :
      (w : Wal) (p : Pager) (t : ℕ) (u : PageTouch)
      → Represents zlib_crc32 w
          (begin_record 1 t ∷ page_entry 2 u ∷ begin_record 3 t ∷ commit_record 4 t ∷ [])
      → IsValid p
      → t < 256 ^ 8
      → Fits u
      → u.tx_id ≡ t
      → 0 < u.page_id
      → u.page_id < p.num_pages
      → read_page (replay zlib_crc32 w p).1 u.page_id ≡ ok u.after
  reused_id w p t u r valid ht hu a low high =
      let e = analyse-Represents zlib_crc32 w _ r ∙ analyse-reused t u ht hu in
      let i = images_of-reused t u a in
      let out =
        replay_restored zlib_crc32 w (reused t u) p u.page_id valid e
          (rw i (low, high, hu.after, tt)) (rw i tt) high in
      out.1 ∙ rw i (unfold contains lookup in ground arith)

  -- A log with an autocommit, then a committed transaction, then an autocommit, all on one page
  -- of the file: after recovery on a valid pager the page reads as the transaction wrote it, not
  -- as the last autocommit did.
  pub autocommit_lost :
      (w : Wal) (p : Pager) (t : ℕ) (a u b : PageTouch)
      → Represents zlib_crc32 w (
          page_entry 1 a
          ∷ begin_record 2 t
          ∷ page_entry 3 u
          ∷ commit_record 4 t
          ∷ page_entry 5 b
          ∷ [])
      → IsValid p
      → 0 < t
      → t < 256 ^ 8
      → Fits a
      → Fits u
      → Fits b
      → a.tx_id ≡ 0
      → u.tx_id ≡ t
      → b.tx_id ≡ 0
      → a.page_id ≡ u.page_id
      → b.page_id ≡ u.page_id
      → 0 < u.page_id
      → u.page_id < p.num_pages
      → read_page (replay zlib_crc32 w p).1 u.page_id ≡ ok u.after
  autocommit_lost w p t a u b r valid pos ht ha hu hb ta tu tb pa pb low high =
      let e = analyse-Represents zlib_crc32 w _ r ∙ analyse-interleaved t a u b ht ha hu hb in
      let i = images_of-interleaved t a u b pos ta tu tb pa pb in
      let out =
        replay_restored zlib_crc32 w (interleaved t a u b) p u.page_id valid e
          (rw i (low, high, hu.after, tt)) (rw i tt) high in
      out.1 ∙ rw i (unfold contains lookup in ground arith)
