-- ===== src/Tx/Manager/Session/Writes.antt =====
-- One page write, and several, on a manager of src/tinydb/tx/manager.py that has room for them.
use mathlib.Core.List.{reverse-append, append-nil, append_assoc}
use tinydb.Base.{
  subst, ℕ, ◌+◌, ◌≤◌, ◌<◌, ◌^◌, ◌≡◌, refl, ap, ◌∙◌, false, not, ◌&&◌, some, List, [], ◌∷◌, ◌++◌,
  arith, Result, ok, length, get_elem?, reverse,
}
use tinydb.Bytes.{ByteString}
use tinydb.Storage.Pager.{page_size, read_page, write_page, write_at}
use tinydb.Storage.Pager.Access.{IsValid}
use tinydb.Storage.Pager.Whole.{
  AreWhole, read_page-AreWhole, write_page_data, write_page_back, write_at-AreWhole,
  IsValid-write_at,
}
use tinydb.Tx.Wal.{WalRecord, Wal, append, rt_page}
use tinydb.Tx.Wal.Log.{Represents}
use tinydb.Tx.Wal.Durability.{append-Represents, append-file}
use tinydb.Tx.Recovery.{PageTouch}
use tinydb.Tx.Recovery.Restore.{InFile}
use tinydb.Tx.Recovery.Traced.{Traced}
use tinydb.Tx.Recovery.OneTransaction.{entries_of}
use tinydb.Tx.Recovery.Record.{Fits, payload_of, encode-payload_of}
use tinydb.Tx.Recovery.Outcome.{page_entry, entry_Fits}
use tinydb.Tx.Manager.{TransactionManager, log_page_write, current_id, restore_pages}
use tinydb.Tx.Manager.Session.{write_page_logged, write_pages}

module _ (zlib_crc32 : ByteString → ℕ) where
  -- A manager that can write pages: its pager and its log are good, and the log has room.
  pub record IsReady (m : TransactionManager) (rs : List WalRecord) : Type 0 where
    pub pager : IsValid m.pager
    pub whole : AreWhole m.pager.pages
    pub log : Represents zlib_crc32 m.wal rs
    pub unlocked : (m.wal.use_process_lock && not m.wal.lock_available) ≡ false
    pub id : current_id m < 256 ^ 8

  abbrev pub touch_of : TransactionManager → ℕ → ByteString → ByteString → PageTouch
  touch_of m pid before after = record {
    tx_id = current_id m;
    page_id = pid;
    before = before;
    after = after;
  }

  log_page_write_lem :
      (m : TransactionManager) (rs : List WalRecord) (pid : ℕ) (before after : ByteString)
      → IsReady m rs
      → Fits (touch_of m pid before after)
      → m.wal.next_lsn < 256 ^ 8
      → log_page_write zlib_crc32 pid before after m ≡ (
        ok tt,
        record m {
          wal = (append zlib_crc32 m.wal rt_page (payload_of (touch_of m pid before after))).1;
          logged_pages = m.logged_pages ++ ((pid, before) ∷ []);
        },
      )
  unfolding log_page_write
  log_page_write_lem m rs pid before after h f lt =
      let u = touch_of m pid before after in
      let (logged, _) =
        append-Represents zlib_crc32 m.wal rs rt_page (payload_of u) h.log
          (entry_Fits m.wal.next_lsn u lt f) h.unlocked in
      rw (encode-payload_of u f, logged, log_page_write) refl

  -- The state after a page write.
  abbrev pub after_write : TransactionManager → ℕ → ByteString → ByteString → TransactionManager
  after_write m pid before data_ = record m {
    pager = record m.pager { pages = write_at pid data_ m.pager.pages };
    wal = (append zlib_crc32 m.wal rt_page (payload_of (touch_of m pid before data_))).1;
    logged_pages = m.logged_pages ++ ((pid, before) ∷ []);
  }

  write_page_logged_at :
      (m : TransactionManager) (pid : ℕ) (before data_ : ByteString)
      → read_page m.pager pid ≡ ok before
      → log_page_write zlib_crc32 pid before data_ m ≡ (
        ok tt,
        record m {
          wal = (append zlib_crc32 m.wal rt_page (payload_of (touch_of m pid before data_))).1;
          logged_pages = m.logged_pages ++ ((pid, before) ∷ []);
        },
      )
      → write_page m.pager pid data_
        ≡ (ok tt, record m.pager { pages = write_at pid data_ m.pager.pages })
      → write_page_logged zlib_crc32 pid data_ m ≡ (ok tt, after_write m pid before data_)
  unfolding write_page_logged
  write_page_logged_at m pid before data_ e f g = rw (e, f, write_page_logged, f, g) refl

  pub write_page_logged_lem :
      (m : TransactionManager) (rs : List WalRecord) (pid : ℕ) (data_ : ByteString)
      → IsReady m rs
      → 0 < pid
      → pid < m.pager.num_pages
      → length data_ ≡ page_size
      → m.wal.next_lsn < 256 ^ 8
      → (before : ByteString) × (get_elem? m.pager.pages pid ≡ some before)
        × Fits (touch_of m pid before data_)
        × (write_page_logged zlib_crc32 pid data_ m ≡ (ok tt, after_write m pid before data_))
  write_page_logged_lem m rs pid data_ h pos lt size room =
      let (before, reads, at, whole) = read_page-AreWhole m.pager pid h.pager h.whole lt in
      let f : Fits (touch_of m pid before data_) = record {
        tx_id = h.id;
        page_id = omega (arith, h.pager.fits.num_pages);
        before = whole;
        after = size;
      } in
      (
        before,
        at,
        f,
        write_page_logged_at m pid before data_ reads
            (log_page_write_lem m rs pid before data_ h f room)
            (write_page_data m.pager pid data_ h.pager pos lt size),
      )

  -- The state after a page write is ready for the next one.
  pub after_write-IsReady :
      (m : TransactionManager) (rs : List WalRecord) (pid : ℕ) (before data_ : ByteString)
      → IsReady m rs
      → 0 < pid
      → pid < m.pager.num_pages
      → length data_ ≡ page_size
      → m.wal.next_lsn < 256 ^ 8
      → Fits (touch_of m pid before data_)
      → IsReady
          (after_write m pid before data_)
          (rs ++ (page_entry m.wal.next_lsn (touch_of m pid before data_) ∷ []))
  unfolding current_id
  after_write-IsReady m rs pid before data_ h pos lt size room f =
      let u = touch_of m pid before data_ in
      let fits = entry_Fits m.wal.next_lsn u room f in
      let (_, log) =
        append-Represents zlib_crc32 m.wal rs rt_page (payload_of u) h.log fits h.unlocked in
      record {
        pager = IsValid-write_at m.pager pid data_ h.pager lt;
        whole =
            write_at-AreWhole pid data_ m.pager.pages size (omega (arith, h.pager.counted)) h.whole;
        log = log;
        unlocked =
            rw (append-file zlib_crc32 m.wal rt_page (payload_of u) fits h.unlocked h.log.is_open)
              h.unlocked;
        id = h.id;
      }

  -- What several page writes come to: `us` are the touches that they logged.
  pub record Ran (m m' : TransactionManager) (rs : List WalRecord) (ws : List (ℕ × ByteString))
      : Type 0 where
    pub touches : List PageTouch
    pub traced : Traced (current_id m) m.pager.pages ws touches
    pub ready : IsReady m' (rs ++ entries_of m.wal.next_lsn touches)
    pub pages : m'.pager.num_pages ≡ m.pager.num_pages
    pub count : m'.wal.next_lsn ≡ m.wal.next_lsn + length ws
    pub active : m'.active_tx ≡ m.active_tx
    pub held : m'.held ≡ m.held
    pub lock : m'.lock ≡ m.lock
    pub undo :
        restore_pages (reverse m'.logged_pages) m'.pager
        ≡ restore_pages (reverse m.logged_pages) m.pager

  restore-after_write :
      (m : TransactionManager) (pid : ℕ) (before data_ : ByteString)
      → IsValid m.pager
      → 0 < pid
      → pid < m.pager.num_pages
      → length before ≡ page_size
      → get_elem? m.pager.pages pid ≡ some before
      → restore_pages
          (reverse (m.logged_pages ++ ((pid, before) ∷ [])))
          (record m.pager { pages = write_at pid data_ m.pager.pages })
        ≡ restore_pages (reverse m.logged_pages) m.pager
  unfolding restore_pages
  restore-after_write m pid before data_ v pos lt hb e =
      let back = write_page_back m.pager pid data_ before v pos lt hb e in
      rw (reverse-append m.logged_pages ((pid, before) ∷ []), back, restore_pages, back) refl

  next_lsn-after_write :
      (m : TransactionManager) (rs : List WalRecord) (pid : ℕ) (before data_ : ByteString)
      → IsReady m rs
      → m.wal.next_lsn < 256 ^ 8
      → Fits (touch_of m pid before data_)
      → (after_write m pid before data_).wal.next_lsn ≡ m.wal.next_lsn + 1
  next_lsn-after_write m rs pid before data_ h room f =
      let u = touch_of m pid before data_ in
      ap (λ (x : Result ℕ × Wal). x.1.next_lsn)
        (append-file zlib_crc32 m.wal rt_page (payload_of u) (entry_Fits m.wal.next_lsn u room f)
          h.unlocked h.log.is_open)

  -- A write, and what the writes after it come to.
  extend_Ran :
      (ws : List (ℕ × ByteString)) (m : TransactionManager) (rs : List WalRecord) (pid : ℕ)
      (before data_ : ByteString)
      → IsReady m rs
      → InFile m.pager.num_pages ((pid, data_) ∷ ws)
      → m.wal.next_lsn < 256 ^ 8
      → get_elem? m.pager.pages pid ≡ some before
      → Fits (touch_of m pid before data_)
      → (m' : TransactionManager)
      → Ran
          (after_write m pid before data_)
          m'
          (rs ++ (page_entry m.wal.next_lsn (touch_of m pid before data_) ∷ []))
          ws
      → Ran m m' rs ((pid, data_) ∷ ws)
  unfolding current_id
  extend_Ran ws m rs pid before data_ h f room at fits m' r =
      let u = touch_of m pid before data_ in
      let next = next_lsn-after_write m rs pid before data_ h room fits in
      record {
        touches = u ∷ r.touches;
        traced = (refl, refl, refl, at, fits, r.traced);
        ready =
            subst (λ (l : List WalRecord). IsReady m' l)
              (append_assoc rs (page_entry m.wal.next_lsn u ∷ [])
                  (entries_of (after_write m pid before data_).wal.next_lsn r.touches)
                ∙ ap (λ (k : ℕ). rs ++ (page_entry m.wal.next_lsn u ∷ entries_of k r.touches))
                    (next ∙ omega arith))
              r.ready;
        pages = r.pages;
        count = omega (arith, r.count, next);
        active = r.active;
        held = r.held;
        lock = r.lock;
        undo = r.undo ∙ restore-after_write m pid before data_ h.pager f.0 f.1 fits.before at;
      }

  pub write_pages-Ran :
      (ws : List (ℕ × ByteString)) (m : TransactionManager) (rs : List WalRecord)
      → IsReady m rs
      → InFile m.pager.num_pages ws
      → m.wal.next_lsn + length ws ≤ 256 ^ 8
      → ((write_pages zlib_crc32 ws m).0 ≡ ok tt) × Ran m (write_pages zlib_crc32 ws m).1 rs ws
  unfolding write_pages
  write_pages-Ran [] m rs h f room = (
    refl,
    record {
      touches = [];
      traced = tt;
      ready = rw (append-nil rs) h;
      pages = refl;
      count = omega arith;
      active = refl;
      held = refl;
      lock = refl;
      undo = refl;
    },
  )
  write_pages-Ran ((pid, data_) ∷ ws) m rs h f room =
      let (before, at, fits, e) =
        write_page_logged_lem m rs pid data_ h f.0 f.1 f.2 (omega arith) in
      let (done, rest) =
        write_pages-Ran ws (after_write m pid before data_)
          (rs ++ (page_entry m.wal.next_lsn (touch_of m pid before data_) ∷ []))
          (after_write-IsReady m rs pid before data_ h f.0 f.1 f.2 (omega arith) fits) f.3
          (omega (arith, room, next_lsn-after_write m rs pid before data_ h (omega arith) fits)) in
      rw (e, write_pages, e)
        (done, extend_Ran ws m rs pid before data_ h f (omega arith) at fits _ rest)
