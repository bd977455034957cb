-- ===== src/Storage/Heap/Table.antt =====
-- Inserting and deleting over the log and the pager, for src/tinydb/storage/heap.py.
use tinydb.Base.{
  ℕ, ◌+◌, ◌*◌, ◌^◌, ◌≤◌, ◌<◌, ◌≡◌, ◌≢◌, refl, sym, ◌∙◌, ◌⊎◌, inl, inr, none, some, List, [], ◌∷◌,
  ◌++◌, true, false, get_elem?, length, ◌==◌, if◌then◌else◌, Result, ok, arith, eq→==, Bool-cases,
  subst,
}
use tinydb.Bytes.{ByteString}
use tinydb.Storage.Pager.{page_size, read_page}
use tinydb.Storage.Pager.Access.{read_page-some}
use tinydb.Storage.Pager.Pages.{get_elem?-write_at}
use tinydb.Storage.Heap.{slot_size, Rid, add_record, record_at, clear_slot, read, insert_at, delete}
use tinydb.Storage.Heap.Records.{IsSlotted}
use tinydb.Storage.Heap.Insert.{read-add_record}
use tinydb.Storage.Heap.Delete.{read-clear_slot}
use tinydb.Tx.Wal.{WalRecord}
use tinydb.Tx.Manager.{TransactionManager}
use tinydb.Tx.Manager.Session.{write_page_logged}
use tinydb.Tx.Manager.Session.Writes.{
  IsReady, after_write, touch_of, write_page_logged_lem, after_write-IsReady,
}
use tinydb.Tx.Recovery.Record.{Fits}
use tinydb.Tx.Recovery.Outcome.{page_entry}

module _ (zlib_crc32 : ByteString → ℕ) where
  -- A manager that can write a page of a heap, which has its next page, its count of slots and the end
  -- of its data.
  pub record IsAt (m : TransactionManager) (rs : List WalRecord) (pid n c e : ℕ) (page : ByteString)
      : Type 0 where
    pub ready : IsReady zlib_crc32 m rs
    pub positive : 0 < pid
    pub inside : pid < m.pager.num_pages
    pub room : m.wal.next_lsn < 256 ^ 8
    pub at : get_elem? m.pager.pages pid ≡ some page
    pub slotted : IsSlotted page n c e

  read_at :
      (m : TransactionManager) (rs : List WalRecord) (pid n c e : ℕ) (page : ByteString)
      → IsAt m rs pid n c e page
      → read_page m.pager pid ≡ ok page
  read_at m rs pid n c e page h =
      read_page-some m.pager pid page h.ready.pager.is_open h.inside h.at

  -- What a record reads as after a page write.
  read-after_write :
      (m : TransactionManager) (rs : List WalRecord) (pid : ℕ) (before data_ : ByteString)
      (rid : Rid)
      → IsReady zlib_crc32 m rs
      → pid < m.pager.num_pages
      → read (after_write zlib_crc32 m pid before data_) rid
        ≡ (if pid == rid.page_id then record_at rid.slot_id data_ else read m rid)
  unfolding read read_page
  read-after_write m rs pid before data_ rid h lt = ground (
    arith,
    get_elem?-write_at pid rid.page_id data_ m.pager.pages,
    h.pager.counted,
    h.pager.is_open,
  )

  -- The page `pid` is one of a heap, with its next page, its count of slots and the end of its data, and
  -- the pager and the log are good.
  abbrev pub Holds : TransactionManager → ℕ → ℕ → ℕ → ℕ → Type 0
  Holds m pid n c e =
      (rs : List WalRecord) × (page : ByteString) × IsReady zlib_crc32 m rs
      × (get_elem? m.pager.pages pid ≡ some page)
      × IsSlotted page n c e

  written-Holds :
      (m : TransactionManager) (rs : List WalRecord) (pid n c e n' c' e' : ℕ)
      (page before page' : ByteString)
      → IsAt m rs pid n c e page
      → Fits (touch_of zlib_crc32 m pid before page')
      → IsSlotted page' n' c' e'
      → Holds (after_write zlib_crc32 m pid before page') pid n' c' e'
  written-Holds m rs pid n c e n' c' e' page before page' h f good =
      let yes : (pid == pid) ≡ true = eq→== pid pid refl in
      (
        rs ++ (page_entry m.wal.next_lsn (touch_of zlib_crc32 m pid before page') ∷ []),
        page',
        after_write-IsReady zlib_crc32 m rs pid before page' h.ready h.positive h.inside good.whole
            h.room f,
        get_elem?-write_at pid pid page' m.pager.pages
              (omega (arith, h.inside, h.ready.pager.counted))
            ∙ rw yes refl,
        good,
      )

  insert_at_lem :
      (m : TransactionManager) (pid slot : ℕ) (enc page page' : ByteString)
      (m' : TransactionManager)
      → read_page m.pager pid ≡ ok page
      → add_record enc page ≡ ok (page', slot)
      → write_page_logged zlib_crc32 pid page' m ≡ (ok tt, m')
      → insert_at zlib_crc32 m pid enc ≡ (ok (record { page_id = pid; slot_id = slot }), m')
  unfolding insert_at
  insert_at_lem m pid slot enc page page' m' r a w = rw (r, a, insert_at, w) refl

  delete_lem :
      (m : TransactionManager) (pid slot : ℕ) (page page' : ByteString) (m' : TransactionManager)
      → read_page m.pager pid ≡ ok page
      → clear_slot slot page ≡ ok (some page')
      → write_page_logged zlib_crc32 pid page' m ≡ (ok tt, m')
      → delete zlib_crc32 m (record { page_id = pid; slot_id = slot }) ≡ (ok tt, m')
  unfolding delete
  delete_lem m pid slot page page' m' r a w = rw (r, a, delete) w

  read_here :
      (m : TransactionManager) (rs : List WalRecord) (pid n c e : ℕ) (page : ByteString) (rid : Rid)
      → IsAt m rs pid n c e page
      → rid.page_id ≡ pid
      → read m rid ≡ record_at rid.slot_id page
  unfolding read
  read_here m rs pid n c e page rid h same = rw (same, read_at m rs pid n c e page h) refl

  -- Another record after a page write, when the new page keeps it.
  read_other :
      (m : TransactionManager) (rs : List WalRecord) (pid n c e : ℕ)
      (page before page' : ByteString) (rid : Rid)
      → IsAt m rs pid n c e page
      → (rid.page_id ≢ pid) ⊎ (record_at rid.slot_id page' ≡ record_at rid.slot_id page)
      → read (after_write zlib_crc32 m pid before page') rid ≡ read m rid
  read_other m rs pid n c e page before page' rid h (inl ne) =
      let b : (pid == rid.page_id) ≡ false = ground (arith, ne) in
      read-after_write m rs pid before page' rid h.ready h.inside ∙ rw b refl
  read_other m rs pid n c e page before page' rid h (inr kept) =
      elim (Bool-cases (pid == rid.page_id)) [
        | inl b ↦
            let same : rid.page_id ≡ pid = ground (arith, b) in
            read-after_write m rs pid before page' rid h.ready h.inside
            ∙ rw b kept
            ∙ sym (read_here m rs pid n c e page rid h same)
        | inr b ↦ read-after_write m rs pid before page' rid h.ready h.inside ∙ rw b refl
      ]

  -- Inserting into a page of a heap with room for the record and its slot, over a valid pager of
  -- whole pages and a log with room: it returns the next slot of the page, which then reads as the
  -- record, or as nothing when it is empty, and a record at an earlier slot of the page or
  -- on another page reads as before. The page is one of a heap again, with one slot and the bytes of
  -- the record more, and the pager and the log are as good as before.
  pub read-insert_at :
      (m : TransactionManager) (rs : List WalRecord) (pid n c e : ℕ) (page enc : ByteString)
      (rid : Rid)
      → IsAt m rs pid n c e page
      → (c + 1) * slot_size + e + length enc ≤ page_size
      → (rid.page_id ≢ pid) ⊎ (rid.slot_id < c)
      → let (r, m') = insert_at zlib_crc32 m pid enc in
        (r ≡ ok (record { page_id = pid; slot_id = c }))
        × (read m' (record { page_id = pid; slot_id = c })
            ≡ ok (if length enc == 0 then none else some enc))
        × (read m' rid ≡ read m rid)
        × Holds m' pid n (c + 1) (e + length enc)
  read-insert_at m rs pid n c e page enc rid h fits side =
      let (page', added, good, new, old) = read-add_record enc page n c e h.slotted fits in
      let (before, _, f, w) =
        write_page_logged_lem zlib_crc32 m rs pid page' h.ready h.positive h.inside good.whole
          h.room in
      let m' = after_write zlib_crc32 m pid before page' in
      let at : Rid = record { page_id = pid; slot_id = c } in
      let yes : (pid == pid) ≡ true = eq→== pid pid refl in
      subst
        (λ (x : Result Rid × TransactionManager).
          (x.0 ≡ ok at)
          × (read x.1 at ≡ ok (if length enc == 0 then none else some enc))
          × (read x.1 rid ≡ read m rid)
          × Holds x.1 pid n (c + 1) (e + length enc))
        (sym (insert_at_lem m pid c enc page page' m' (read_at m rs pid n c e page h) added w))
        (
          refl,
          read-after_write m rs pid before page' at h.ready h.inside ∙ rw yes new,
          read_other m rs pid n c e page before page' rid h
              (elim side [ inl ne ↦ inl ne | inr lt ↦ inr (old rid.slot_id lt) ]),
          written-Holds m rs pid n c e n (c + 1) (e + length enc) page before page' h f good,
        )

  -- Deleting a slot below the count of a page of a heap, over a valid pager of whole pages and a log
  -- with room: it returns, the slot then reads as nothing, and a record at another slot below the
  -- count of the page or on another page reads as before. The page is one of a heap again, with the
  -- same counts, and the pager and the log are as good as before.
  pub read-delete :
      (m : TransactionManager) (rs : List WalRecord) (pid n c e s : ℕ) (page : ByteString)
      (rid : Rid)
      → IsAt m rs pid n c e page
      → s < c
      → (rid.page_id ≢ pid) ⊎ ((rid.slot_id < c) × (rid.slot_id ≢ s))
      → let (r, m') = delete zlib_crc32 m (record { page_id = pid; slot_id = s }) in
        (r ≡ ok tt)
        × (read m' (record { page_id = pid; slot_id = s }) ≡ ok none)
        × (read m' rid ≡ read m rid)
        × Holds m' pid n c e
  read-delete m rs pid n c e s page rid h lt side =
      let (page', cleared, good, gone, old) = read-clear_slot page n c e s h.slotted lt in
      let (before, _, f, w) =
        write_page_logged_lem zlib_crc32 m rs pid page' h.ready h.positive h.inside good.whole
          h.room in
      let m' = after_write zlib_crc32 m pid before page' in
      let at : Rid = record { page_id = pid; slot_id = s } in
      let yes : (pid == pid) ≡ true = eq→== pid pid refl in
      subst
        (λ (x : Result (Unit {0}) × TransactionManager).
          (x.0 ≡ ok tt)
          × (read x.1 at ≡ ok none)
          × (read x.1 rid ≡ read m rid)
          × Holds x.1 pid n c e)
        (sym (delete_lem m pid s page page' m' (read_at m rs pid n c e page h) cleared w))
        (
          refl,
          read-after_write m rs pid before page' at h.ready h.inside ∙ rw yes gone,
          read_other m rs pid n c e page before page' rid h
              (elim side [ inl ne ↦ inl ne | inr (le, ne) ↦ inr (old rid.slot_id le ne) ]),
          written-Holds m rs pid n c e n c e page before page' h f good,
        )
