-- ===== src/Tx/Manager/Session/Crash.antt =====
-- A whole transaction of src/tinydb/tx/manager.py, and what src/tinydb/tx/recovery.py makes of its
-- log after a crash.
use tinydb.Base.{
  ℕ, ◌+◌, ◌<◌, ◌^◌, ◌≡◌, refl, sym, ap, ◌∙◌, subst, true, none, some, Option, List, [], ◌∷◌, arith,
  if◌then◌else◌, Result, ok, length, get_elem?,
}
use tinydb.Base.Dict.{eq_nat, contains}
use tinydb.Bytes.{ByteString}
use tinydb.Storage.Pager.{Pager, set_last_lsn}
use tinydb.Storage.Pager.Access.{IsValid}
use tinydb.Tx.Wal.{WalRecord, rt_begin, rt_commit}
use tinydb.Tx.Wal.Log.{Represents}
use tinydb.Tx.Recovery.Restore.{Distinct, InFile}
use tinydb.Tx.Recovery.Traced.{Traced, last_write}
use tinydb.Tx.Recovery.OneTransaction.{entries_of, Recovers, finished-Recovers, unfinished-Recovers}
use tinydb.Tx.Recovery.Outcome.{begin_record}
use tinydb.Tx.Manager.{
  TransactionContext, TransactionManager, log_control, is_active, begin, close_tx, commit,
  current_id, transaction, leave,
}
use tinydb.Tx.Manager.Session.{write_pages}
use tinydb.Tx.Manager.Session.Writes.{Ran, write_pages-Ran}
use tinydb.Tx.Manager.Session.Undo.{control_record, log_control_lem, close_tx_lem, is_active-some}
use tinydb.Tx.Manager.Session.Begin.{IsResting, Begun, begin_lem}

module _ (zlib_crc32 : ByteString → ℕ) where
  commit_lem :
      (me : ℕ) (tx : TransactionContext) (m : TransactionManager)
      → is_active tx m.active_tx ≡ true
      → (log_control zlib_crc32 m.wal rt_commit tx.tx_id).0 ≡ ok m.wal.next_lsn
      → commit zlib_crc32 me tx m
        ≡ close_tx me tx (record m {
          wal = (log_control zlib_crc32 m.wal rt_commit tx.tx_id).1;
          pager = (set_last_lsn m.pager m.wal.next_lsn).1;
        })
  unfolding commit
  commit_lem me tx m a l = rw (a, l, commit) refl

  transaction_lem :
      (me : ℕ) (tx : TransactionContext) (m m' : TransactionManager)
      (block : TransactionManager → Result (Unit {0}) × TransactionManager)
      → begin zlib_crc32 me m ≡ (some (ok tx), m')
      → transaction zlib_crc32 me block m ≡ (
        some (leave zlib_crc32 me tx (block m').0 (block m').1).0,
        (leave zlib_crc32 me tx (block m').0 (block m').1).1,
      )
  unfolding transaction
  transaction_lem me tx m m' block e = rw (e, transaction, e) refl

  leave-commit :
      (me : ℕ) (tx : TransactionContext) (m m' : TransactionManager)
      → commit zlib_crc32 me tx m ≡ (ok (tt {0}), m')
      → leave zlib_crc32 me tx (ok (tt {0})) m ≡ (ok (tt {0}), m')
  unfolding leave
  leave-commit me tx m m' e = rw (e, leave) refl

  -- The log of a transaction that is about to end, and its touches.
  log_of :
      (m m1 m2 : TransactionManager) (me : ℕ) (tx : TransactionContext) (ws : List (ℕ × ByteString))
      → IsResting zlib_crc32 m []
      → Begun zlib_crc32 me m m1 tx []
      → (ran : Ran zlib_crc32 m1 m2 (control_record m.wal.next_lsn rt_begin m.next_tx_id ∷ []) ws)
      → Represents zlib_crc32 m2.wal (begin_record 1 tx.tx_id ∷ entries_of 2 ran.touches)
        × Traced tx.tx_id m.pager.pages ws ran.touches
  log_of m m1 m2 me tx ws h b ran =
      let t = m.next_tx_id in
      let us = ran.touches in
      (
        subst (λ (l : List WalRecord). Represents zlib_crc32 m2.wal l)
            (ap (λ (k : ℕ). begin_record k t ∷ entries_of m1.wal.next_lsn us) h.log.next
              ∙ ap (λ (k : ℕ). begin_record 1 t ∷ entries_of k us) b.ready.log.next
              ∙ ap (λ (k : ℕ). begin_record 1 k ∷ entries_of 2 us) (sym b.id))
            ran.ready.log,
        subst (λ (k : ℕ). Traced k m.pager.pages ws us) (b.current ∙ sym b.id)
            (subst (λ (q : Pager). Traced (current_id m1) q.pages ws us) b.pager ran.traced),
      )

  run_from :
      (me : ℕ) (m m1 : TransactionManager) (tx : TransactionContext) (ws : List (ℕ × ByteString))
      → IsResting zlib_crc32 m []
      → Begun zlib_crc32 me m m1 tx []
      → InFile m.pager.num_pages ws
      → 2 + length ws < 256 ^ 8
      → ((write_pages zlib_crc32 ws m1).0 ≡ ok tt)
        × Ran zlib_crc32 m1
            (write_pages zlib_crc32 ws m1).1
            (control_record m.wal.next_lsn rt_begin m.next_tx_id ∷ [])
            ws
  run_from me m m1 tx ws h b f room =
      write_pages-Ran zlib_crc32 ws m1 _ b.ready
        (subst (λ (q : Pager). InFile q.num_pages ws) (sym b.pager) f)
        (omega (arith, b.ready.log.next))

  undone_from :
      (me : ℕ) (m m1 m2 : TransactionManager) (tx : TransactionContext) (ws : List (ℕ × ByteString))
      (p : Pager) (pid : ℕ)
      → IsResting zlib_crc32 m []
      → Begun zlib_crc32 me m m1 tx []
      → Ran zlib_crc32 m1 m2 (control_record m.wal.next_lsn rt_begin m.next_tx_id ∷ []) ws
      → InFile m.pager.num_pages ws
      → Distinct ws
      → IsValid p
      → p.num_pages ≡ m.pager.num_pages
      → pid < p.num_pages
      → Recovers zlib_crc32 m2.wal p pid
          (if contains pid ws then get_elem? m.pager.pages pid else none)
  undone_from me m m1 m2 tx ws p pid h b ran f di v same lt =
      let (log, traced) = log_of m m1 m2 me tx ws h b ran in
      unfinished-Recovers zlib_crc32 m2.wal p pid tx.tx_id ws ran.touches m.pager.pages log v lt
        (omega (arith, b.id, h.positive)) (omega (arith, b.id, h.id)) traced (rw same f) di

  committed_from :
      (me : ℕ) (m m1 m2 : TransactionManager) (tx : TransactionContext) (ws : List (ℕ × ByteString))
      (p : Pager) (pid : ℕ)
      → IsResting zlib_crc32 m []
      → Begun zlib_crc32 me m m1 tx []
      → Ran zlib_crc32 m1 m2 (control_record m.wal.next_lsn rt_begin m.next_tx_id ∷ []) ws
      → InFile m.pager.num_pages ws
      → 2 + length ws < 256 ^ 8
      → IsValid p
      → p.num_pages ≡ m.pager.num_pages
      → pid < p.num_pages
      → (m' : TransactionManager) × (commit zlib_crc32 me tx m2 ≡ (ok (tt {0}), m'))
        × (m'.active_tx ≡ none)
        × (m'.lock.rwlock.writer ≡ none)
        × Recovers zlib_crc32 m'.wal p pid (last_write pid ws)
  committed_from me m m1 m2 tx ws p pid h b ran f room v same lt =
      let (log, traced) = log_of m m1 m2 me tx ws h b ran in
      let small : tx.tx_id < 256 ^ 8 = omega (arith, b.id, h.id) in
      let (logged, log') =
        log_control_lem zlib_crc32 m2.wal _ rt_commit tx.tx_id log ran.ready.unlocked small
          (omega arith) (omega (arith, ran.count, b.ready.log.next)) in
      let m3 : TransactionManager = record m2 {
        wal = (log_control zlib_crc32 m2.wal rt_commit tx.tx_id).1;
        pager = (set_last_lsn m2.pager m2.wal.next_lsn).1;
      } in
      (
        _,
        commit_lem me tx m2 (is_active-some tx m2 (ran.active ∙ b.active)) logged
            ∙ close_tx_lem me tx m3 (ran.held ∙ b.held) (rw ran.lock b.lock),
        refl,
        refl,
        finished-Recovers zlib_crc32 m3.wal p pid tx.tx_id m2.wal.next_lsn ws ran.touches
            m.pager.pages log' v lt small traced (rw same f),
      )

  -- A crash, on a log that was new, within a transaction that wrote whole pages inside the file,
  -- page 0 excepted and no page twice: replaying the log, on any valid pager with as many pages,
  -- returns, and a page of the file then reads as before the transaction if it was written, and as
  -- in that pager if not.
  pub uncommitted_undone :
      (me : ℕ) (m : TransactionManager) (ws : List (ℕ × ByteString)) (p : Pager) (pid : ℕ)
      → IsResting zlib_crc32 m []
      → InFile m.pager.num_pages ws
      → Distinct ws
      → 2 + length ws < 256 ^ 8
      → IsValid p
      → p.num_pages ≡ m.pager.num_pages
      → pid < p.num_pages
      → let w = (write_pages zlib_crc32 ws (begin zlib_crc32 me m).1).1.wal in
        Recovers zlib_crc32 w p pid (if contains pid ws then get_elem? m.pager.pages pid else none)
  uncommitted_undone me m ws p pid h f di room v same lt =
      let (tx, m1, e, b) = begin_lem zlib_crc32 me m [] h (omega (arith, h.log.next)) in
      let (_, ran) = run_from me m m1 tx ws h b f room in
      subst
        (λ (x : TransactionManager).
          Recovers zlib_crc32 (write_pages zlib_crc32 ws x).1.wal p pid
            (if contains pid ws then get_elem? m.pager.pages pid else none))
        (sym (ap (λ (r : Option (Result TransactionContext) × TransactionManager). r.1) e))
        (undone_from me m m1 (write_pages zlib_crc32 ws m1).1 tx ws p pid h b ran f di v same lt)

  -- A transaction, on a log that was new, that writes whole pages inside the file, page 0
  -- excepted, and then ends without an exception: the call returns, no transaction is active and
  -- the lock is free. After a crash, replaying the log on any valid pager with as many pages
  -- returns, and a page of the file then reads as its last write, or as in that pager if it was
  -- not written.
  pub committed_survives :
      (me : ℕ) (m : TransactionManager) (ws : List (ℕ × ByteString)) (p : Pager) (pid : ℕ)
      → IsResting zlib_crc32 m []
      → InFile m.pager.num_pages ws
      → 2 + length ws < 256 ^ 8
      → IsValid p
      → p.num_pages ≡ m.pager.num_pages
      → pid < p.num_pages
      → let (o, m') = transaction zlib_crc32 me (write_pages zlib_crc32 ws) m in
        (o ≡ some (ok tt))
        × (m'.active_tx ≡ none)
        × (m'.lock.rwlock.writer ≡ none)
        × Recovers zlib_crc32 m'.wal p pid (last_write pid ws)
  committed_survives me m ws p pid h f room v same lt =
      let (tx, m1, e, b) = begin_lem zlib_crc32 me m [] h (omega (arith, h.log.next)) in
      let (done, ran) = run_from me m m1 tx ws h b f room in
      let (m', c, active, writer, recovers) =
        committed_from me m m1 (write_pages zlib_crc32 ws m1).1 tx ws p pid h b ran f room v same
          lt in
      rw
        (
          transaction_lem me tx m m1 (write_pages zlib_crc32 ws) e,
          done,
          leave-commit me tx (write_pages zlib_crc32 ws m1).1 m' c,
        )
        (refl, active, writer, recovers)
