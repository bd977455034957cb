-- ===== src/Tests/Transactions.antt =====
-- The theorems on src/tinydb/tx/manager.py on a new log over the file of six pages of zeros.
use tinydb.Base.{
  ℕ, ◌≡◌, refl, true, false, none, some, List, [], ◌∷◌, ◌++◌, ◌+◌, length, ◌==◌, inr, arith,
  length-replicate, ok, raise, value_error, deadlock, nested_transaction, if◌then◌else◌, get_elem?,
}
use tinydb.Base.Dict.{eq_nat, contains, lookup, insert}
use tinydb.Bytes.{ByteString, pack_be}
use tinydb.Storage.Pager.{page_size, zero_page}
use tinydb.Concurrent.RwLock.{is_owner, try_write, enter_write, is_writer_held, new as new_rwlock}
use tinydb.Tx.Wal.{Wal, rt_begin, rt_rollback, append, pack_header}
use tinydb.Tx.Wal.Log.{Represents}
use tinydb.Tx.Lock.{acquire, turn, new as new_lock}
use tinydb.Tx.Lock.Owner.{IsHeldBy, asked}
use tinydb.Tx.Wal.Frames.{frames}
use tinydb.Tx.Recovery.Restore.{Distinct, InFile}
use tinydb.Storage.Pager.Whole.{replicate-AreWhole, length-zero_page}
use tinydb.Tx.Recovery.Traced.{last_write, Traced}
use tinydb.Tx.Recovery.{PageTouch}
use tinydb.Tx.Recovery.OneTransaction.{Recovers, entries_of}
use tinydb.Tx.Manager.{
  TransactionContext, TransactionManager, new, begin, begin_reading, begin_locked, go_on, resume,
  rollback, transaction, log_control, current_id, would_deadlock, enter, start, encode_tx_id,
  acquire_snapshot,
}
use tinydb.Tx.Manager.Invariant.{Phase, Reachable, fresh, called, begins, Reachable-Phase}
use tinydb.Tx.Manager.SingleWriter.{single_writer, stale_id}
use tinydb.Tx.Manager.Session.{write_pages}
use tinydb.Tx.Manager.Session.Writes.{IsReady}
use tinydb.Tx.Manager.Session.Begin.{IsResting}
use tinydb.Tx.Manager.Session.Undo.{rollback_restores, control_record}
use tinydb.Tx.Manager.Session.Crash.{uncommitted_undone, committed_survives}
use tinydb.Tx.Manager.Leaks.{begin_leaks}
use tinydb.Tests.Pages.{sample, sample-IsValid, fill}

abbrev pub checksum : ByteString → ℕ
checksum b = 0

abbrev pub empty_wal : Wal
empty_wal = record {
  file = [];
  next_lsn = 1;
  closed = false;
  use_process_lock = false;
  lock_available = false;
}

abbrev resting : TransactionManager
resting = record {
  pager = sample;
  wal = empty_wal;
  lock = record {
    rwlock = record { readers = 0; writer = none; writers_waiting = 0; prefer_writer = true };
    stacks = [];
  };
  waits_for = [];
  next_tx_id = 1;
  active_tx = none;
  held = false;
  logged_pages = [];
}

pub empty-Represents : Represents checksum empty_wal []
unfolding frames
empty-Represents = record { file = refl; numbered = tt; next = refl; is_open = refl }

resting-IsResting : IsResting checksum resting []
resting-IsResting = record {
  active = refl;
  lock = record { writer = refl; stacks = refl };
  readers = refl;
  waits = refl;
  pager = sample-IsValid;
  whole = replicate-AreWhole 6 zero_page length-zero_page;
  log = empty-Represents;
  unlocked = refl;
  positive = omega arith;
  id = omega arith;
}

abbrev writes : List (ℕ × ByteString)
writes = (4, fill 7) ∷ (5, fill 8) ∷ []

writes-InFile : InFile 6 writes
writes-InFile = (
  omega arith,
  omega arith,
  length-replicate page_size 7,
  (omega arith, omega arith, length-replicate page_size 8, tt),
)

writes-Distinct : Distinct writes
unfolding lookup
writes-Distinct = (refl, (refl, tt))

committed_survives_example :
    let (o, m') = transaction checksum 1 (write_pages checksum writes) resting in
    (o ≡ some (ok tt))
    × (m'.active_tx ≡ none)
    × (m'.lock.rwlock.writer ≡ none)
    × Recovers checksum m'.wal sample 5 (last_write 5 writes)
committed_survives_example =
    committed_survives checksum 1 resting writes sample 5 resting-IsResting writes-InFile
      (omega arith) sample-IsValid refl (omega arith)

uncommitted_undone_example :
    Recovers checksum
      (write_pages checksum writes (begin checksum 1 resting).1).1.wal
      sample
      5
      (if contains 5 writes then get_elem? resting.pager.pages 5 else none)
uncommitted_undone_example =
    uncommitted_undone checksum 1 resting writes sample 5 resting-IsResting writes-InFile
      writes-Distinct (omega arith) sample-IsValid refl (omega arith)

-- The manager within a transaction of the thread 1.
abbrev tx1 : TransactionContext
tx1 = record { tx_id = 1; begin_lsn = 1; snapshot = record { lsn = 0 } }

abbrev pub running : TransactionManager
running = record resting {
  lock = record {
    rwlock = record { readers = 0; writer = some 1; writers_waiting = 0; prefer_writer = true };
    stacks = (1, 1) ∷ [];
  };
  next_tx_id = 2;
  active_tx = some tx1;
  held = true;
}

running-IsReady : IsReady checksum running []
unfolding current_id
running-IsReady = record {
  pager = sample-IsValid;
  whole = replicate-AreWhole 6 zero_page length-zero_page;
  log = empty-Represents;
  unlocked = refl;
  id = omega arith;
}

running-IsHeldBy : IsHeldBy 1 1 running.lock
running-IsHeldBy = record { writer = refl; stacks = refl; entered = omega arith }

rollback_restores_example :
    let (r, m') = rollback checksum 1 tx1 (write_pages checksum writes running).1 in
    (r ≡ ok tt)
    × (m'.pager ≡ sample)
    × (m'.active_tx ≡ none)
    × (m'.lock.rwlock.writer ≡ none)
    × ((us : List PageTouch) × Traced (current_id running) sample.pages writes us
        × Represents checksum m'.wal
            (([] ++ entries_of 1 us) ++ (control_record (1 + length writes) rt_rollback 1 ∷ [])))
rollback_restores_example =
    rollback_restores checksum 1 tx1 running [] writes running-IsReady writes-InFile (omega arith)
      refl refl (omega arith) refl running-IsHeldBy

abbrev first_call : TransactionManager
first_call = (begin checksum 1 (new sample empty_wal)).1

first_call-Reachable : Reachable checksum sample empty_wal first_call
first_call-Reachable =
    called (new sample empty_wal) first_call fresh (begins 1 (new sample empty_wal))

Reachable-Phase_example : Phase first_call
Reachable-Phase_example = Reachable-Phase checksum sample empty_wal first_call first_call-Reachable

first_call_active : first_call.active_tx ≡ some tx1
unfolding begin begin_reading begin_locked go_on would_deadlock acquire turn try_write enter_write
    is_writer_held lookup enter start log_control encode_tx_id pack_be append pack_header new
    new_lock new_rwlock insert acquire_snapshot
first_call_active = refl

-- A call that read the id 1 before the first call took it.
stale_id_example : begin_reading checksum 1 2 first_call ≡ (
    if 1 == tx1.tx_id
    then (some (raise deadlock), first_call)
    else begin_locked checksum 2 first_call)
stale_id_example =
    stale_id checksum sample empty_wal first_call 2 1 tx1 first_call-Reachable first_call_active
      (omega arith)

single_writer_example :
    (begin_locked checksum 2 first_call ≡ (
      if is_owner 2 first_call.lock.rwlock.writer
      then (some (raise nested_transaction), first_call)
      else (none, record first_call { lock = asked first_call.lock })))
    × (resume checksum 2 first_call ≡ (none, first_call))
single_writer_example =
    single_writer checksum sample empty_wal first_call 2 tx1 first_call-Reachable first_call_active

-- A manager whose log was closed.
abbrev closed_log : TransactionManager
closed_log = record resting { wal = record empty_wal { closed = true } }

closed_log_raises : (log_control checksum closed_log.wal rt_begin 1).0 ≡ raise value_error
unfolding log_control encode_tx_id pack_be append pack_header
closed_log_raises = refl

begin_leaks_example :
    let (o, m') = begin checksum 1 closed_log in
    (o ≡ some (raise value_error))
    × (m'.active_tx ≡ none)
    × (m'.held ≡ false)
    × ((begin checksum 2 m').0 ≡ none)
begin_leaks_example =
    begin_leaks checksum 1 2 closed_log value_error refl refl refl
      (record { writer = refl; stacks = refl }) refl (inr (refl, closed_log_raises)) refl
