-- ===== src/Tests/Replay.antt =====
-- The theorems on src/tinydb/tx/recovery.py, on small logs over the file of six pages.
use tinydb.Base.{
  ℕ, ◌+◌, ◌^◌, ◌<◌, ◌≡◌, refl, ◌∙◌, false, List, [], ◌∷◌, arith, length, length-replicate, ok,
  ◌>>=◌,
}
use tinydb.Base.Dict.{eq_nat, eq_pair, lookup, insert}
use tinydb.Bytes.{ByteString, be_bytes}
use tinydb.Bytes.Laws.{length-be_bytes}
use tinydb.Storage.Pager.{page_size, read_page}
use tinydb.Storage.Pager.Access.{IsValid}
use tinydb.Tx.Wal.{WalRecord, Wal}
use tinydb.Tx.Wal.Frames.{Fits as FitsFrame, frames}
use tinydb.Tx.Wal.Log.{Represents}
use tinydb.Tx.Recovery.{PageTouch, Images, replay, Stats, encode_page_record, decode_page_record}
use tinydb.Tx.Recovery.Record.{Fits, decode-encode_page_record}
use tinydb.Tx.Recovery.Restore.{Restorable, image_or}
use tinydb.Tx.Recovery.Touches.{or_else}
use tinydb.Tx.Recovery.Choice.{last_after, first_before, replay_lem}
use tinydb.Tx.Recovery.Outcome.{
  entry_Fits, begin_record, commit_record, page_entry, twice, analyse-twice, images_of-twice,
  analyse-Represents, replay_idempotent,
}
use tinydb.Tx.Recovery.Anomalies.{undo_intermediate, reused_id, autocommit_lost}
use tinydb.Tests.Pages.{sample, sample-IsValid, fill}

abbrev checksum : ByteString → ℕ
checksum b = 0

-- A write of page 5.
abbrev touch : ℕ → ℕ → ℕ → PageTouch
touch t old new = record { tx_id = t; page_id = 5; before = fill old; after = fill new }

touch-Fits : (t old new : ℕ) → t < 256 ^ 8 → Fits (touch t old new)
touch-Fits t old new h = record {
  tx_id = h;
  page_id = omega arith;
  before = length-replicate page_size old;
  after = length-replicate page_size new;
}

abbrev wal_of : List WalRecord → Wal
wal_of rs = record {
  file = frames checksum rs;
  next_lsn = 1 + length rs;
  closed = false;
  use_process_lock = false;
  lock_available = false;
}

id_Fits :
    (lsn type t : ℕ)
    → lsn < 256 ^ 8
    → type < 256 ^ 1
    → FitsFrame (record { lsn = lsn; type = type; payload = be_bytes 8 t })
id_Fits lsn type t h k = record { lsn = h; type = k; payload = omega (arith, length-be_bytes 8 t) }

abbrev u1 : PageTouch
u1 = touch 1 0 1

abbrev u2 : PageTouch
u2 = touch 1 1 2

abbrev a1 : PageTouch
a1 = touch 0 0 3

abbrev a2 : PageTouch
a2 = touch 0 1 4

u1-Fits : Fits u1
u1-Fits = touch-Fits 1 0 1 (omega arith)

u2-Fits : Fits u2
u2-Fits = touch-Fits 1 1 2 (omega arith)

decode-encode_page_record_example :
    (encode_page_record 1 5 (fill 0) (fill 1) >>= decode_page_record) ≡ ok u1
decode-encode_page_record_example = decode-encode_page_record u1 u1-Fits

abbrev images : Images
images = record { committed_after = (5, fill 2) ∷ []; unknown_before = (4, fill 1) ∷ [] }

images-Restorable : Restorable images 6
images-Restorable = record {
  after_distinct = (unfold lookup in refl, tt);
  after_in = (omega arith, omega arith, length-replicate page_size 2, tt);
  before_distinct = (unfold lookup in refl, tt);
  before_in = (omega arith, omega arith, length-replicate page_size 1, tt);
}

abbrev unfinished : List WalRecord
unfinished = begin_record 1 1 ∷ page_entry 2 u1 ∷ page_entry 3 u2 ∷ []

unfinished-Represents : Represents checksum (wal_of unfinished) unfinished
unfinished-Represents = record {
  file = refl;
  numbered = (
    refl,
    id_Fits 1 1 1 (omega arith) (omega arith),
    (
      refl,
      entry_Fits 2 u1 (omega arith) u1-Fits,
      (refl, entry_Fits 3 u2 (omega arith) u2-Fits, tt),
    ),
  );
  next = refl;
  is_open = refl;
}

replay_lem_example :
    ((s : Stats) × ((replay checksum (wal_of unfinished) sample).0 ≡ ok s))
    × (read_page (replay checksum (wal_of unfinished) sample).1 5
        ≡ image_or
            (or_else
              (last_after (twice 1 u1 u2).tx_state 5 (twice 1 u1 u2).page_touches)
              (first_before (twice 1 u1 u2).tx_state 5 (twice 1 u1 u2).page_touches))
            (read_page sample 5))
    × IsValid (replay checksum (wal_of unfinished) sample).1
    × ((replay checksum (wal_of unfinished) sample).1.num_pages ≡ 6)
replay_lem_example =
    replay_lem checksum (wal_of unfinished) (twice 1 u1 u2) sample 5 sample-IsValid
      (analyse-Represents checksum (wal_of unfinished) unfinished unfinished-Represents
        ∙ analyse-twice 1 u1 u2 (omega arith) u1-Fits u2-Fits)
      (unfold insert in (omega arith, omega arith, u2-Fits.before, u2-Fits.after, tt)) (omega arith)

replay_idempotent_example :
    read_page
      (replay checksum (wal_of unfinished) (replay checksum (wal_of unfinished) sample).1).1
      5
    ≡ read_page (replay checksum (wal_of unfinished) sample).1 5
replay_idempotent_example =
    replay_idempotent checksum (wal_of unfinished) (twice 1 u1 u2) sample 5 sample-IsValid
      (analyse-Represents checksum (wal_of unfinished) unfinished unfinished-Represents
        ∙ analyse-twice 1 u1 u2 (omega arith) u1-Fits u2-Fits)
      (rw (images_of-twice 1 5 u1 u2 (omega arith) refl refl refl refl) tt)
      (rw (images_of-twice 1 5 u1 u2 (omega arith) refl refl refl refl)
        (omega arith, omega arith, u2-Fits.before, tt))
      (omega arith)

undo_intermediate_example : read_page (replay checksum (wal_of unfinished) sample).1 5 ≡ ok (fill 1)
undo_intermediate_example =
    undo_intermediate checksum (wal_of unfinished) sample 1 5 u1 u2 unfinished-Represents
      sample-IsValid (omega arith) (omega arith) u1-Fits u2-Fits refl refl refl refl (omega arith)
      (omega arith)

abbrev two_sessions : List WalRecord
two_sessions = begin_record 1 1 ∷ page_entry 2 u1 ∷ begin_record 3 1 ∷ commit_record 4 1 ∷ []

two_sessions-Represents : Represents checksum (wal_of two_sessions) two_sessions
two_sessions-Represents = record {
  file = refl;
  numbered = (
    refl,
    id_Fits 1 1 1 (omega arith) (omega arith),
    (
      refl,
      entry_Fits 2 u1 (omega arith) u1-Fits,
      (
        refl,
        id_Fits 3 1 1 (omega arith) (omega arith),
        (refl, id_Fits 4 2 1 (omega arith) (omega arith), tt),
      ),
    ),
  );
  next = refl;
  is_open = refl;
}

reused_id_example : read_page (replay checksum (wal_of two_sessions) sample).1 5 ≡ ok (fill 1)
reused_id_example =
    reused_id checksum (wal_of two_sessions) sample 1 u1 two_sessions-Represents sample-IsValid
      (omega arith) u1-Fits refl (omega arith) (omega arith)

abbrev mixed : List WalRecord
mixed =
    page_entry 1 a1 ∷ begin_record 2 1 ∷ page_entry 3 u1 ∷ commit_record 4 1 ∷ page_entry 5 a2 ∷ []

a1-Fits : Fits a1
a1-Fits = touch-Fits 0 0 3 (omega arith)

a2-Fits : Fits a2
a2-Fits = touch-Fits 0 1 4 (omega arith)

mixed-Represents : Represents checksum (wal_of mixed) mixed
mixed-Represents = record {
  file = refl;
  numbered = (
    refl,
    entry_Fits 1 a1 (omega arith) a1-Fits,
    (
      refl,
      id_Fits 2 1 1 (omega arith) (omega arith),
      (
        refl,
        entry_Fits 3 u1 (omega arith) u1-Fits,
        (
          refl,
          id_Fits 4 2 1 (omega arith) (omega arith),
          (refl, entry_Fits 5 a2 (omega arith) a2-Fits, tt),
        ),
      ),
    ),
  );
  next = refl;
  is_open = refl;
}

autocommit_lost_example : read_page (replay checksum (wal_of mixed) sample).1 5 ≡ ok (fill 1)
autocommit_lost_example =
    autocommit_lost checksum (wal_of mixed) sample 1 a1 u1 a2 mixed-Represents sample-IsValid
      (omega arith) (omega arith) a1-Fits u1-Fits a2-Fits refl refl refl refl refl (omega arith)
      (omega arith)
