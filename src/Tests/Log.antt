-- ===== src/Tests/Log.antt =====
-- The theorems on src/tinydb/tx/wal.py on a log of two records, with a length for the checksum.
use tinydb.Base.{ℕ, ◌≡◌, ◌≢◌, refl, false, none, some, List, [], ◌∷◌, ◌++◌, arith, length, take, ok}
use tinydb.Bytes.{ByteString, be_bytes, le_value}
use tinydb.Tx.Wal.{WalRecord, Wal, corrupt, stuck, append, iter_from, open_wal, truncate_to, crc32}
use tinydb.Tx.Wal.Frames.{Fits, frame_bytes, frames, header_bytes}
use tinydb.Tx.Wal.Log.{Represents, from_lsn, ending_of}
use tinydb.Tx.Wal.Durability.{
  append-Represents, open_after_crash, truncate_to-Represents, at_least_one,
}
use tinydb.Tx.Wal.Total.{wal_total, corrupt_frame}

abbrev checksum : ByteString → ℕ
checksum = length

abbrev first : WalRecord
first = record { lsn = 1; type = 1; payload = 0 ∷ 7 ∷ [] }

abbrev second : WalRecord
second = record { lsn = 2; type = 2; payload = 9 ∷ [] }

abbrev third : WalRecord
third = record { lsn = 3; type = 4; payload = 1 ∷ 2 ∷ 3 ∷ [] }

abbrev two : List WalRecord
two = first ∷ second ∷ []

abbrev wal_of : ByteString → ℕ → Wal
wal_of file next_lsn = record {
  file = file;
  next_lsn = next_lsn;
  closed = false;
  use_process_lock = false;
  lock_available = false;
}

first-Fits : Fits first
first-Fits = record { lsn = omega arith; type = omega arith; payload = omega arith }

second-Fits : Fits second
second-Fits = record { lsn = omega arith; type = omega arith; payload = omega arith }

third-Fits : Fits third
third-Fits = record { lsn = omega arith; type = omega arith; payload = omega arith }

log_Represents : Represents checksum (wal_of (frames checksum two) 3) two
log_Represents = record {
  file = refl;
  numbered = (refl, first-Fits, (refl, second-Fits, tt));
  next = refl;
  is_open = refl;
}

append-Represents_example :
    ((append checksum (wal_of (frames checksum two) 3) 4 (1 ∷ 2 ∷ 3 ∷ [])).0 ≡ ok 3)
    × Represents checksum
        (append checksum (wal_of (frames checksum two) 3) 4 (1 ∷ 2 ∷ 3 ∷ [])).1
        (two ++ (third ∷ []))
append-Represents_example =
    append-Represents checksum (wal_of (frames checksum two) 3) two 4 (1 ∷ 2 ∷ 3 ∷ [])
      log_Represents third-Fits refl

open_after_crash_example :
    (w : Wal) × (open_wal checksum
        (frames checksum two ++ take 15 (frame_bytes checksum third))
        false
        false
      ≡ some w)
    × (w.next_lsn ≡ 3)
    × ((lsn : ℕ)
        → iter_from checksum w lsn
          ≡ (from_lsn (at_least_one lsn) two, ending_of (take 15 (frame_bytes checksum third))))
open_after_crash_example =
    open_after_crash checksum two third 15 false false log_Represents.numbered third-Fits
      (omega arith)

truncate_to-Represents_example :
    ((truncate_to (wal_of (frames checksum two) 3) 2).0 ≡ ok tt)
    × Represents checksum (truncate_to (wal_of (frames checksum two) 3) 2).1 (first ∷ [])
truncate_to-Represents_example =
    truncate_to-Represents checksum (wal_of (frames checksum two) 3) (first ∷ []) (second ∷ [])
      log_Represents

-- The header of a frame whose payload of 100 bytes was not written.
abbrev header_only : ByteString
header_only = 0 ∷ 0 ∷ 0 ∷ 0 ∷ 0 ∷ 0 ∷ 0 ∷ 3 ∷ 4 ∷ 0 ∷ 0 ∷ 0 ∷ 100 ∷ []

wal_total_example :
    (open_wal checksum (1 ∷ 2 ∷ 3 ∷ []) false false ≢ none)
    × ((iter_from checksum (wal_of (1 ∷ 2 ∷ 3 ∷ []) 1) 1).1 ≢ stuck)
wal_total_example = wal_total checksum (wal_of (1 ∷ 2 ∷ 3 ∷ []) 1) 1 false false

abbrev damaged : ByteString
damaged =
    frames checksum (first ∷ [])
    ++ (header_bytes second ++ (second.payload ++ ((1 ∷ 0 ∷ 0 ∷ 0 ∷ []) ++ [])))

corrupt_frame_example :
    iter_from checksum (wal_of damaged 3) 1
    ≡ (from_lsn 1 (first ∷ []), corrupt (length (frames checksum (first ∷ []))))
corrupt_frame_example =
    corrupt_frame checksum (wal_of damaged 3) 1 (first ∷ []) second (1 ∷ 0 ∷ 0 ∷ 0 ∷ []) [] refl
      refl (refl, first-Fits, tt) second-Fits refl
      (λ e. unfold crc32 header_bytes be_bytes le_value in absurd (omega (arith, e)))
