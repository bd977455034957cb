-- ===== src/Tx/Wal/Total.antt =====
-- The loops of src/tinydb/tx/wal.py on any file, and on a damaged frame.
use mathlib.Core.List.{append_assoc}
use tinydb.Base.{
  ℕ, zero, suc, ◌+◌, ◌≤◌, ◌<◌, ◌≡◌, ◌≢◌, ◌∙◌, inl, inr, Bool, false, none, List, [], ◌∷◌, ◌++◌,
  arith, length, take, drop, ltb, if◌then◌else◌, length-take, length-drop, length-append,
  ne→==_false, Bool-cases,
}
use tinydb.Bytes.{ByteString, le_value}
use tinydb.Tx.Wal.{
  WalRecord, Wal, stuck, corrupt, unpack_header, iter_loop, iter_from, recover_loop, recover_lsn,
  open_wal, crc32,
}
use tinydb.Tx.Wal.Frames.{
  Fits, header_bytes, length-header_bytes, unpack-header_bytes, frame_bytes, frames,
  length-frame_bytes, iter_frame, iter_step,
}
use tinydb.Tx.Wal.Log.{Numbered, from_lsn}
use tinydb.Tx.Wal.Durability.{at_least_one}

module _ (zlib_crc32 : ByteString → ℕ) where
  iter_loop_total :
      (fuel lsn offset : ℕ) (rest : ByteString)
      → length rest < fuel
      → (iter_loop zlib_crc32 fuel lsn offset rest).1 ≢ stuck
  unfolding iter_loop
  iter_loop_total zero lsn offset rest h = absurd (omega arith)
  iter_loop_total (suc fuel) lsn offset rest h =
      let l = (unpack_header (take 13 rest)).2 in
      let after = drop 4 (drop l (drop 13 rest)) in
      ground (
        arith,
        length-take 13 rest,
        length-drop 13 rest,
        length-drop l (drop 13 rest),
        length-drop 4 (drop l (drop 13 rest)),
        iter_loop_total fuel lsn (offset + 13 + l + 4) after,
      )

  recover_loop_total :
      (fuel n : ℕ) (rest : ByteString)
      → length rest < fuel
      → recover_loop zlib_crc32 fuel n rest ≢ none
  unfolding recover_loop
  recover_loop_total zero n rest h = absurd (omega arith)
  recover_loop_total (suc fuel) n rest h =
      let l = (unpack_header (take 13 rest)).2 in
      let after = drop (l + 4) (drop 13 rest) in
      ground (
        arith,
        length-take 13 rest,
        length-drop 13 rest,
        length-drop (l + 4) (drop 13 rest),
        recover_loop_total fuel (n + 1) after,
      )

  -- On every file, whatever its bytes, opening the log ends, and so does reading it: the fuel of
  -- the loops is never used up.
  pub wal_total :
      (w : Wal) (lsn : ℕ) (use_lock available : Bool)
      → (open_wal zlib_crc32 w.file use_lock available ≢ none)
        × ((iter_from zlib_crc32 w lsn).1 ≢ stuck)
  unfolding open_wal recover_lsn iter_from
  wal_total w lsn use_lock available =
      let opens = recover_loop_total (suc (length w.file)) 1 w.file (omega arith) in
      let start = if ltb lsn 1 then 1 else lsn in
      let ends = iter_loop_total (suc (length w.file)) start 0 w.file (omega arith) in
      (ground arith, elim (Bool-cases w.closed) [ inl c ↦ rw c (λ e. cc) | inr c ↦ rw c ends ])

  corrupt_loop :
      (fuel lsn offset n : ℕ) (rs : List WalRecord) (r : WalRecord) (stored tail : ByteString)
      → Numbered n rs
      → Fits r
      → length stored ≡ 4
      → crc32 zlib_crc32 (header_bytes r ++ r.payload) ≢ le_value stored
      → length rs < fuel
      → iter_loop zlib_crc32 fuel lsn offset
          (frames zlib_crc32 rs ++ (header_bytes r ++ (r.payload ++ (stored ++ tail))))
        ≡ (from_lsn lsn rs, corrupt (offset + length (frames zlib_crc32 rs)))
  unfolding frames from_lsn
  corrupt_loop zero lsn offset n rs r stored tail h f ls bad lt = absurd (omega arith)
  corrupt_loop (suc fuel) lsn offset n [] r stored tail h f ls bad lt =
      rw
        (
          iter_step zlib_crc32 fuel lsn offset r.lsn r.type (header_bytes r) r.payload stored tail
              (length-header_bytes r) ls (unpack-header_bytes r f),
          ne→==_false _ _ bad,
        )
        (ground arith)
  corrupt_loop (suc fuel) lsn offset n (x ∷ rs) r stored tail h f ls bad lt =
      let fr = frame_bytes zlib_crc32 x in
      let more = frames zlib_crc32 rs in
      let rest = header_bytes r ++ (r.payload ++ (stored ++ tail)) in
      let ih =
        corrupt_loop fuel lsn (offset + 13 + length x.payload + 4) (suc n) rs r stored tail h.2 f ls
          bad (omega arith) in
      rw (append_assoc fr more rest, iter_frame zlib_crc32 fuel lsn offset x (more ++ rest) h.1, ih)
        (ground (arith, length-append fr more, length-frame_bytes zlib_crc32 x))

  length-frames : (rs : List WalRecord) → length rs ≤ length (frames zlib_crc32 rs)
  unfolding frames
  length-frames [] = omega arith
  length-frames (r ∷ rs) =
      let f = frame_bytes zlib_crc32 r in
      omega (
        arith,
        length-frames rs,
        length-append f (frames zlib_crc32 rs),
        length-frame_bytes zlib_crc32 r,
      )

  -- An open log whose file has the whole frames of records numbered from 1, then a frame whose
  -- stored checksum is not that of its header and payload, and then anything: the iteration
  -- yields the records before the frame and raises with its offset.
  pub corrupt_frame :
      (w : Wal) (lsn : ℕ) (rs : List WalRecord) (r : WalRecord) (stored tail : ByteString)
      → w.file ≡ frames zlib_crc32 rs ++ (header_bytes r ++ (r.payload ++ (stored ++ tail)))
      → w.closed ≡ false
      → Numbered 1 rs
      → Fits r
      → length stored ≡ 4
      → crc32 zlib_crc32 (header_bytes r ++ r.payload) ≢ le_value stored
      → iter_from zlib_crc32 w lsn
        ≡ (from_lsn (at_least_one lsn) rs, corrupt (length (frames zlib_crc32 rs)))
  unfolding iter_from
  corrupt_frame w lsn rs r stored tail file is_open h f ls bad =
      let damaged = header_bytes r ++ (r.payload ++ (stored ++ tail)) in
      let all = frames zlib_crc32 rs ++ damaged in
      let enough : length rs < suc (length all) =
        omega (arith, length-frames rs, length-append (frames zlib_crc32 rs) damaged) in
      rw (is_open, file)
        (corrupt_loop (suc (length all)) (at_least_one lsn) 0 1 rs r stored tail h f ls bad enough
          ∙ ground arith)
