-- ===== src/Tx/Wal/Log.antt =====
-- The list of records that a log of src/tinydb/tx/wal.py stands for, and the loops over it.
use mathlib.Core.List.{append-nil, append_assoc}
use native.Mathlib.Numerals.{add-one}
use tinydb.Base.{
  ℕ, zero, suc, ◌+◌, ◌<◌, ◌≡◌, refl, ap, ◌∙◌, sym, false, some, List, [], ◌∷◌, ◌++◌, arith, length,
  take, leb, ◌==◌, if◌then◌else◌, length-append, le→leb, lt→leb_false, eq→==,
}
use tinydb.Bytes.{ByteString}
use tinydb.Tx.Wal.{
  WalRecord, Wal, Ending, clean, torn, iter_loop, recover_loop, truncate_loop, cut, end_of_file,
}
use tinydb.Tx.Wal.Frames.{
  Fits, frame_bytes, frames, length-frame_bytes, iter_frame, recover_frame, truncate_frame,
}
use tinydb.Tx.Wal.Torn.{IsTorn, iter_torn, recover_torn}

-- Records with consecutive LSNs from `n` on, that fit their frames.
abbrev pub Numbered : ℕ → List WalRecord → Type 0
Numbered n [] = Unit
Numbered n (r ∷ rs) = (r.lsn ≡ n) × Fits r × Numbered (suc n) rs

-- `[r for r in rs if r.lsn >= lsn]`
unfoldable pub from_lsn : ℕ → List WalRecord → List WalRecord
from_lsn lsn [] = []
from_lsn lsn (r ∷ rs) = let rest = from_lsn lsn rs in if leb lsn r.lsn then r ∷ rest else rest

-- How reading such a file ends.
abbrev pub ending_of : ByteString → Ending
ending_of tail = if length tail == 0 then clean else torn

pub Numbered-append :
    (n : ℕ) (rs : List WalRecord) (r : WalRecord)
    → Numbered n rs
    → r.lsn ≡ n + length rs
    → Fits r
    → Numbered n (rs ++ (r ∷ []))
Numbered-append n [] r h e f = (omega arith, f, tt)
Numbered-append n (x ∷ rs) r h e f = (h.0, h.1, Numbered-append (suc n) rs r h.2 (omega arith) f)

pub Numbered-prefix : (n : ℕ) (rs ss : List WalRecord) → Numbered n (rs ++ ss) → Numbered n rs
Numbered-prefix n [] ss h = tt
Numbered-prefix n (r ∷ rs) ss h = (h.0, h.1, Numbered-prefix (suc n) rs ss h.2)

module _ (zlib_crc32 : ByteString → ℕ) where
  pub frames-append :
      (rs ss : List WalRecord)
      → frames zlib_crc32 (rs ++ ss) ≡ frames zlib_crc32 rs ++ frames zlib_crc32 ss
  unfolding frames
  frames-append [] ss = refl
  frames-append (x ∷ rs) ss =
      ap (λ (t : ByteString). frame_bytes zlib_crc32 x ++ t) (frames-append rs ss)
      ∙ sym (append_assoc (frame_bytes zlib_crc32 x) (frames zlib_crc32 rs) (frames zlib_crc32 ss))

  pub frames_one : (r : WalRecord) → frames zlib_crc32 (r ∷ []) ≡ frame_bytes zlib_crc32 r
  unfolding frames
  frames_one r = append-nil (frame_bytes zlib_crc32 r)

  -- An open handle on a file of these records, and nothing else.
  pub record Represents (w : Wal) (rs : List WalRecord) : Type 0 where
    pub file : w.file ≡ frames zlib_crc32 rs
    pub numbered : Numbered 1 rs
    pub next : w.next_lsn ≡ suc (length rs)
    pub is_open : w.closed ≡ false

  pub iter_records :
      (fuel lsn offset n : ℕ) (rs : List WalRecord) (tail : ByteString)
      → Numbered n rs
      → IsTorn tail
      → length (frames zlib_crc32 rs ++ tail) < fuel
      → iter_loop zlib_crc32 fuel lsn offset (frames zlib_crc32 rs ++ tail)
        ≡ (from_lsn lsn rs, ending_of tail)
  unfolding frames from_lsn
  iter_records zero lsn offset n rs tail h t lt = absurd (omega arith)
  iter_records (suc fuel) lsn offset n [] tail h t lt = iter_torn zlib_crc32 fuel lsn offset tail t
  iter_records (suc fuel) lsn offset n (r ∷ rs) tail h t lt =
      let f = frame_bytes zlib_crc32 r in
      let more = frames zlib_crc32 rs in
      let ih = iter_records fuel lsn (offset + 13 + length r.payload + 4) (suc n) rs tail h.2 t (
        omega (
          arith,
          lt,
          length-append (f ++ more) tail,
          length-append f more,
          length-append more tail,
          length-frame_bytes zlib_crc32 r,
        )) in
      rw (append_assoc f more tail, iter_frame zlib_crc32 fuel lsn offset r (more ++ tail) h.1, ih)
        (ground arith)

  pub recover_records :
      (fuel n : ℕ) (rs : List WalRecord) (tail : ByteString)
      → Numbered n rs
      → IsTorn tail
      → length (frames zlib_crc32 rs ++ tail) < fuel
      → recover_loop zlib_crc32 fuel n (frames zlib_crc32 rs ++ tail) ≡ some (n + length rs)
  unfolding frames
  recover_records zero n rs tail h t lt = absurd (omega arith)
  recover_records (suc fuel) n [] tail h t lt =
      recover_torn zlib_crc32 fuel n tail t ∙ ap some (omega arith)
  recover_records (suc fuel) n (r ∷ rs) tail h t lt =
      let f = frame_bytes zlib_crc32 r in
      let more = frames zlib_crc32 rs in
      let ih = recover_records fuel (suc n) rs tail h.2 t (
        omega (
          arith,
          lt,
          length-append (f ++ more) tail,
          length-append f more,
          length-append more tail,
          length-frame_bytes zlib_crc32 r,
        )) in
      rw
        (
          append_assoc f more tail,
          recover_frame zlib_crc32 fuel n r (more ++ tail) h.1,
          eq→== r.lsn n h.0,
          add-one,
          ih,
        )
        (ap some (omega arith))

  pub truncate_records :
      (fuel n offset : ℕ) (rs ss : List WalRecord) (lsn : ℕ)
      → Numbered n (rs ++ ss)
      → lsn ≡ n + length rs
      → length (frames zlib_crc32 (rs ++ ss)) < fuel
      → truncate_loop fuel lsn offset (frames zlib_crc32 (rs ++ ss))
        ≡ (if length ss == 0 then end_of_file else cut (offset + length (frames zlib_crc32 rs)))
  unfolding frames
  truncate_records zero n offset rs ss lsn h e lt = absurd (omega arith)
  truncate_records (suc fuel) n offset [] [] lsn h e lt = unfold truncate_loop take in refl
  truncate_records (suc fuel) n offset [] (s ∷ ss) lsn h e lt =
      rw
        (
          truncate_frame zlib_crc32 fuel lsn offset s (frames zlib_crc32 ss) h.1,
          le→leb lsn s.lsn (omega arith),
        )
        (ground arith)
  truncate_records (suc fuel) n offset (r ∷ rs) ss lsn h e lt =
      let f = frame_bytes zlib_crc32 r in
      let lf = length-frame_bytes zlib_crc32 r in
      let ih =
        truncate_records fuel (suc n) (offset + (13 + 4 + length r.payload)) rs ss lsn h.2
          (omega arith) (omega (arith, lt, length-append f (frames zlib_crc32 (rs ++ ss)), lf)) in
      rw
        (
          truncate_frame zlib_crc32 fuel lsn offset r (frames zlib_crc32 (rs ++ ss)) h.1,
          lt→leb_false lsn r.lsn (omega arith),
          ih,
        )
        (ground (arith, length-append f (frames zlib_crc32 rs), lf))
