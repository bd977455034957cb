-- ===== src/Tx/Wal/Torn.antt =====
-- The tail that a crash in the middle of an append leaves, under the loops of
-- src/tinydb/tx/wal.py.
use tinydb.Base.{
  ℕ, suc, ◌+◌, ◌≤◌, ◌<◌, ◌≡◌, ◌⊎◌, inl, inr, ap, ◌∙◌, some, [], arith, length, take, drop, ◌==◌,
  if◌then◌else◌, length-take, length-drop, take-take,
}
use tinydb.Bytes.{ByteString}
use tinydb.Tx.Wal.{WalRecord, clean, torn, unpack_header, iter_loop, recover_loop}
use tinydb.Tx.Wal.Frames.{Fits, unpack-header_bytes, frame_bytes, take-frame_bytes}

-- The length of the payload that the first 13 bytes announce.
abbrev pub announced : ByteString → ℕ
announced tail = (unpack_header (take 13 tail)).2

-- Too short for a frame with that payload.
abbrev pub IsTorn : ByteString → Type 0
IsTorn tail = length tail < 17 + announced tail

module _ (zlib_crc32 : ByteString → ℕ) where
  pub iter_torn :
      (fuel lsn offset : ℕ) (tail : ByteString)
      → IsTorn tail
      → iter_loop zlib_crc32 (suc fuel) lsn offset tail
        ≡ ([], if length tail == 0 then clean else torn)
  unfolding iter_loop
  iter_torn fuel lsn offset tail h = ground (
    arith,
    length-take 13 tail,
    length-drop 13 tail,
    length-take (announced tail) (drop 13 tail),
    length-drop (announced tail) (drop 13 tail),
    length-take 4 (drop (announced tail) (drop 13 tail)),
  )

  pub recover_torn :
      (fuel next : ℕ) (tail : ByteString)
      → IsTorn tail
      → recover_loop zlib_crc32 (suc fuel) next tail ≡ some next
  unfolding recover_loop
  recover_torn fuel next tail h = ground (
    arith,
    length-take 13 tail,
    length-drop 13 tail,
    length-take (announced tail + 4) (drop 13 tail),
  )

  announced-take :
      (k : ℕ) (r : WalRecord)
      → Fits r
      → 13 ≤ k
      → announced (take k (frame_bytes zlib_crc32 r)) ≡ length r.payload
  announced-take k r h long =
      ap (λ (x : ByteString). (unpack_header x).2)
        (take-take 13 k (frame_bytes zlib_crc32 r) long ∙ take-frame_bytes zlib_crc32 r)
      ∙ ap (λ (x : ℕ × ℕ × ℕ). x.2) (unpack-header_bytes r h)

  -- Any proper start of a frame is torn.
  pub take-IsTorn :
      (k : ℕ) (r : WalRecord)
      → Fits r
      → k < 17 + length r.payload
      → IsTorn (take k (frame_bytes zlib_crc32 r))
  take-IsTorn k r h lt = elim (split k) [
    | inl short ↦ omega (arith, length-take k (frame_bytes zlib_crc32 r))
    | inr long ↦ omega (arith, length-take k (frame_bytes zlib_crc32 r), announced-take k r h long)
  ]
    where
      split : (n : ℕ) → (n < 13) ⊎ (13 ≤ n)
      split n = omega arith
