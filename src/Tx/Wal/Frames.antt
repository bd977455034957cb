-- ===== src/Tx/Wal/Frames.antt =====
-- The bytes of a frame, and one round of each loop of src/tinydb/tx/wal.py over a whole frame.
use mathlib.Core.List.{append_assoc}
use tinydb.Base.{
  ℕ, suc, ◌+◌, ◌^◌, ◌<◌, ◌≡◌, refl, true, not, some, List, [], ◌∷◌, ◌++◌, arith, length, take, drop,
  leb, ◌==◌, if◌then◌else◌, length-append, take-append, drop-append, ok, le→ltb_false, eq→==,
}
use tinydb.Bytes.{ByteString, be_bytes, le_bytes, le_value}
use tinydb.Bytes.Laws.{
  length-be_bytes, length-le_bytes, be_value-be_bytes, le_value-le_bytes, pack_be_ok,
}
use tinydb.Tx.Wal.{
  WalRecord, corrupt, pack_header, unpack_header, crc32, iter_loop, recover_loop, truncate_loop,
  cut,
}

-- The fields of a record fit their places in the header.
pub record Fits (r : WalRecord) : Type 0 where
  pub lsn : r.lsn < 256 ^ 8
  pub type : r.type < 256 ^ 1
  pub payload : length r.payload < 256 ^ 4

unfoldable pub header_bytes : WalRecord → ByteString
header_bytes r = be_bytes 8 r.lsn ++ (be_bytes 1 r.type ++ be_bytes 4 (length r.payload))

pub length-header_bytes : (r : WalRecord) → length (header_bytes r) ≡ 13
unfolding header_bytes
length-header_bytes r = omega (
  arith,
  length-append (be_bytes 8 r.lsn) (be_bytes 1 r.type ++ be_bytes 4 (length r.payload)),
  length-append (be_bytes 1 r.type) (be_bytes 4 (length r.payload)),
  length-be_bytes 8 r.lsn,
  length-be_bytes 1 r.type,
  length-be_bytes 4 (length r.payload),
)

pub pack_header_ok :
    (r : WalRecord) → Fits r → pack_header r.lsn r.type (length r.payload) ≡ ok (header_bytes r)
unfolding pack_header header_bytes
pack_header_ok r h =
    rw (pack_be_ok 8 r.lsn h.lsn, pack_be_ok 1 r.type h.type, pack_be_ok 4 _ h.payload)

drop-drop_header : (a b c : ByteString) → length a ≡ 8 → length b ≡ 1 → drop 9 (a ++ (b ++ c)) ≡ c
drop-drop_header a b c ha hb =
    rw (← append_assoc a b c) (drop-append 9 (a ++ b) c (omega (arith, length-append a b)))

-- The header is read back.
pub unpack-header_bytes :
    (r : WalRecord) → Fits r → unpack_header (header_bytes r) ≡ (r.lsn, r.type, length r.payload)
unfolding unpack_header header_bytes
unpack-header_bytes r h =
    let a = be_bytes 8 r.lsn in
    let b = be_bytes 1 r.type in
    let c = be_bytes 4 (length r.payload) in
    rw (
      take-append 8 a (b ++ c) (omega (arith, length-be_bytes 8 r.lsn)),
      drop-append 8 a (b ++ c) (omega (arith, length-be_bytes 8 r.lsn)),
      take-append 1 b c (omega (arith, length-be_bytes 1 r.type)),
      drop-drop_header a b c (length-be_bytes 8 r.lsn) (length-be_bytes 1 r.type),
      be_value-be_bytes 8 r.lsn h.lsn,
      be_value-be_bytes 1 r.type h.type,
      be_value-be_bytes 4 (length r.payload) h.payload,
    )

module _ (zlib_crc32 : ByteString → ℕ) where
  -- One round of `iter_from` on a header, a payload of the length that it names, and a checksum.
  pub iter_step :
      (fuel lsn offset l t : ℕ) (h p c tail : ByteString)
      → length h ≡ 13
      → length c ≡ 4
      → unpack_header h ≡ (l, t, length p)
      → iter_loop zlib_crc32 (suc fuel) lsn offset (h ++ (p ++ (c ++ tail))) ≡ (
          let more = iter_loop zlib_crc32 fuel lsn (offset + 13 + length p + 4) tail in
          let one : WalRecord = record { lsn = l; type = t; payload = p } in
          if not (crc32 zlib_crc32 (h ++ p) == le_value c)
          then ([], corrupt offset)
          else if leb lsn l
          then (one ∷ more.0, more.1)
          else more)
  unfolding iter_loop
  iter_step fuel lsn offset l t h p c tail hh hc e = rw (
    take-append 13 h (p ++ (c ++ tail)) (omega arith),
    drop-append 13 h (p ++ (c ++ tail)) (omega arith),
    e,
    take-append (length p) p (c ++ tail) refl,
    drop-append (length p) p (c ++ tail) refl,
    take-append 4 c tail (omega arith),
    drop-append 4 c tail (omega arith),
    hh,
    hc,
    le→ltb_false (length p) (length p) (omega arith),
  )

  unfoldable pub body_bytes : WalRecord → ByteString
  body_bytes r = header_bytes r ++ r.payload

  -- A frame as `append` writes it, and a file of frames.
  unfoldable pub frame_bytes : WalRecord → ByteString
  frame_bytes r = body_bytes r ++ le_bytes 4 (crc32 zlib_crc32 (body_bytes r))

  unfoldable pub frames : List WalRecord → ByteString
  frames [] = []
  frames (r ∷ rs) = frame_bytes r ++ frames rs

  pub length-frame_bytes : (r : WalRecord) → length (frame_bytes r) ≡ 17 + length r.payload
  unfolding frame_bytes body_bytes
  length-frame_bytes r = omega (
    arith,
    length-append (body_bytes r) (le_bytes 4 (crc32 zlib_crc32 (body_bytes r))),
    length-append (header_bytes r) r.payload,
    length-header_bytes r,
    length-le_bytes 4 (crc32 zlib_crc32 (body_bytes r)),
  )

  -- A frame and what follows, cut as the loops read it.
  frame_split :
      (r : WalRecord) (tail : ByteString)
      → frame_bytes r ++ tail
        ≡ header_bytes r ++ (r.payload ++ (le_bytes 4 (crc32 zlib_crc32 (body_bytes r)) ++ tail))
  unfolding frame_bytes body_bytes
  frame_split r tail = simp append_assoc

  crc32-fits : (b : ByteString) → crc32 zlib_crc32 b < 256 ^ 4
  unfolding crc32
  crc32-fits b = omega arith

  checksum_matches :
      (r : WalRecord)
      → (crc32 zlib_crc32 (header_bytes r ++ r.payload)
          == le_value (le_bytes 4 (crc32 zlib_crc32 (body_bytes r))))
        ≡ true
  unfolding body_bytes
  checksum_matches r =
      let b = header_bytes r ++ r.payload in
      rw (le_value-le_bytes 4 (crc32 zlib_crc32 b) (crc32-fits b))
        (eq→== (crc32 zlib_crc32 b) (crc32 zlib_crc32 b) refl)

  -- One round of `iter_from` over a frame that was written whole.
  pub iter_frame :
      (fuel lsn offset : ℕ) (r : WalRecord) (tail : ByteString)
      → Fits r
      → iter_loop zlib_crc32 (suc fuel) lsn offset (frame_bytes r ++ tail) ≡ (
          let more = iter_loop zlib_crc32 fuel lsn (offset + 13 + length r.payload + 4) tail in
          if leb lsn r.lsn then (r ∷ more.0, more.1) else more)
  iter_frame fuel lsn offset r tail h = rw (
    frame_split r tail,
    iter_step fuel lsn offset r.lsn r.type (header_bytes r) r.payload
        (le_bytes 4 (crc32 zlib_crc32 (body_bytes r))) tail (length-header_bytes r)
        (length-le_bytes 4 _) (unpack-header_bytes r h),
    checksum_matches r,
  )

  -- One round of `_recover_lsn`.
  pub recover_frame :
      (fuel next : ℕ) (r : WalRecord) (tail : ByteString)
      → Fits r
      → recover_loop zlib_crc32 (suc fuel) next (frame_bytes r ++ tail)
        ≡ (if r.lsn == next then recover_loop zlib_crc32 fuel (next + 1) tail else some next)
  unfolding recover_loop
  recover_frame fuel next r tail h =
      let c = le_bytes 4 (crc32 zlib_crc32 (body_bytes r)) in
      let p = r.payload in
      let hb = header_bytes r in
      rw
        (
          frame_split r tail,
          take-append 13 hb (p ++ (c ++ tail)) (omega (arith, length-header_bytes r)),
          drop-append 13 hb (p ++ (c ++ tail)) (omega (arith, length-header_bytes r)),
          unpack-header_bytes r h,
          ← append_assoc p c tail,
          take-append (length p + 4) (p ++ c) tail (
              omega
                (arith, length-append p c, length-le_bytes 4 (crc32 zlib_crc32 (body_bytes r)))),
          drop-append (length p + 4) (p ++ c) tail (
              omega
                (arith, length-append p c, length-le_bytes 4 (crc32 zlib_crc32 (body_bytes r)))),
          take-append (length p) p c refl,
          drop-append (length p) p c refl,
          length-header_bytes r,
          length-append p c,
          length-le_bytes 4 (crc32 zlib_crc32 (body_bytes r)),
          le→ltb_false (length p + 4) (length p + 4) (omega arith),
          checksum_matches r,
        )
        (ground arith)

  -- One round of `truncate_to`.
  pub truncate_frame :
      (fuel lsn offset : ℕ) (r : WalRecord) (tail : ByteString)
      → Fits r
      → truncate_loop (suc fuel) lsn offset (frame_bytes r ++ tail) ≡ (
          if leb lsn r.lsn
          then cut offset
          else truncate_loop fuel lsn (offset + (13 + 4 + length r.payload)) tail)
  unfolding truncate_loop
  truncate_frame fuel lsn offset r tail h =
      let c = le_bytes 4 (crc32 zlib_crc32 (body_bytes r)) in
      let p = r.payload in
      let hb = header_bytes r in
      rw (
        frame_split r tail,
        take-append 13 hb (p ++ (c ++ tail)) (omega (arith, length-header_bytes r)),
        drop-append 13 hb (p ++ (c ++ tail)) (omega (arith, length-header_bytes r)),
        unpack-header_bytes r h,
        ← append_assoc p c tail,
        drop-append (length p + 4) (p ++ c) tail
            (omega (arith, length-append p c, length-le_bytes 4 (crc32 zlib_crc32 (body_bytes r)))),
        length-header_bytes r,
      )

  -- The start of a frame is its header.
  pub take-frame_bytes : (r : WalRecord) → take 13 (frame_bytes r) ≡ header_bytes r
  unfolding frame_bytes body_bytes
  take-frame_bytes r =
      let c = le_bytes 4 (crc32 zlib_crc32 (body_bytes r)) in
      rw append_assoc
        (take-append 13 (header_bytes r) (r.payload ++ c) (omega (arith, length-header_bytes r)))
