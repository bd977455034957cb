-- ===== src/Protocol/Frame/Wire.antt =====
-- The bytes of a frame of src/tinydb/protocol/frame.py.
use mathlib.Core.List.{append_assoc}
use tinydb.Base.{
  ℕ, ◌+◌, ◌≤◌, ◌<◌, ◌≡◌, refl, sym, ◌∙◌, ap, ◌∷◌, ◌++◌, [], arith, length, take, drop, get_or, ok,
  ◌>>=◌, length-append, take-append, drop-append_add, le→ltb_false, suc, zero,
}
use tinydb.Bytes.{ByteString, be_bytes, be_value}
use tinydb.Bytes.Laws.{length-be_bytes, be_value-be_bytes, pack_be_ok}
use tinydb.Protocol.Frame.{Frame, max_frame_len, make_frame, two_bytes, to_bytes, from_bytes}

-- What the constructor makes from a payload that a frame can hold.
pub record IsFrame (f : Frame) : Type 0 where
  pub counted : f.len ≡ length f.payload
  pub bounded : length f.payload ≤ max_frame_len
  pub type : f.type < 256
  pub flags : f.flags < 256

-- The bytes of a frame.
unfoldable pub wire : Frame → ByteString
wire f = be_bytes 4 (length f.payload) ++ (f.type ∷ f.flags ∷ f.payload)

pub length-wire : (f : Frame) → length (wire f) ≡ 6 + length f.payload
unfolding wire
length-wire f = omega (
  arith,
  length-append (be_bytes 4 (length f.payload)) (f.type ∷ f.flags ∷ f.payload),
  length-be_bytes 4 (length f.payload),
)

pub to_bytes-wire : (f : Frame) → IsFrame f → to_bytes f ≡ ok (wire f)
unfolding to_bytes two_bytes wire
to_bytes-wire f h =
    rw
      (
        le→ltb_false max_frame_len (length f.payload) h.bounded,
        pack_be_ok 4 (length f.payload) (omega (arith, h.bounded)),
        le→ltb_false 255 f.type (omega (arith, h.type)),
        le→ltb_false 255 f.flags (omega (arith, h.flags)),
      )
      (ap ok (append_assoc (be_bytes 4 (length f.payload)) (f.type ∷ f.flags ∷ []) f.payload))

-- The length field of bytes that start with a frame.
pub wire_len :
    (f : Frame) (rest : ByteString)
    → IsFrame f
    → be_value (take 4 (wire f ++ rest)) ≡ length f.payload
unfolding wire
wire_len f rest h =
    let l = be_bytes 4 (length f.payload) in
    let body = f.type ∷ f.flags ∷ f.payload in
    rw
      (
        append_assoc l body rest,
        take-append 4 l (body ++ rest) (sym (length-be_bytes 4 (length f.payload))),
      )
      (be_value-be_bytes 4 (length f.payload) (omega (arith, h.bounded)))

pub get_or-append_add :
    (xs ys : ByteString) (n k : ℕ) → n ≡ length xs + k → get_or (xs ++ ys) n 0 ≡ get_or ys k 0
unfolding get_or
get_or-append_add [] ys n k h = let e : n ≡ k = omega arith in rw e
get_or-append_add (x ∷ xs) ys zero k h = absurd (omega arith)
get_or-append_add (x ∷ xs) ys (suc n) k h = get_or-append_add xs ys n k (omega arith)

wire_codes :
    (a body rest : ByteString) (x y : ℕ)
    → length a ≡ 4
    → (get_or ((a ++ (x ∷ y ∷ body)) ++ rest) 4 0 ≡ x)
      × (get_or ((a ++ (x ∷ y ∷ body)) ++ rest) 5 0 ≡ y)
      × (drop 6 ((a ++ (x ∷ y ∷ body)) ++ rest) ≡ body ++ rest)
wire_codes a body rest x y h =
    let more = x ∷ y ∷ (body ++ rest) in
    rw (append_assoc a (x ∷ y ∷ body) rest) (
      get_or-append_add a more 4 0 (omega arith) ∙ unfold get_or in refl,
      get_or-append_add a more 5 1 (omega arith) ∙ unfold get_or in refl,
      drop-append_add 6 2 a more (omega arith) ∙ unfold drop in refl,
    )

make_frame_lem :
    (f : Frame) → IsFrame f → make_frame (length f.payload) f.type f.flags f.payload ≡ ok f
unfolding make_frame
make_frame_lem f h = ground (arith, h.counted, h.type, h.flags, h.bounded)

-- Bytes that start with a frame decode to the frame, whatever follows.
pub from_bytes-wire :
    (f : Frame) (rest : ByteString) → IsFrame f → from_bytes (wire f ++ rest) ≡ ok f
unfolding from_bytes
from_bytes-wire f rest h =
    let codes =
      wire_codes (be_bytes 4 (length f.payload)) f.payload rest f.type f.flags
        (length-be_bytes 4 (length f.payload)) in
    rw
      (
        wire_len f rest h,
        le→ltb_false (length (wire f ++ rest)) 6
            (omega (arith, length-append (wire f) rest, length-wire f)),
        le→ltb_false (length (wire f ++ rest)) (6 + length f.payload)
            (omega (arith, length-append (wire f) rest, length-wire f)),
        le→ltb_false max_frame_len (length f.payload) h.bounded,
      )
      (unfold wire in
        rw (codes.0, codes.1, codes.2, take-append (length f.payload) f.payload rest refl)
          (make_frame_lem f h))

pub make_frame-IsFrame :
    (len type flags : ℕ) (payload : ByteString) (f : Frame)
    → make_frame len type flags payload ≡ ok f
    → length payload ≤ max_frame_len
    → IsFrame f
unfolding make_frame
make_frame-IsFrame len type flags payload f h le = record {
  counted = ground arith;
  bounded = ground arith;
  type = ground arith;
  flags = ground arith;
}

-- A frame that the constructor made, with a payload of at most 2^24 - 1 bytes, is encoded, and
-- its bytes with anything behind them decode to the frame.
pub from_bytes-to_bytes :
    (len type flags : ℕ) (payload rest : ByteString) (f : Frame)
    → make_frame len type flags payload ≡ ok f
    → length payload ≤ max_frame_len
    → (to_bytes f >>= λ out. from_bytes (out ++ rest)) ≡ ok f
from_bytes-to_bytes len type flags payload rest f h le =
    let good = make_frame-IsFrame len type flags payload f h le in
    rw (to_bytes-wire f good) (from_bytes-wire f rest good)
