-- ===== src/Protocol/Frame.antt =====
-- src/tinydb/protocol/frame.py: one frame, LEN(4B BE) | TYPE(1B) | FLAGS(1B) | PAYLOAD. The fields are
-- natural numbers, so the tests for negative ones have no counterpart.
pub mod Wire
use tinydb.Base.{
  ℕ, ◌+◌, not, ◌&&◌, [], ◌∷◌, ◌++◌, length, take, drop, get_or, ltb, ◌==◌, if◌then◌else◌, Result,
  ok, raise, ◌>>=◌, value_error, protocol_error,
}
use tinydb.Bytes.{ByteString, be_value, pack_be}

-- `MAX_FRAME_LEN`
abbrev pub max_frame_len : ℕ
max_frame_len = 0xFF_FFFF

abbrev pub header_size : ℕ
header_size = 6

pub record Frame : Type 0 where
  pub len : ℕ
  pub type : ℕ
  pub flags : ℕ
  pub payload : ByteString

-- `Frame(…)`, with `__post_init__`
unfoldable pub make_frame : ℕ → ℕ → ℕ → ByteString → Result Frame
make_frame len type flags payload =
    if ltb 0xFF type
    then raise value_error
    else if ltb 0xFF flags
    then raise value_error
    else if ltb max_frame_len len
    then raise value_error
    else if (len == 0) && not (length payload == 0)
    then ok (record { len = length payload; type = type; flags = flags; payload = payload })
    else if not (len == length payload)
    then raise value_error
    else ok (record { len = len; type = type; flags = flags; payload = payload })

-- `bytes([a, b])`
unfoldable pub two_bytes : ℕ → ℕ → Result ByteString
two_bytes a b =
    if ltb 0xFF a
    then raise value_error
    else if ltb 0xFF b
    then raise value_error
    else ok (a ∷ b ∷ [])

unfoldable pub to_bytes : Frame → Result ByteString
to_bytes f = if ltb max_frame_len (length f.payload) then raise protocol_error else (do
  len ← pack_be 4 (length f.payload)
  codes ← two_bytes f.type f.flags
  ok ((len ++ codes) ++ f.payload))

unfoldable pub from_bytes : ByteString → Result Frame
from_bytes data_ =
    let len = be_value (take 4 data_) in
    if ltb (length data_) header_size
    then raise protocol_error
    else if ltb max_frame_len len
    then raise protocol_error
    else if ltb (length data_) (header_size + len)
    then raise protocol_error
    else make_frame len (get_or data_ 4 0) (get_or data_ 5 0) (take len (drop header_size data_))
