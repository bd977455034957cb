-- ===== src/Protocol/Reader.antt =====
-- src/tinydb/protocol/codec.py: `FrameReader`, which buffers partial data, and `FrameWriter`. A stream
-- is the bytes that it has still to deliver.
pub mod Feed
pub mod Stream
use tinydb.Base.{
  ℕ, zero, suc, ◌+◌, ◌-◌, Bool, true, false, not, Option, none, some, List, [], ◌∷◌, ◌++◌, length,
  take, drop, ltb, ◌==◌, if◌then◌else◌, Result, ok, raise, ◌>>=◌, protocol_error, incomplete_frame,
}
use tinydb.Bytes.{ByteString, be_value}
use tinydb.Protocol.Frame.{Frame, max_frame_len, header_size, to_bytes, from_bytes}

pub record FrameReader : Type 0 where
  pub stream : Option ByteString
  pub buffer : ByteString

-- `write_frame`, on the bytes that the stream holds
unfoldable pub write_frame : ByteString → Frame → Result ByteString
write_frame stream f = do out ← to_bytes f; ok (stream ++ out)

-- `struct.unpack(">I", self._buffer[:4])`
unfoldable pub announced : ByteString → ℕ
announced buffer = be_value (take 4 buffer)

-- `Frame.from_bytes` on the first `target` bytes, which then leave the buffer.
unfoldable pub take_frame : ℕ → FrameReader → Result (Option Frame) × FrameReader
take_frame target r = elim (from_bytes (take target r.buffer)) [
  | ok f ↦ (ok (some f), record r { buffer = drop target r.buffer })
  | raise e ↦ (raise e, r)
]

unfoldable pub feed : FrameReader → ByteString → Result (Option Frame) × FrameReader
feed r data_ =
    let r' = record r { buffer = r.buffer ++ data_ } in
    let len = announced r'.buffer in
    if ltb (length r'.buffer) header_size
    then (ok none, r')
    else if ltb max_frame_len len
    then (raise protocol_error, r')
    else if ltb (length r'.buffer) (header_size + len)
    then (ok none, r')
    else take_frame (header_size + len) r'

-- `_read_byte`
unfoldable pub read_byte : FrameReader → Result Bool × FrameReader
read_byte r = elim r.stream [
  | none ↦ (raise incomplete_frame, r)
  | some [] ↦ (ok false, r)
  | some (b ∷ bs) ↦ (ok true, record { stream = some bs; buffer = r.buffer ++ (b ∷ []) })
]

-- A loop `while len(self._buffer) < target` over `_read_byte`: each round that does not stop adds a
-- byte, so there are `target - len(self._buffer)` of them at most.
unfoldable pub read_bytes : ℕ → FrameReader → Result Bool × FrameReader
read_bytes zero r = (ok true, r)
read_bytes (suc n) r =
    let (got, r') = read_byte r in
    let rest = read_bytes n r' in
    elim got [ raise e ↦ (raise e, r') | ok false ↦ (ok false, r') | ok true ↦ rest ]

unfoldable pub read_until : ℕ → FrameReader → Result Bool × FrameReader
read_until target r = read_bytes (target - length r.buffer) r

-- `read_frame` without a stream
unfoldable pub read_buffered : FrameReader → Result (Option Frame) × FrameReader
read_buffered r =
    let len = announced r.buffer in
    if ltb (length r.buffer) header_size
    then (raise incomplete_frame, r)
    else if ltb max_frame_len len
    then (raise protocol_error, r)
    else if ltb (length r.buffer) (header_size + len)
    then (raise incomplete_frame, r)
    else take_frame (header_size + len) r

-- `read_frame` with a stream, once the buffer has the length
unfoldable pub read_body : FrameReader → Result (Option Frame) × FrameReader
read_body r =
    let len = announced r.buffer in
    let (got, r') = read_until (header_size + len) r in
    if ltb max_frame_len len then (raise protocol_error, r) else elim got [
      | raise e ↦ (raise e, r')
      | ok false ↦ (raise incomplete_frame, r')
      | ok true ↦ take_frame (header_size + len) r'
    ]

unfoldable pub read_streamed : FrameReader → Result (Option Frame) × FrameReader
read_streamed r =
    let (got, r') = read_until 4 r in
    elim got [
      | raise e ↦ (raise e, r')
      | ok false ↦
          if not (length r'.buffer == 0) then (raise incomplete_frame, r') else (ok none, r')
      | ok true ↦ read_body r'
    ]

unfoldable pub read_frame : FrameReader → Result (Option Frame) × FrameReader
read_frame r = elim r.stream [ none ↦ read_buffered r | some _ ↦ read_streamed r ]
