-- ===== src/Protocol/Reader/Stream.antt =====
-- `FrameReader.read_frame` of src/tinydb/protocol/codec.py on a stream.
use mathlib.Core.List.{append-nil, append_assoc}
use tinydb.Base.{
  ℕ, zero, suc, ◌+◌, ◌-◌, ◌≤◌, ◌<◌, ◌≡◌, sym, ◌∙◌, ap, true, false, none, some, [], ◌∷◌, ◌++◌,
  arith, length, take, drop, ltb, leb, ◌==◌, if◌then◌else◌, ok, raise, incomplete_frame,
  length-append, take_all, drop_all, take-append, drop-append, take-append_add, drop-append_add,
  le→leb, lt→leb_false, length-take, Bool-cases, inl, inr, take-append-drop,
}
use tinydb.Bytes.{ByteString}
use tinydb.Protocol.Frame.{Frame, max_frame_len}
use tinydb.Protocol.Frame.Wire.{IsFrame, wire, length-wire}
use tinydb.Protocol.Reader.{
  FrameReader, announced, read_byte, read_bytes, read_until, take_frame, read_body, read_streamed,
  read_frame,
}
use tinydb.Protocol.Reader.Feed.{announced_lem, take_frame_lem}

abbrev reader : ByteString → ByteString → FrameReader
reader stream buffer = record { stream = some stream; buffer = buffer }

-- Reading moves bytes from the stream to the buffer, and fails when there are too few.
read_bytes_lem :
    (n : ℕ) (s b : ByteString)
    → read_bytes n (reader s b) ≡ (ok (leb n (length s)), reader (drop n s) (b ++ take n s))
unfolding read_bytes read_byte take drop
read_bytes_lem zero [] b = rw (append-nil b)
read_bytes_lem zero (x ∷ s) b = rw (append-nil b) (ground arith)
read_bytes_lem (suc n) [] b = rw (append-nil b) (ground arith)
read_bytes_lem (suc n) (x ∷ s) b =
    rw (read_bytes_lem n s (b ++ (x ∷ [])), append_assoc b (x ∷ []) (take n s)) (ground arith)

-- What the loop up to `target` leaves, when the stream and the buffer reach that far.
read_until_enough :
    (target : ℕ) (s b : ByteString)
    → target ≤ length b + length s
    → read_until target (reader s b)
      ≡ (ok true, reader (drop (target - length b) s) (b ++ take (target - length b) s))
unfolding read_until
read_until_enough target s b h =
    rw (read_bytes_lem (target - length b) s b, le→leb (target - length b) (length s) (omega arith))

read_until_short :
    (target : ℕ) (s b : ByteString)
    → length b + length s < target
    → read_until target (reader s b) ≡ (ok false, reader [] (b ++ s))
unfolding read_until
read_until_short target s b h = rw (
  read_bytes_lem (target - length b) s b,
  lt→leb_false (target - length b) (length s) (omega arith),
  drop_all (target - length b) s (omega arith),
  take_all (target - length b) s (omega arith),
)

-- The two ways through `read_body` for a length that is allowed.
read_body_enough :
    (r r' : FrameReader) (len : ℕ)
    → announced r.buffer ≡ len
    → len ≤ max_frame_len
    → read_until (6 + len) r ≡ (ok true, r')
    → read_body r ≡ take_frame (6 + len) r'
unfolding read_body
read_body_enough r r' len a b e = ground arith

read_body_end :
    (r r' : FrameReader) (len : ℕ)
    → announced r.buffer ≡ len
    → len ≤ max_frame_len
    → read_until (6 + len) r ≡ (ok false, r')
    → read_body r ≡ (raise incomplete_frame, r')
unfolding read_body
read_body_end r r' len a b e = ground arith

-- The body of a frame whose first bytes are in the buffer.
read_body_lem :
    (s b rest : ByteString) (f : Frame)
    → IsFrame f
    → b ++ s ≡ wire f ++ rest
    → 4 ≤ length b
    → length b ≤ length (wire f)
    → read_body (reader s b) ≡ (ok (some f), reader rest [])
read_body_lem s b rest f h e lo hi =
    let target = 6 + length f.payload in
    let k = target - length b in
    let lw = length-wire f in
    let all : length b + length s ≡ length (wire f) + length rest =
      omega (arith, ap length e, length-append b s, length-append (wire f) rest) in
    let got : b ++ take k s ≡ wire f =
      sym (take-append_add target k b s (omega arith))
      ∙ ap (take target) e
      ∙ take-append target (wire f) rest (sym lw) in
    let left : drop k s ≡ rest =
      sym (drop-append_add target k b s (omega arith))
      ∙ ap (drop target) e
      ∙ drop-append target (wire f) rest (sym lw) in
    read_body_enough (reader s b) (reader (drop k s) (b ++ take k s)) (length f.payload)
      (announced_lem f b s rest h e lo) h.bounded (read_until_enough target s b (omega arith))
    ∙ rw (left, got) (take_frame_lem (reader rest (wire f)) f [] h (sym (append-nil (wire f))))

read_body_short :
    (s b more : ByteString) (f : Frame)
    → IsFrame f
    → (b ++ s) ++ more ≡ wire f
    → 4 ≤ length b
    → 0 < length more
    → read_body (reader s b) ≡ (raise incomplete_frame, reader [] (b ++ s))
read_body_short s b more f h e lo pos =
    let target = 6 + length f.payload in
    let lw = length-wire f in
    let all : length b + length s + length more ≡ length (wire f) =
      omega (arith, ap length e, length-append b s, length-append (b ++ s) more) in
    let whole : b ++ (s ++ more) ≡ wire f ++ [] =
      sym (append_assoc b s more) ∙ e ∙ sym (append-nil (wire f)) in
    read_body_end (reader s b) (reader [] (b ++ s)) (length f.payload)
      (announced_lem f b (s ++ more) [] h whole lo) h.bounded
      (read_until_short target s b (omega arith))

read_streamed_ok :
    (r r' : FrameReader) → read_until 4 r ≡ (ok true, r') → read_streamed r ≡ read_body r'
unfolding read_streamed
read_streamed_ok r r' e = ground arith

read_streamed_end :
    (r r' : FrameReader)
    → read_until 4 r ≡ (ok false, r')
    → read_streamed r
      ≡ (if length r'.buffer == 0 then (ok none, r') else (raise incomplete_frame, r'))
unfolding read_streamed
read_streamed_end r r' e = ground arith

-- A reader whose buffer and stream together hold a frame and what follows it, with no more than
-- the frame in the buffer: reading yields the frame, the buffer is then empty, and the stream is
-- what follows.
pub read_frame-wire :
    (s b rest : ByteString) (f : Frame)
    → IsFrame f
    → b ++ s ≡ wire f ++ rest
    → length b ≤ length (wire f)
    → read_frame (record { stream = some s; buffer = b })
      ≡ (ok (some f), record { stream = some rest; buffer = [] })
unfolding read_frame
read_frame-wire s b rest f h e hi =
    let k = 4 - length b in
    let lw = length-wire f in
    let all : length b + length s ≡ length (wire f) + length rest =
      omega (arith, ap length e, length-append b s, length-append (wire f) rest) in
    let whole : (b ++ take k s) ++ drop k s ≡ wire f ++ rest =
      append_assoc b (take k s) (drop k s)
      ∙ ap (λ (x : ByteString). b ++ x) (take-append-drop k s)
      ∙ e in
    let len = length-append b (take k s) in
    let lt = length-take k s in
    read_streamed_ok (reader s b) (reader (drop k s) (b ++ take k s))
      (read_until_enough 4 s b (omega arith))
    ∙ read_body_lem (drop k s) (b ++ take k s) rest f h whole (ground arith) (ground arith)

-- A reader whose buffer and stream together hold a proper start of a frame: reading returns
-- nothing if that is no byte at all, and else raises the error for missing bytes; the bytes are
-- then in the buffer.
pub read_frame_short :
    (s b more : ByteString) (f : Frame)
    → IsFrame f
    → (b ++ s) ++ more ≡ wire f
    → 0 < length more
    → read_frame (record { stream = some s; buffer = b }) ≡ (
      if length (b ++ s) == 0 then ok none else raise incomplete_frame,
      record { stream = some []; buffer = b ++ s },
    )
unfolding read_frame
read_frame_short s b more f h e pos =
    let k = 4 - length b in
    let len = length-append b s in
    elim (Bool-cases (ltb (length b + length s) 4)) [
      | inl few ↦
          read_streamed_end (reader s b) (reader [] (b ++ s))
            (read_until_short 4 s b (ground arith))
          ∙ ground arith
      | inr enough ↦
          let ltk = length-take k s in
          let lapp = length-append b (take k s) in
          let joined : (b ++ take k s) ++ drop k s ≡ b ++ s =
            append_assoc b (take k s) (drop k s)
            ∙ ap (λ (x : ByteString). b ++ x) (take-append-drop k s) in
          let whole : ((b ++ take k s) ++ drop k s) ++ more ≡ wire f =
            ap (λ (x : ByteString). x ++ more) joined ∙ e in
          read_streamed_ok (reader s b) (reader (drop k s) (b ++ take k s))
            (read_until_enough 4 s b (ground arith))
          ∙ read_body_short (drop k s) (b ++ take k s) more f h whole (ground arith) pos
          ∙ rw joined (ground arith)
    ]
