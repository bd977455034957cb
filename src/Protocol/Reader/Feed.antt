-- ===== src/Protocol/Reader/Feed.antt =====
-- `FrameReader.feed` of src/tinydb/protocol/codec.py on the bytes of a frame that come in chunks.
use mathlib.Core.List.{append-nil, append_assoc}
use tinydb.Base.{
  ◌+◌, ◌≤◌, ◌<◌, ◌≡◌, refl, sym, subst, ◌∙◌, ap, Option, none, some, List, [], ◌∷◌, ◌++◌, map,
  arith, length, take, Result, ok, length-append, take-append, drop-append, take-append_le,
  le→ltb_false,
}
use tinydb.Bytes.{ByteString, be_value}
use tinydb.Protocol.Frame.{Frame, max_frame_len, from_bytes}
use tinydb.Protocol.Frame.Wire.{IsFrame, wire, length-wire, wire_len, from_bytes-wire}
use tinydb.Protocol.Reader.{FrameReader, announced, take_frame, feed}

-- Bytes of which the length field has arrived announce the frame's payload.
pub announced_lem :
    (f : Frame) (got more rest : ByteString)
    → IsFrame f
    → got ++ more ≡ wire f ++ rest
    → 4 ≤ length got
    → announced got ≡ length f.payload
unfolding announced
announced_lem f got more rest h e le =
    ap be_value (sym (take-append_le 4 got more le) ∙ ap (take 4) e) ∙ wire_len f rest h

pub take_frame_lem :
    (r : FrameReader) (f : Frame) (rest : ByteString)
    → IsFrame f
    → r.buffer ≡ wire f ++ rest
    → take_frame (6 + length f.payload) r ≡ (ok (some f), record r { buffer = rest })
unfolding take_frame
take_frame_lem r f rest h e =
    let n : 6 + length f.payload ≡ length (wire f) = sym (length-wire f) in
    let one : from_bytes (wire f) ≡ ok f =
      subst (λ (x : ByteString). from_bytes x ≡ ok f) (append-nil (wire f))
        (from_bytes-wire f [] h) in
    rw (
      e,
      take-append (6 + length f.payload) (wire f) rest n,
      one,
      take_frame,
      e,
      drop-append (6 + length f.payload) (wire f) rest n,
    )

feed_ready :
    (r : FrameReader) (data_ : ByteString) (f : Frame) (rest : ByteString)
    → IsFrame f
    → r.buffer ++ data_ ≡ wire f ++ rest
    → feed r data_ ≡ (ok (some f), record r { buffer = rest })
unfolding feed
feed_ready r data_ f rest h e =
    let len = length-append (wire f) rest in
    let lw = length-wire f in
    let all = length (wire f ++ rest) in
    rw
      (
        e,
        announced_lem f (wire f ++ rest) [] rest h (append-nil (wire f ++ rest))
            (omega (arith, len, lw)),
        le→ltb_false all 6 (omega (arith, len, lw)),
        le→ltb_false max_frame_len (length f.payload) h.bounded,
        le→ltb_false all (6 + length f.payload) (omega (arith, len, lw)),
      )
      (take_frame_lem (record r { buffer = wire f ++ rest }) f rest h refl)

feed_short :
    (r : FrameReader) (data_ more : ByteString) (f : Frame) (rest : ByteString)
    → IsFrame f
    → (r.buffer ++ data_) ++ more ≡ wire f ++ rest
    → length (r.buffer ++ data_) < length (wire f)
    → feed r data_ ≡ (ok none, record r { buffer = r.buffer ++ data_ })
unfolding feed
feed_short r data_ more f rest h e lt =
    let got = r.buffer ++ data_ in
    let lw = length-wire f in ground (arith, announced_lem f got more rest h e, h.bounded)

-- What a connection does with its chunks: it feeds them one by one.
unfoldable pub feed_all : FrameReader → List ByteString → List (Result (Option Frame)) × FrameReader
feed_all r [] = ([], r)
feed_all r (data_ ∷ chunks) =
    let (got, r') = feed r data_ in let (rest, end) = feed_all r' chunks in (got ∷ rest, end)

abbrev pub join : List ByteString → ByteString
join [] = []
join (data_ ∷ chunks) = data_ ++ join chunks

-- However the bytes of a frame, and some that follow, are cut into chunks, with what the buffer
-- held and the chunks before the last short of the whole frame and the last completing it:
-- feeding each chunk before the last yields nothing, feeding the last yields the frame, and what
-- follows the frame stays in the buffer.
pub feed-chunks :
    (r : FrameReader) (chunks : List ByteString) (data_ : ByteString) (f : Frame)
    (rest : ByteString)
    → IsFrame f
    → r.buffer ++ (join chunks ++ data_) ≡ wire f ++ rest
    → length r.buffer + length (join chunks) < length (wire f)
    → feed_all r (chunks ++ (data_ ∷ []))
      ≡ (map (λ _. ok none) chunks ++ (ok (some f) ∷ []), record r { buffer = rest })
unfolding feed_all
feed-chunks r [] data_ f rest h e lt = rw (feed_ready r data_ f rest h e)
feed-chunks r (c ∷ chunks) data_ f rest h e lt =
    let r' : FrameReader = record r { buffer = r.buffer ++ c } in
    let e' : (r.buffer ++ c) ++ (join chunks ++ data_) ≡ wire f ++ rest =
      append_assoc r.buffer c (join chunks ++ data_)
      ∙ ap (λ (x : ByteString). r.buffer ++ x) (sym (append_assoc c (join chunks) data_))
      ∙ e in
    let lc = length-append c (join chunks) in
    let lb = length-append r.buffer c in
    let ih = feed-chunks r' chunks data_ f rest h e' (omega (arith, lt, lc, lb)) in
    rw (feed_short r c (join chunks ++ data_) f rest h e' (omega (arith, lt, lc, lb)), ih)
