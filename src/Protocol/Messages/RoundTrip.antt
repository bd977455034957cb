-- ===== src/Protocol/Messages/RoundTrip.antt =====
-- The messages of src/tinydb/protocol/messages.py through `to_frame` and `decode_message`.
use mathlib.Core.List.{append-nil}
use tinydb.Base.{
  bind_inv, ◌≤◌, ◌≡◌, subst, [], ◌++◌, map, arith, length, true, ok, length-append, le→ltb_false,
}
use tinydb.Bytes.{ByteString, pack_be}
use tinydb.Bytes.Signed.{pack_signed_be}
use tinydb.Protocol.Frame.{Frame}
use tinydb.Protocol.Platform.{Platform, IsFaithful}
use tinydb.Protocol.Values.{encode_values, decode_values, shown}
use tinydb.Protocol.Values.RoundTrip.{decode-encode_values}
use tinydb.Protocol.Messages.{
  Message, hello, ok_msg, err, query, exec, result_header, result_row, result_done, result_error,
  ping, pong, quit, max_client_id, max_sql_len, max_params, one_byte, make_hello, encode_error,
  encode_columns, to_frame, decode_message,
}
use tinydb.Protocol.Messages.Parts.{
  make_frame_inv, require_ok, length_field, decode-encode_error, decode-encode_columns, decode-exec,
  stamp_inv, done_parts,
}

module _ (p : Platform) where
  -- What the receiver gets: values of other classes arrive as text.
  abbrev pub delivered : Message p → Message p
  delivered (exec sql params) = exec sql (map (shown p) params)
  delivered (result_row values) = result_row (map (shown p) values)
  delivered m = m

  -- The limits that the decoders set and `to_frame` does not check: the length of a client's name and
  -- of a statement, the number of parameters, and 5 bytes for an error code.
  abbrev pub IsSendable : Message p → Type 0
  IsSendable (hello client) = (b : ByteString) → p.utf8 client ≡ ok b → length b ≤ max_client_id
  IsSendable (err code msg) = (b : ByteString) → p.ascii code ≡ ok b → length b ≡ 5
  IsSendable (query sql) = (b : ByteString) → p.utf8 sql ≡ ok b → length b ≤ max_sql_len
  IsSendable (exec sql params) =
      ((b : ByteString) → p.utf8 sql ≡ ok b → length b ≤ max_sql_len) × (length params ≤ max_params)
  IsSendable (result_error code msg) = (b : ByteString) → p.ascii code ≡ ok b → length b ≡ 5
  IsSendable m = Unit

  -- With conversions of text and doubles that decode what they encode: the frame of a message
  -- within the limits of `IsSendable` decodes to the message, where values of other classes have
  -- become text.
  pub decode-to_frame :
      (m : Message p) (f : Frame)
      → IsFaithful p
      → IsSendable m
      → to_frame p m ≡ ok f
      → decode_message p f ≡ ok (delivered m)
  unfolding to_frame decode_message
  decode-to_frame (hello client) f h s e =
      let (b, eb, ef) = bind_inv (p.utf8 client) _ f e in
      let (t, q) = make_frame_inv 0x01 b f ef in
      rw (t, q, le→ltb_false max_client_id (length b) (s b eb), h.utf8 client b eb)
        (unfold make_hello in rw (eb, le→ltb_false max_client_id (length b) (s b eb)))
  decode-to_frame (ok_msg version) f h s e =
      let (b, eb, ef) = bind_inv (p.utf8 version) _ f e in
      let (t, q) = make_frame_inv 0x02 b f ef in rw (t, q, h.utf8 version b eb)
  decode-to_frame (err code msg) f h s e =
      let (b, eb, ef) = bind_inv (encode_error p code msg) _ f e in
      let (t, q) = make_frame_inv 0x03 b f ef in
      rw (t, q) (decode-encode_error p err code msg b h s eb)
  decode-to_frame (query sql) f h s e =
      let (b, eb, ef) = bind_inv (p.utf8 sql) _ f e in
      let (t, q) = make_frame_inv 0x10 b f ef in
      rw (t, q, le→ltb_false max_sql_len (length b) (s b eb), h.utf8 sql b eb)
  decode-to_frame (exec sql params) f h s e =
      let (b, eb, e1) = bind_inv (p.utf8 sql) _ f e in
      let (l, el, e2) = bind_inv (pack_be 4 (length b)) _ f e1 in
      let (n, en, e3) = bind_inv (pack_be 2 (length params)) _ f e2 in
      let (body, ey, ef) = bind_inv (encode_values p params) _ f e3 in
      let (t, q) = make_frame_inv 0x11 (l ++ (b ++ (n ++ body))) f ef in
      rw (t, q) (decode-exec p sql params b l n body h (s.0 b eb) s.1 eb el en ey)
  decode-to_frame (result_header columns) f h s e =
      let (n, en, e1) = bind_inv (pack_be 2 (length columns)) _ f e in
      let (body, ey, ef) = bind_inv (encode_columns p columns) _ f e1 in
      let (t, q) = make_frame_inv 0x20 (n ++ body) f ef in
      let (value, rest, len) = length_field 2 (length columns) n body en in
      rw (
        t,
        q,
        value,
        rest,
        require_ok (n ++ body) 2 (omega (arith, length-append n body)),
        decode-encode_columns p columns body h ey,
      )
  decode-to_frame (result_row values) f h s e =
      let (n, en, e1) = bind_inv (pack_be 2 (length values)) _ f e in
      let (body, ey, ef) = bind_inv (encode_values p values) _ f e1 in
      let (t, q) = make_frame_inv 0x21 (n ++ body) f ef in
      let (value, rest, len) = length_field 2 (length values) n body en in
      let vs : decode_values p true (length values) body ≡ ok (map (shown p) values) =
        subst
          (λ (x : ByteString). decode_values p true (length values) x ≡ ok (map (shown p) values))
          (append-nil body) (decode-encode_values p true values body [] h ey) in
      rw (t, q, value, rest, require_ok (n ++ body) 2 (omega (arith, length-append n body)), vs)
  decode-to_frame (result_done a b n) f h s e =
      let (x, ex, e1) = bind_inv (pack_signed_be 8 a) _ f e in
      let (y, ey, e2) = bind_inv (pack_signed_be 8 b) _ f e1 in
      let (z, ez, ef) = bind_inv (one_byte n) _ f e2 in
      let (t, q) = make_frame_inv 0x22 (x ++ (y ++ z)) f ef in
      let (r, va, vb, vn) = done_parts p a b n x y z ex ey ez in rw (t, q, r, va, vb, vn)
  decode-to_frame (result_error code msg) f h s e =
      let (b, eb, ef) = bind_inv (encode_error p code msg) _ f e in
      let (t, q) = make_frame_inv 0x23 b f ef in
      rw (t, q) (decode-encode_error p result_error code msg b h s eb)
  decode-to_frame (ping ts) f h s e =
      let (b, eb, ef) = bind_inv (pack_be 8 ts) _ f e in
      let (t, q) = make_frame_inv 0x30 b f ef in
      rw (t, q, (stamp_inv p ts b eb).0, (stamp_inv p ts b eb).1)
  decode-to_frame (pong ts) f h s e =
      let (b, eb, ef) = bind_inv (pack_be 8 ts) _ f e in
      let (t, q) = make_frame_inv 0x31 b f ef in
      rw (t, q, (stamp_inv p ts b eb).0, (stamp_inv p ts b eb).1)
  decode-to_frame quit f h s e = let (t, q) = make_frame_inv 0xFE [] f e in rw t
