-- ===== src/Tests/Wire.antt =====
-- The theorems on src/tinydb/protocol/ on a PING frame and on a row of five values.
use tinydb.Base.{
  ℕ, ◌≡◌, refl, true, none, some, List, [], ◌∷◌, ◌++◌, arith, ok, raise, ◌>>=◌, incomplete_frame,
  negsuc,
}
use tinydb.Bytes.{ByteString, be_bytes, pack_be}
use tinydb.Bytes.Signed.{twos, pack_signed_be}
use tinydb.Protocol.Frame.{Frame, make_frame, to_bytes, from_bytes}
use tinydb.Protocol.Frame.Wire.{IsFrame, wire, from_bytes-to_bytes}
use tinydb.Protocol.Reader.{read_frame}
use tinydb.Protocol.Reader.Feed.{feed_all, feed-chunks}
use tinydb.Protocol.Reader.Stream.{read_frame-wire, read_frame_short}
use tinydb.Protocol.Platform.{Platform, IsFaithful}
use tinydb.Protocol.Values.{
  Value, null, int, string, bool, other, encode_field, flag, encode_value, encode_values,
}
use tinydb.Protocol.Messages.{result_row, to_frame, decode_message}
use tinydb.Protocol.Messages.RoundTrip.{decode-to_frame}

abbrev sample_frame : Frame
sample_frame = record { len = 3; type = 0x30; flags = 0; payload = 1 ∷ 2 ∷ 3 ∷ [] }

sample_IsFrame : IsFrame sample_frame
sample_IsFrame = record {
  counted = refl;
  bounded = omega arith;
  type = omega arith;
  flags = omega arith;
}

from_bytes-to_bytes_example :
    (to_bytes sample_frame >>= λ out. from_bytes (out ++ (9 ∷ []))) ≡ ok sample_frame
unfolding make_frame
from_bytes-to_bytes_example =
    from_bytes-to_bytes 0 0x30 0 (1 ∷ 2 ∷ 3 ∷ []) (9 ∷ []) sample_frame refl (omega arith)

feed-chunks_example :
    feed_all
      (record { stream = none; buffer = [] })
      ((0 ∷ 0 ∷ []) ∷ (0 ∷ 3 ∷ 0x30 ∷ 0 ∷ 1 ∷ []) ∷ (2 ∷ 3 ∷ 9 ∷ []) ∷ [])
    ≡ (ok none ∷ ok none ∷ ok (some sample_frame) ∷ [], record { stream = none; buffer = 9 ∷ [] })
unfolding wire be_bytes
feed-chunks_example =
    feed-chunks (record { stream = none; buffer = [] })
      ((0 ∷ 0 ∷ []) ∷ (0 ∷ 3 ∷ 0x30 ∷ 0 ∷ 1 ∷ []) ∷ []) (2 ∷ 3 ∷ 9 ∷ []) sample_frame (9 ∷ [])
      sample_IsFrame refl (omega arith)

read_frame-wire_example :
    read_frame
      (record { stream = some (3 ∷ 0x30 ∷ 0 ∷ 1 ∷ 2 ∷ 3 ∷ 9 ∷ []); buffer = 0 ∷ 0 ∷ 0 ∷ [] })
    ≡ (ok (some sample_frame), record { stream = some (9 ∷ []); buffer = [] })
unfolding wire be_bytes
read_frame-wire_example =
    read_frame-wire (3 ∷ 0x30 ∷ 0 ∷ 1 ∷ 2 ∷ 3 ∷ 9 ∷ []) (0 ∷ 0 ∷ 0 ∷ []) (9 ∷ []) sample_frame
      sample_IsFrame refl (omega arith)

read_frame_short_example :
    read_frame (record { stream = some (3 ∷ 0x30 ∷ []); buffer = 0 ∷ 0 ∷ 0 ∷ [] })
    ≡ (raise incomplete_frame, record { stream = some []; buffer = 0 ∷ 0 ∷ 0 ∷ 3 ∷ 0x30 ∷ [] })
unfolding wire be_bytes
read_frame_short_example =
    read_frame_short (3 ∷ 0x30 ∷ []) (0 ∷ 0 ∷ 0 ∷ []) (0 ∷ 1 ∷ 2 ∷ 3 ∷ []) sample_frame
      sample_IsFrame refl (omega arith)

-- Text that is its own encoding, and one double.
abbrev plain : Platform
plain = record {
  Str = ByteString;
  Float = Unit;
  Other = ℕ;
  str = λ n. n ∷ [];
  utf8 = λ s. ok s;
  from_utf8 = λ b. ok b;
  ascii = λ s. ok s;
  from_ascii = λ b. ok b;
  pack_double = λ x. 0 ∷ 0 ∷ 0 ∷ 0 ∷ 0 ∷ 0 ∷ 0 ∷ 0 ∷ [];
  unpack_double = λ b. tt;
}

plain_IsFaithful : IsFaithful plain
plain_IsFaithful = record {
  utf8 = λ s b h. cc;
  ascii = λ s b h. cc;
  double = λ x. refl;
  length_double = λ x. refl;
}

abbrev row : List (Value plain)
row = null ∷ int (negsuc 4) ∷ string (104 ∷ 105 ∷ []) ∷ bool true ∷ other 65 ∷ []

abbrev row_frame : Frame
row_frame = record {
  len = 39;
  type = 0x21;
  flags = 0;
  payload =
      0 ∷ 5 ∷ 0 ∷ 0 ∷ 0 ∷ 0 ∷ 0 ∷ 1 ∷ 0 ∷ 0 ∷ 0 ∷ 8 ∷ 255 ∷ 255 ∷ 255 ∷ 255 ∷ 255 ∷ 255 ∷ 255 ∷ 251
      ∷ 3 ∷ 0 ∷ 0 ∷ 0 ∷ 2 ∷ 104 ∷ 105 ∷ 4 ∷ 0 ∷ 0 ∷ 0 ∷ 1 ∷ 1 ∷ 3 ∷ 0 ∷ 0 ∷ 0 ∷ 1 ∷ 65 ∷ [];
}

decode-to_frame_example :
    decode_message plain row_frame
    ≡ ok (
        result_row
          (null ∷ int (negsuc 4) ∷ string (104 ∷ 105 ∷ []) ∷ bool true ∷ string (65 ∷ []) ∷ []))
unfolding to_frame encode_values encode_value encode_field pack_be be_bytes pack_signed_be twos flag
    make_frame tinydb.Protocol.Values.shown
decode-to_frame_example = decode-to_frame plain (result_row row) row_frame plain_IsFaithful tt refl
