-- ===== src/Types/Codec.antt =====
-- src/tinydb/types/codec.py: values and rows as bytes. `_CodecError` is a `TypeError`.
pub mod Buffer
pub mod RoundTrip
pub mod Rows
pub mod Sizes
use tinydb.Base.{
  ℕ, zero, suc, ◌+◌, ◌*◌, ◌/◌, ◌%◌, ◌^◌, Bool, true, false, not, List, [], ◌∷◌, ◌++◌, length, take,
  drop, get_or, ltb, leb, ◌==◌, if◌then◌else◌, Result, ok, raise, ◌>>=◌, none, some, type_error,
  value_error, overflow_error, struct_error, index_error, ℤ, pos, negsuc,
}
use tinydb.Bytes.{ByteString, le_value, pack_le}
use tinydb.Bytes.Signed.{half, pack_signed_le, unpack_signed_le}
use tinydb.Types.{
  TypeTag, null_tag, int_tag, float_tag, text_tag, bool_tag, date_tag, time_tag, datetime_tag,
  decimal_tag, blob_tag, json_tag, tag_byte, tag_of, Classes, Time, Value, null, int, bool, float,
  text, date, time, datetime, decimal, blob, other, Platform,
}

abbrev pub tag_size : ℕ
tag_size = 1

abbrev pub len_size : ℕ
len_size = 4

-- `-(2**63) <= value <= 2**63 - 1`
unfoldable pub in_range : ℤ → Bool
in_range (pos n) = ltb n (half 8)
in_range (negsuc n) = ltb n (half 8)

-- `(value.hour * 3_600 + …) * 1_000_000 + value.microsecond`, whatever the zone
unfoldable pub micros_of_time : {c : Classes} → Time c → ℕ
micros_of_time t = (t.hour * 3600 + t.minute * 60 + t.second) * 1000000 + t.microsecond

-- the length and the bytes of a field
unfoldable pub with_length : ℕ → ByteString → Result ByteString
with_length tag payload = pack_le len_size (length payload) >>= λ l. ok (tag ∷ (l ++ payload))

-- `struct.unpack_from` of `k` bytes at `offset`
unfoldable pub field : ℕ → ByteString → ℕ → Result ByteString
field k buf offset =
    if ltb (length buf) (offset + k) then raise struct_error else ok (take k (drop offset buf))

-- "null".encode("utf-8")
abbrev pub null_literal : ByteString
null_literal = b'n' ∷ b'u' ∷ b'l' ∷ b'l' ∷ []

module _ {c : Classes} (p : Platform c) where
  -- `_check_int_range`
  unfoldable pub check_int_range : Value c → Result (Unit {0})
  check_int_range (int z) = if in_range z then ok tt else raise overflow_error
  check_int_range _ = raise type_error

  unfoldable pub size_of_bytes : Result ByteString → Result ℕ
  size_of_bytes r = r >>= λ b. ok (tag_size + len_size + length b)

  unfoldable pub value_size : Value c → TypeTag → Result ℕ
  value_size null null_tag = ok tag_size
  value_size _ null_tag = raise type_error
  value_size null json_tag = ok (tag_size + len_size + 4)
  value_size v json_tag = size_of_bytes (p.dumps v >>= p.utf8)
  value_size null _ = raise type_error
  value_size v int_tag = check_int_range v >>= λ _. ok (tag_size + 8)
  value_size v float_tag = ok (tag_size + 8)
  value_size (bool b) bool_tag = ok (tag_size + 1)
  value_size (date d) date_tag = ok (tag_size + 4)
  value_size (datetime d) date_tag = ok (tag_size + 4)
  value_size (time t) time_tag = ok (tag_size + 8)
  value_size (datetime d) datetime_tag = ok (tag_size + 8)
  value_size (text s) text_tag = size_of_bytes (p.utf8 s)
  value_size (decimal d) decimal_tag = size_of_bytes (p.utf8 (p.format d))
  value_size (blob b) blob_tag = ok (tag_size + len_size + length b)
  value_size _ _ = raise type_error

  -- `(value - _EPOCH_DATE).days`, which a datetime refuses
  unfoldable pub days_of : Value c → Result ℤ
  days_of (date d) = ok (p.days d)
  days_of _ = raise type_error

  -- The value that a datetime with a zone is changed for.
  unfoldable pub in_utc : c.Datetime → Result c.Datetime
  in_utc d = elim (p.zone_of d) [ none ↦ ok d | some _ ↦ p.to_utc d ]

  -- `int((value - epoch).total_seconds() * 1_000_000)`
  unfoldable pub micros_of_datetime : c.Datetime → ℤ
  micros_of_datetime d = p.truncate (p.times_million (p.total_seconds (p.since_epoch d)))

  -- The branches of `encode_value` behind the check of the size.
  unfoldable pub encode_checked : Value c → TypeTag → Result ByteString
  encode_checked v null_tag = ok (tag_byte null_tag ∷ [])
  encode_checked (int z) int_tag = pack_signed_le 8 z >>= λ b. ok (tag_byte int_tag ∷ b)
  encode_checked v float_tag = p.pack_double v >>= λ b. ok (tag_byte float_tag ∷ b)
  encode_checked (bool b) bool_tag = ok (tag_byte bool_tag ∷ ((if b then 1 else 0) ∷ []))
  encode_checked v date_tag = do d ← days_of v; b ← pack_signed_le 4 d; ok (tag_byte date_tag ∷ b)
  encode_checked (time t) time_tag =
      pack_le 8 (micros_of_time t) >>= λ b. ok (tag_byte time_tag ∷ b)
  encode_checked (datetime d) datetime_tag = do
    utc ← in_utc d
    b ← pack_signed_le 8 (micros_of_datetime utc)
    ok (tag_byte datetime_tag ∷ b)
  encode_checked (text s) text_tag = p.utf8 s >>= with_length (tag_byte text_tag)
  encode_checked (decimal d) decimal_tag =
      p.utf8 (p.format d) >>= with_length (tag_byte decimal_tag)
  encode_checked (blob b) blob_tag = with_length (tag_byte blob_tag) b
  encode_checked null json_tag = with_length (tag_byte json_tag) null_literal
  encode_checked v json_tag = p.dumps v >>= p.utf8 >>= with_length (tag_byte json_tag)
  encode_checked _ _ = raise type_error

  unfoldable pub encode_value : Value c → TypeTag → Result ByteString
  encode_value v tag = value_size v tag >>= λ _. encode_checked v tag

  -- The length, the bytes behind it as far as the buffer goes, and the offset behind them.
  unfoldable pub counted : ByteString → ℕ → Result (ByteString × ℕ)
  counted buf offset = do
    l ← field len_size buf offset
    let start = offset + len_size
    ok (take (le_value l) (drop start buf), start + le_value l)

  -- `divmod` three times, and `datetime.time(…)`
  unfoldable pub time_of_micros : ℕ → Result (Time c)
  time_of_micros micros =
      let seconds = micros / 1000000 in
      let minutes = seconds / 60 in
      p.make_time (minutes / 60) (minutes % 60) (seconds % 60) (micros % 1000000)

  -- The branches of `decode_value`, at the offset behind the tag.
  unfoldable pub decode_tagged : TypeTag → ByteString → ℕ → Result (Value c × ℕ)
  decode_tagged null_tag buf offset = ok (null, offset)
  decode_tagged int_tag buf offset =
      field 8 buf offset >>= λ b. ok (int (unpack_signed_le 8 b), offset + 8)
  decode_tagged float_tag buf offset =
      field 8 buf offset >>= λ b. ok (float (p.unpack_double b), offset + 8)
  decode_tagged bool_tag buf offset =
      if leb (length buf) offset
      then raise index_error
      else ok (bool (not (get_or buf offset 0 == 0)), offset + 1)
  decode_tagged date_tag buf offset = do
    b ← field 4 buf offset
    d ← p.date_of (unpack_signed_le 4 b)
    ok (date d, offset + 4)
  decode_tagged time_tag buf offset = do
    b ← field 8 buf offset
    t ← time_of_micros (le_value b)
    ok (time t, offset + 8)
  decode_tagged datetime_tag buf offset = do
    b ← field 8 buf offset
    d ← p.datetime_of (unpack_signed_le 8 b)
    ok (datetime d, offset + 8)
  decode_tagged text_tag buf offset = do
    (b, next) ← counted buf offset
    s ← p.from_utf8 b
    ok (text s, next)
  decode_tagged decimal_tag buf offset = do
    (b, next) ← counted buf offset
    s ← p.from_utf8 b
    d ← p.parse_decimal s
    ok (decimal d, next)
  decode_tagged blob_tag buf offset = do (b, next) ← counted buf offset; ok (blob b, next)
  decode_tagged json_tag buf offset = do
    (b, next) ← counted buf offset
    s ← p.from_utf8 b
    v ← p.loads s
    ok (v, next)

  unfoldable pub decode_value : ByteString → ℕ → Result (Value c × ℕ)
  decode_value buf offset =
      if leb (length buf) offset then raise value_error else elim (tag_of (get_or buf offset 0)) [
        | none ↦ raise value_error
        | some tag ↦ decode_tagged tag buf (offset + 1)
      ]

  -- the loop of `encode_row`
  unfoldable pub encode_fields : List (Value c) → List TypeTag → Result ByteString
  encode_fields (v ∷ values) (t ∷ tags) = do
    a ← encode_value v t
    b ← encode_fields values tags
    ok (a ++ b)
  encode_fields _ _ = ok []

  unfoldable pub encode_row : List (Value c) → List TypeTag → Result ByteString
  encode_row values tags =
      if not (length values == length tags) then raise value_error else encode_fields values tags

  -- the loop of `decode_row`, with the offset at its end
  unfoldable pub decode_fields : ByteString → ℕ → List TypeTag → Result (List (Value c) × ℕ)
  decode_fields buf offset [] = ok ([], offset)
  decode_fields buf offset (t ∷ tags) = do
    (v, next) ← decode_value buf offset
    (values, end) ← decode_fields buf next tags
    ok (v ∷ values, end)

  unfoldable pub decode_row : ByteString → List TypeTag → Result (List (Value c))
  decode_row buf tags = do
    (values, end) ← decode_fields buf 0 tags
    (if end == length buf then ok values else raise value_error)
