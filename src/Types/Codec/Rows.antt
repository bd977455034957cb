-- ===== src/Types/Codec/Rows.antt =====
-- Any value, and rows, of src/tinydb/types/codec.py through encoder and decoder.
use tinydb.Base.{
  ℕ, ◌+◌, ◌≡◌, refl, ap, ◌∙◌, List, [], ◌∷◌, ◌++◌, length, ok, ◌>>=◌, arith, bind_inv, ok_inv,
  length-append,
}
use tinydb.Bytes.{ByteString}
use tinydb.Types.{
  TypeTag, null_tag, int_tag, float_tag, text_tag, bool_tag, date_tag, time_tag, datetime_tag,
  decimal_tag, blob_tag, json_tag, tag_byte, Classes, Value, null, int, bool, float, text, date,
  time, datetime, decimal, blob, other, Platform,
}
use tinydb.Types.Codec.{
  value_size, encode_checked, encode_value, with_length, days_of, counted, decode_tagged,
  decode_value, null_literal,
}
use tinydb.Types.Codec.Buffer.{decode_value_at}
use tinydb.Types.Codec.RoundTrip.{
  Survives, Decodes, int_Decodes, float_Decodes, bool_Decodes, date_Decodes, time_Decodes,
  datetime_Decodes, counted_Decodes,
}

module _ {c : Classes} (p : Platform c) where
  null_Decodes : Decodes p null (0 ∷ [])
  unfolding decode_tagged tag_byte
  null_Decodes pre rest =
      decode_value_at p null_tag pre [] rest
      ∙ ap (λ (k : ℕ). ok (null, k)) (omega (arith, length-append pre (0 ∷ [])))

  -- The text fields, behind their length.
  text_after :
      (s : c.Str) (b buf : ByteString) (offset next : ℕ)
      → p.from_utf8 b ≡ ok s
      → counted p buf offset ≡ ok (b, next)
      → decode_tagged p text_tag buf offset ≡ ok (text s, next)
  unfolding decode_tagged
  text_after s b buf offset next h e = rw (e, h) refl

  decimal_after :
      (d : c.Decimal) (b buf : ByteString) (offset next : ℕ)
      → (p.from_utf8 b >>= p.parse_decimal) ≡ ok d
      → counted p buf offset ≡ ok (b, next)
      → decode_tagged p decimal_tag buf offset ≡ ok (decimal d, next)
  unfolding decode_tagged
  decimal_after d b buf offset next h e =
      let (s, f, g) = bind_inv (p.from_utf8 b) p.parse_decimal d h in rw (e, f, g) refl

  blob_after :
      (b buf : ByteString) (offset next : ℕ)
      → counted p buf offset ≡ ok (b, next)
      → decode_tagged p blob_tag buf offset ≡ ok (blob b, next)
  unfolding decode_tagged
  blob_after b buf offset next e = rw e refl

  json_after :
      (v : Value c) (b buf : ByteString) (offset next : ℕ)
      → (p.from_utf8 b >>= p.loads) ≡ ok v
      → counted p buf offset ≡ ok (b, next)
      → decode_tagged p json_tag buf offset ≡ ok (v, next)
  unfolding decode_tagged
  json_after v b buf offset next h e =
      let (s, f, g) = bind_inv (p.from_utf8 b) p.loads v h in rw (e, f, g) refl

  json_Decodes :
      (v : Value c) (b : ByteString)
      → ((x : ByteString) → (p.dumps v >>= p.utf8) ≡ ok x → (p.from_utf8 x >>= p.loads) ≡ ok v)
      → (p.dumps v >>= p.utf8 >>= with_length 10) ≡ ok b
      → Decodes p v b
  unfolding tag_byte
  json_Decodes v b h e pre rest =
      let (x, made, put) = bind_inv (p.dumps v >>= p.utf8) (with_length 10) b e in
      counted_Decodes p json_tag v x b put
        (λ buf offset next. json_after v x buf offset next (h x made)) pre rest

  -- Each branch of the encoder.
  checked-Decodes :
      (v : Value c) (t : TypeTag) (b : ByteString)
      → Survives p v t
      → encode_checked p v t ≡ ok b
      → Decodes p v b
  unfolding encode_checked tag_byte days_of
  checked-Decodes v null_tag b h e pre rest = rw (h, ← ok_inv _ _ e) (null_Decodes pre rest)
  checked-Decodes (int z) int_tag b h e pre rest = int_Decodes p z b e pre rest
  checked-Decodes v float_tag b h e pre rest = float_Decodes p v b h e pre rest
  checked-Decodes (bool x) bool_tag b h e pre rest = rw (← ok_inv _ _ e) (bool_Decodes p x pre rest)
  checked-Decodes (date d) date_tag b h e pre rest = date_Decodes p d b h e pre rest
  checked-Decodes (time t) time_tag b h e pre rest = time_Decodes p t b h e pre rest
  checked-Decodes (datetime d) datetime_tag b h e pre rest = datetime_Decodes p d b h e pre rest
  checked-Decodes (text s) text_tag b h e pre rest =
      let (x, made, put) = bind_inv (p.utf8 s) (with_length 3) b e in
      counted_Decodes p text_tag (text s) x b put
        (λ buf offset next. text_after s x buf offset next (h x made)) pre rest
  checked-Decodes (decimal d) decimal_tag b h e pre rest =
      let (x, made, put) = bind_inv (p.utf8 (p.format d)) (with_length 8) b e in
      counted_Decodes p decimal_tag (decimal d) x b put
        (λ buf offset next. decimal_after d x buf offset next (h x made)) pre rest
  checked-Decodes (blob x) blob_tag b h e pre rest =
      counted_Decodes p blob_tag (blob x) x b e (blob_after x) pre rest
  checked-Decodes null json_tag b h e pre rest =
      counted_Decodes p json_tag null null_literal b e
        (λ buf offset next. json_after null null_literal buf offset next h) pre rest
  checked-Decodes (other o) json_tag b h e pre rest = json_Decodes (other o) b h e pre rest
  checked-Decodes (int o) json_tag b h e pre rest = json_Decodes (int o) b h e pre rest
  checked-Decodes (bool o) json_tag b h e pre rest = json_Decodes (bool o) b h e pre rest
  checked-Decodes (float o) json_tag b h e pre rest = json_Decodes (float o) b h e pre rest
  checked-Decodes (text o) json_tag b h e pre rest = json_Decodes (text o) b h e pre rest
  checked-Decodes (date o) json_tag b h e pre rest = json_Decodes (date o) b h e pre rest
  checked-Decodes (time o) json_tag b h e pre rest = json_Decodes (time o) b h e pre rest
  checked-Decodes (datetime o) json_tag b h e pre rest = json_Decodes (datetime o) b h e pre rest
  checked-Decodes (decimal o) json_tag b h e pre rest = json_Decodes (decimal o) b h e pre rest
  checked-Decodes (blob o) json_tag b h e pre rest = json_Decodes (blob o) b h e pre rest
  checked-Decodes v t b h e pre rest = absurd (cc)

  -- A value that `encode_value` accepts for a column, and that the library gives back, decodes
  -- anywhere in a buffer to the same value, and the next offset is behind its bytes.
  pub decode-encode_value :
      (v : Value c) (t : TypeTag) (b pre rest : ByteString)
      → Survives p v t
      → encode_value p v t ≡ ok b
      → decode_value p (pre ++ (b ++ rest)) (length pre) ≡ ok (v, length pre + length b)
  unfolding encode_value
  decode-encode_value v t b pre rest h e =
      let (_, _, checked) = bind_inv (value_size p v t) (λ _. encode_checked p v t) b e in
      checked-Decodes v t b h checked pre rest

  -- Each value of a row survives in its column.
  abbrev pub AllSurvive : List (Value c) → List TypeTag → Type 0
  AllSurvive [] _ = Unit
  AllSurvive (v ∷ values) [] = Unit
  AllSurvive (v ∷ values) (t ∷ tags) = Survives p v t × AllSurvive values tags
