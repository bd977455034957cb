-- ===== src/Types/Codec/Buffer.antt =====
-- Reading the fields of a value of src/tinydb/types/codec.py anywhere in a buffer.
use mathlib.Core.List.{append_assoc}
use tinydb.Base.{
  ℕ, ◌+◌, ◌<◌, ◌^◌, ◌≡◌, refl, ap, sym, some, [], ◌∷◌, ◌++◌, length, ok, arith, le→ltb_false,
  lt→leb_false, length-append, take-append, drop-append, get_or-append, drop-append_add,
}
use tinydb.Bytes.{ByteString, le_bytes}
use tinydb.Bytes.Laws.{length-le_bytes, le_value-le_bytes}
use tinydb.Types.{
  TypeTag, null_tag, int_tag, float_tag, text_tag, bool_tag, date_tag, time_tag, datetime_tag,
  decimal_tag, blob_tag, json_tag, tag_byte, tag_of, Classes, Platform,
}
use tinydb.Types.Codec.{field, counted, decode_tagged, decode_value}

pub tag_of-tag_byte : (t : TypeTag) → tag_of (tag_byte t) ≡ some t
unfolding tag_of tag_byte
tag_of-tag_byte null_tag = refl
tag_of-tag_byte int_tag = refl
tag_of-tag_byte float_tag = refl
tag_of-tag_byte text_tag = refl
tag_of-tag_byte bool_tag = refl
tag_of-tag_byte date_tag = refl
tag_of-tag_byte time_tag = refl
tag_of-tag_byte datetime_tag = refl
tag_of-tag_byte decimal_tag = refl
tag_of-tag_byte blob_tag = refl
tag_of-tag_byte json_tag = refl

pub field_lem :
    (k : ℕ) (pre d rest : ByteString)
    → length d ≡ k
    → field k (pre ++ (d ++ rest)) (length pre) ≡ ok d
unfolding field
field_lem k pre d rest h = rw (
  le→ltb_false (length (pre ++ (d ++ rest))) (length pre + k)
      (omega (arith, length-append pre (d ++ rest), length-append d rest)),
  drop-append (length pre) pre (d ++ rest) refl,
  take-append k d rest (sym h),
)

module _ {c : Classes} (p : Platform c) where
  pub counted_lem :
      (pre d rest : ByteString)
      → length d < 256 ^ 4
      → counted p (pre ++ ((le_bytes 4 (length d) ++ d) ++ rest)) (length pre)
        ≡ ok (d, length pre + (4 + length d))
  unfolding counted
  counted_lem pre d rest h =
      let l = le_bytes 4 (length d) in
      let n = length-le_bytes 4 (length d) in
      rw
        (
          append_assoc l d rest,
          field_lem 4 pre l (d ++ rest) n,
          le_value-le_bytes 4 (length d) h,
          drop-append_add (length pre + 4) 4 pre (l ++ (d ++ rest)) refl,
          drop-append 4 l (d ++ rest) (sym n),
          take-append (length d) d rest refl,
        )
        (ap (λ (k : ℕ). ok (d, k)) (omega arith))

  -- At a tag, the decoder goes on behind it.
  pub decode_value_at :
      (t : TypeTag) (pre body rest : ByteString)
      → decode_value p (pre ++ ((tag_byte t ∷ body) ++ rest)) (length pre)
        ≡ decode_tagged p t
            ((pre ++ (tag_byte t ∷ [])) ++ (body ++ rest))
            (length (pre ++ (tag_byte t ∷ [])))
  unfolding decode_value
  decode_value_at t pre body rest =
      rw
        (
          lt→leb_false (length (pre ++ ((tag_byte t ∷ body) ++ rest))) (length pre)
              (omega (arith, length-append pre ((tag_byte t ∷ body) ++ rest))),
          get_or-append pre (tag_byte t) 0 (body ++ rest),
          tag_of-tag_byte t,
          append_assoc pre (tag_byte t ∷ []) (body ++ rest),
          length-append pre (tag_byte t ∷ []),
        )
        refl
