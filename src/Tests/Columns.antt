-- ===== src/Tests/Columns.antt =====
-- The theorems on src/tinydb/types/, where a text is its bytes, a date and a datetime are their
-- numbers, and a double is a number.
use tinydb.Base.{
  ◌≡◌, refl, ok_inv, true, none, some, List, [], ◌∷◌, ◌++◌, length, Result, ok, raise, type_error,
  ℤ, pos,
}
use tinydb.Bytes.{ByteString, pack_le, le_bytes}
use tinydb.Bytes.Signed.{pack_signed_le, twos}
use tinydb.Types.{
  TypeTag, int_tag, text_tag, time_tag, datetime_tag, tag_byte, Classes, Time, Value, int, float,
  text, time, datetime, Platform,
}
use tinydb.Types.Codec.{value_size, check_int_range, in_range, encode_checked, encode_value}
use tinydb.Types.Codec.Sizes.{IsDouble, value_size-encode_value}
use tinydb.Types.Coerce.{coerce_value, encoded}
use tinydb.Types.Coerce.Typed.{coerce_value-tag}

abbrev classes : Classes
classes = record {
  Str = ByteString;
  Float = ℤ;
  Date = ℤ;
  Datetime = ℤ;
  Zone = Unit;
  Decimal = ByteString;
  Other = Unit;
}

abbrev doubles : Value classes → Result ByteString
doubles (float x) = ok (0 ∷ 0 ∷ 0 ∷ 0 ∷ 0 ∷ 0 ∷ 0 ∷ 0 ∷ [])
doubles _ = raise type_error

abbrev dumped : Value classes → Result ByteString
dumped (text s) = ok s
dumped _ = raise type_error

abbrev platform : Platform classes
platform = record {
  utf8 = λ s. ok s;
  from_utf8 = λ b. ok b;
  pack_double = doubles;
  unpack_double = λ b. pos 0;
  days = λ d. d;
  date_of = λ z. ok z;
  make_time =
      λ h m s u. ok (record { hour = h; minute = m; second = s; microsecond = u; tzinfo = none });
  zone_of = λ d. none;
  to_utc = λ d. ok d;
  since_epoch = λ d. d;
  total_seconds = λ z. z;
  times_million = λ x. x;
  truncate = λ x. x;
  datetime_of = λ z. ok z;
  format = λ d. d;
  parse_decimal = λ s. ok s;
  dumps = dumped;
  loads = λ s. ok (text s);
  integral = λ x. some (pos 0);
  float_of = λ z. ok z;
  decimal_of = λ z. [];
  is_container = λ o. true;
}

doubles-IsDouble : IsDouble platform
doubles-IsDouble (float x) b e =
    let same : 0 ∷ 0 ∷ 0 ∷ 0 ∷ 0 ∷ 0 ∷ 0 ∷ 0 ∷ [] ≡ b = ok_inv _ _ e in rw (← same) refl
doubles-IsDouble v b e = absurd (cc)

abbrev noon : Time classes
noon = record { hour = 12; minute = 30; second = 0; microsecond = 5; tzinfo = none }

abbrev row : List (Value classes)
row = int (pos 7) ∷ text (104 ∷ 105 ∷ []) ∷ time noon ∷ datetime (pos 45) ∷ []

abbrev columns : List TypeTag
columns = int_tag ∷ text_tag ∷ time_tag ∷ datetime_tag ∷ []

abbrev row_bytes : ByteString
row_bytes =
    (1 ∷ le_bytes 8 7)
    ++ ((3 ∷ (le_bytes 4 2 ++ (104 ∷ 105 ∷ [])))
        ++ ((6 ∷ le_bytes 8 45000000005) ++ ((7 ∷ le_bytes 8 45) ++ [])))

int_encoded : encode_value platform (int (pos 7)) int_tag ≡ ok (1 ∷ le_bytes 8 7)
unfolding encode_value value_size check_int_range in_range encode_checked pack_signed_le twos
    pack_le tag_byte
int_encoded = refl

value_size-encode_value_example :
    value_size platform (int (pos 7)) int_tag ≡ ok (length (1 ∷ le_bytes 8 7))
value_size-encode_value_example =
    value_size-encode_value platform (int (pos 7)) int_tag (1 ∷ le_bytes 8 7) doubles-IsDouble
      int_encoded

int_coerced : coerce_value platform (int (pos 7)) int_tag ≡ ok (1 ∷ le_bytes 8 7, int_tag)
unfolding coerce_value encoded encode_value value_size check_int_range in_range encode_checked
    pack_signed_le twos pack_le tag_byte
int_coerced = refl

coerce_value-tag_example :
    (int_tag ≡ int_tag)
    × (w : Value classes) × (encode_value platform w int_tag ≡ ok (1 ∷ le_bytes 8 7))
coerce_value-tag_example =
    coerce_value-tag platform (int (pos 7)) int_tag int_tag (1 ∷ le_bytes 8 7) int_coerced
