-- ===== src/Types/Coerce.antt =====
-- src/tinydb/types/coerce.py, and `encode_row_coerced` of src/tinydb/types/codec.py on values that the
-- parser has unwrapped.
pub mod Typed
use tinydb.Base.{
  ◌++◌, Bool, true, false, not, ◌||◌, List, [], ◌∷◌, length, ◌==◌, if◌then◌else◌, Result, ok, raise,
  ◌>>=◌, none, some, type_mismatch, value_error, type_error, unicode_error, Error,
}
use tinydb.Bytes.{ByteString}
use tinydb.Types.{
  TypeTag, null_tag, int_tag, float_tag, text_tag, bool_tag, date_tag, time_tag, datetime_tag,
  decimal_tag, blob_tag, json_tag, Classes, Value, null, int, bool, float, text, date, time,
  datetime, decimal, blob, other, Platform,
}
use tinydb.Types.Codec.{encode_value}

module _ {c : Classes} (p : Platform c) where
  -- `isinstance(value, _JSON_OK)`
  unfoldable pub is_json : Value c → Bool
  is_json null = true
  is_json (bool b) = true
  is_json (int z) = true
  is_json (float x) = true
  is_json (text s) = true
  is_json (other o) = p.is_container o
  is_json _ = false

  -- `encode_value(value, tag), tag`
  unfoldable pub encoded : Value c → TypeTag → Result (ByteString × TypeTag)
  encoded v tag = encode_value p v tag >>= λ b. ok (b, tag)

  -- A `TypeError` or `ValueError` of `json.dumps`, raised again.
  unfoldable pub mismatch_of : Error → Error
  mismatch_of type_error = type_mismatch
  mismatch_of value_error = type_mismatch
  mismatch_of unicode_error = type_mismatch
  mismatch_of e = e

  unfoldable pub check_dumps : Value c → Result (Unit {0})
  check_dumps v = elim (p.dumps v) [ ok _ ↦ ok tt | raise e ↦ raise (mismatch_of e) ]

  unfoldable pub coerce_value : Value c → TypeTag → Result (ByteString × TypeTag)
  coerce_value null null_tag = encoded null null_tag
  coerce_value _ null_tag = raise type_mismatch
  coerce_value null json_tag = encoded null json_tag
  coerce_value null _ = raise type_mismatch
  coerce_value (int z) int_tag = encoded (int z) int_tag
  coerce_value (float x) int_tag = elim (p.integral x) [
    | some z ↦ encoded (int z) int_tag
    | none ↦ raise type_mismatch
  ]
  coerce_value (int z) float_tag = p.float_of z >>= λ x. encoded (float x) float_tag
  coerce_value (float x) float_tag = encoded (float x) float_tag
  coerce_value (text s) text_tag = encoded (text s) text_tag
  coerce_value (bool b) bool_tag = encoded (bool b) bool_tag
  coerce_value (date d) date_tag = encoded (date d) date_tag
  coerce_value (time t) time_tag = encoded (time t) time_tag
  coerce_value (datetime d) datetime_tag = encoded (datetime d) datetime_tag
  coerce_value (decimal d) decimal_tag = encoded (decimal d) decimal_tag
  coerce_value (int z) decimal_tag = encoded (decimal (p.decimal_of z)) decimal_tag
  coerce_value (blob b) blob_tag = encoded (blob b) blob_tag
  coerce_value v json_tag =
      if not (is_json v) then raise type_mismatch else (check_dumps v >>= λ _. encoded v json_tag)
  coerce_value _ _ = raise type_mismatch

  -- The body of the loop of `encode_row_coerced`.
  unfoldable pub encode_coerced : Value c → TypeTag → Result ByteString
  encode_coerced null t = encode_value p null null_tag
  encode_coerced v t = coerce_value v t >>= λ r. ok (r.0)

  unfoldable pub coerce_fields : List (Value c) → List TypeTag → Result ByteString
  coerce_fields (v ∷ values) (t ∷ tags) = do
    a ← encode_coerced v t
    b ← coerce_fields values tags
    ok (a ++ b)
  coerce_fields _ _ = ok []

  unfoldable pub encode_row_coerced : List (Value c) → List TypeTag → Result ByteString
  encode_row_coerced values tags =
      if not (length values == length tags) then raise value_error else coerce_fields values tags
