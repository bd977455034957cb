-- ===== src/Types/Coerce/Typed.antt =====
-- The tags of the bytes that src/tinydb/types/coerce.py makes.
use tinydb.Base.{
  Option, ℤ, ◌≡◌, ap, ◌∙◌, sym, Bool, true, false, not, Result, ok, raise, ◌>>=◌, bind_inv, ok_inv,
  none, some, type_mismatch, if◌then◌else◌,
}
use tinydb.Bytes.{ByteString}
use tinydb.Types.{
  TypeTag, null_tag, int_tag, float_tag, text_tag, bool_tag, date_tag, time_tag, datetime_tag,
  decimal_tag, blob_tag, json_tag, Classes, Value, null, int, bool, float, text, date, time,
  datetime, decimal, blob, other, Platform,
}
use tinydb.Types.Codec.{encode_value}
use tinydb.Types.Coerce.{coerce_value, encoded, is_json, check_dumps}

unless_raised {ℓ} :
    {A : Type ℓ} (test : Bool) (m : Result A) (r : A)
    → (if not test then raise type_mismatch else m) ≡ ok r
    → m ≡ ok r
unless_raised true m r e = e
unless_raised false m r e = absurd (cc)

module _ {c : Classes} (p : Platform c) where
  encoded-tag :
      (v : Value c) (t t' : TypeTag) (b : ByteString)
      → encoded p v t ≡ ok (b, t')
      → (t' ≡ t) × (encode_value p v t ≡ ok b)
  unfolding encoded
  encoded-tag v t t' b e =
      let (x, made, whole) = bind_inv (encode_value p v t) (λ b. ok (b, t)) (b, t') e in
      let same : (x, t) ≡ (b, t') = ok_inv _ _ whole in
      (
        ap (λ (q : ByteString × TypeTag). q.1) (sym same),
        made ∙ ap (λ (q : ByteString × TypeTag). ok (q.0)) same,
      )

  -- The column's tag, and bytes that `encode_value` makes for it.
  abbrev pub IsFor : TypeTag → TypeTag → ByteString → Type 0
  IsFor t t' b = (t' ≡ t) × (w : Value c) × (encode_value p w t ≡ ok b)

  with_value :
      (v : Value c) (t t' : TypeTag) (b : ByteString) → encoded p v t ≡ ok (b, t') → IsFor t t' b
  with_value v t t' b e = let (same, made) = encoded-tag v t t' b e in (same, v, made)

  json_value :
      (v : Value c) (t' : TypeTag) (b : ByteString)
      → (if not (is_json p v)
          then raise type_mismatch
          else (check_dumps p v >>= λ _. encoded p v json_tag))
        ≡ ok (b, t')
      → IsFor json_tag t' b
  json_value v t' b e =
      let f =
        unless_raised (is_json p v) (check_dumps p v >>= λ _. encoded p v json_tag) (b, t') e in
      let (_, _, e') = bind_inv (check_dumps p v) (λ _. encoded p v json_tag) (b, t') f in
      with_value v json_tag t' b e'

  integral_value :
      (o : Option ℤ) (t' : TypeTag) (b : ByteString)
      → (elim o [ some z ↦ encoded p (int z) int_tag | none ↦ raise type_mismatch ]) ≡ ok (b, t')
      → IsFor int_tag t' b
  integral_value none t' b e = absurd (cc)
  integral_value (some z) t' b e = with_value (int z) int_tag t' b e

  -- What `coerce_value` returns is what `encode_value` makes of some value for the column's own
  -- tag, and it returns that tag.
  pub coerce_value-tag :
      (v : Value c) (t t' : TypeTag) (b : ByteString)
      → coerce_value p v t ≡ ok (b, t')
      → IsFor t t' b
  unfolding coerce_value
  coerce_value-tag null null_tag t' b e = with_value null null_tag t' b e
  coerce_value-tag (int z) int_tag t' b e = with_value (int z) int_tag t' b e
  coerce_value-tag (float x) int_tag t' b e = integral_value (p.integral x) t' b e
  coerce_value-tag (int z) float_tag t' b e =
      let (x, _, e') = bind_inv (p.float_of z) (λ x. encoded p (float x) float_tag) (b, t') e in
      with_value (float x) float_tag t' b e'
  coerce_value-tag (float x) float_tag t' b e = with_value (float x) float_tag t' b e
  coerce_value-tag (text x) text_tag t' b e = with_value (text x) text_tag t' b e
  coerce_value-tag (bool x) bool_tag t' b e = with_value (bool x) bool_tag t' b e
  coerce_value-tag (date x) date_tag t' b e = with_value (date x) date_tag t' b e
  coerce_value-tag (time x) time_tag t' b e = with_value (time x) time_tag t' b e
  coerce_value-tag (datetime x) datetime_tag t' b e = with_value (datetime x) datetime_tag t' b e
  coerce_value-tag (decimal x) decimal_tag t' b e = with_value (decimal x) decimal_tag t' b e
  coerce_value-tag (blob x) blob_tag t' b e = with_value (blob x) blob_tag t' b e
  coerce_value-tag (int z) decimal_tag t' b e =
      with_value (decimal (p.decimal_of z)) decimal_tag t' b e
  coerce_value-tag null json_tag t' b e = with_value null json_tag t' b e
  coerce_value-tag (int x) json_tag t' b e = json_value (int x) t' b e
  coerce_value-tag (bool x) json_tag t' b e = json_value (bool x) t' b e
  coerce_value-tag (float x) json_tag t' b e = json_value (float x) t' b e
  coerce_value-tag (text x) json_tag t' b e = json_value (text x) t' b e
  coerce_value-tag (date x) json_tag t' b e = json_value (date x) t' b e
  coerce_value-tag (time x) json_tag t' b e = json_value (time x) t' b e
  coerce_value-tag (datetime x) json_tag t' b e = json_value (datetime x) t' b e
  coerce_value-tag (decimal x) json_tag t' b e = json_value (decimal x) t' b e
  coerce_value-tag (blob x) json_tag t' b e = json_value (blob x) t' b e
  coerce_value-tag (other x) json_tag t' b e = json_value (other x) t' b e
  coerce_value-tag v t t' b e = absurd (cc)
