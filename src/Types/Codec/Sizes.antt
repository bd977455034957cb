-- ===== src/Types/Codec/Sizes.antt =====
-- `value_size` of src/tinydb/types/codec.py against the bytes that `encode_value` makes.
use tinydb.Base.{
  ℕ, ◌+◌, ◌<◌, ◌^◌, ◌≡◌, ap, ◌∙◌, sym, ◌∷◌, ◌++◌, length, Result, ok, raise, ◌>>=◌, arith, ℤ,
  bind_inv, ok_inv, length-append,
}
use tinydb.Bytes.{ByteString, pack_le}
use tinydb.Bytes.Laws.{length-le_bytes}
use tinydb.Bytes.Signed.{half, pack_signed_le, pack_le_inv, pack_signed_le_inv}
use tinydb.Types.{
  TypeTag, null_tag, int_tag, float_tag, text_tag, bool_tag, date_tag, time_tag, datetime_tag,
  decimal_tag, blob_tag, json_tag, tag_byte, Classes, Value, null, int, bool, float, text, date,
  time, datetime, decimal, blob, other, Platform,
}
use tinydb.Types.Codec.{
  value_size, size_of_bytes, check_int_range, encode_checked, encode_value, with_length, days_of,
  null_literal, micros_of_time, in_utc, micros_of_datetime,
}

length-with_length :
    (tag : ℕ) (x b : ByteString) → with_length tag x ≡ ok b → length b ≡ 5 + length x
unfolding with_length
length-with_length tag x b e =
    let (l, packed, whole) = bind_inv (pack_le 4 (length x)) (λ l. ok (tag ∷ (l ++ x))) b e in
    let (le, _) = pack_le_inv 4 (length x) l packed in
    let same : tag ∷ (l ++ x) ≡ b = ok_inv _ _ whole in
    let n : length l ≡ 4 = rw le (length-le_bytes 4 (length x)) in
    rw (← same) (omega (arith, length-append l x))

length_signed :
    (k tag : ℕ) (z : ℤ) (b : ByteString)
    → 0 < 256 ^ k
    → half k + half k ≡ 256 ^ k
    → (pack_signed_le k z >>= λ d. ok (tag ∷ d)) ≡ ok b
    → length b ≡ 1 + k
length_signed k tag z b pos hh e =
    let (d, packed, whole) = bind_inv (pack_signed_le k z) (λ d. ok (tag ∷ d)) b e in
    let (n, _) = pack_signed_le_inv k z d pos hh packed in
    let same : tag ∷ d ≡ b = ok_inv _ _ whole in rw (← same) (omega (arith, n))

length_time : (n : ℕ) (b : ByteString) → (pack_le 8 n >>= λ d. ok (6 ∷ d)) ≡ ok b → length b ≡ 9
length_time n b e =
    let (d, packed, whole) = bind_inv (pack_le 8 n) (λ d. ok (6 ∷ d)) b e in
    let (le, _) = pack_le_inv 8 n d packed in
    let same : 6 ∷ d ≡ b = ok_inv _ _ whole in rw (← same, le) (omega (arith, length-le_bytes 8 n))

module _ {c : Classes} (p : Platform c) where
  -- A double has 8 bytes.
  abbrev pub IsDouble : Type 0
  IsDouble = (v : Value c) (b : ByteString) → p.pack_double v ≡ ok b → length b ≡ 8

  length_float :
      (v : Value c) (b : ByteString)
      → IsDouble
      → (p.pack_double v >>= λ d. ok (2 ∷ d)) ≡ ok b
      → length b ≡ 9
  length_float v b h e =
      let (d, packed, whole) = bind_inv (p.pack_double v) (λ d. ok (2 ∷ d)) b e in
      let same : 2 ∷ d ≡ b = ok_inv _ _ whole in rw (← same) (omega (arith, h v d packed))

  length_datetime :
      (x : c.Datetime) (b : ByteString)
      → (in_utc p x >>= λ u. pack_signed_le 8 (micros_of_datetime p u) >>= λ d. ok (7 ∷ d)) ≡ ok b
      → length b ≡ 9
  length_datetime x b e =
      let (u, _, e') =
        bind_inv (in_utc p x) (λ u. pack_signed_le 8 (micros_of_datetime p u) >>= λ d. ok (7 ∷ d)) b
          e in
      length_signed 8 7 (micros_of_datetime p u) b (omega arith) (omega arith) e'

  size_bytes :
      (r : Result ByteString) (tag n : ℕ) (b : ByteString)
      → size_of_bytes p r ≡ ok n
      → (r >>= with_length tag) ≡ ok b
      → length b ≡ n
  unfolding size_of_bytes
  size_bytes (ok x) tag n b s e =
      let k : 5 + length x ≡ n = ok_inv _ _ s in length-with_length tag x b e ∙ k
  size_bytes (raise y) tag n b s e = absurd (cc)

  int_size :
      (v : Value c) (n : ℕ) (b : ByteString)
      → value_size p v int_tag ≡ ok n
      → encode_checked p v int_tag ≡ ok b
      → length b ≡ n
  unfolding value_size encode_checked tag_byte check_int_range
  int_size (int z) n b s e =
      let (_, _, k) = bind_inv (check_int_range p (int z)) (λ _. ok 9) n s in
      length_signed 8 1 z b (omega arith) (omega arith) e ∙ ok_inv _ _ k
  int_size v n b s e = absurd (cc)

  checked-size :
      (v : Value c) (t : TypeTag) (n : ℕ) (b : ByteString)
      → IsDouble
      → value_size p v t ≡ ok n
      → encode_checked p v t ≡ ok b
      → length b ≡ n
  unfolding value_size encode_checked tag_byte days_of check_int_range
  checked-size null null_tag n b h s e = let k : 1 ≡ n = ok_inv _ _ s in rw (← ok_inv _ _ e) k
  checked-size v int_tag n b h s e = int_size v n b s e
  checked-size null float_tag n b h s e = absurd (cc)
  checked-size (int x) float_tag n b h s e = length_float (int x) b h e ∙ ok_inv _ _ s
  checked-size (bool x) float_tag n b h s e = length_float (bool x) b h e ∙ ok_inv _ _ s
  checked-size (float x) float_tag n b h s e = length_float (float x) b h e ∙ ok_inv _ _ s
  checked-size (text x) float_tag n b h s e = length_float (text x) b h e ∙ ok_inv _ _ s
  checked-size (date x) float_tag n b h s e = length_float (date x) b h e ∙ ok_inv _ _ s
  checked-size (time x) float_tag n b h s e = length_float (time x) b h e ∙ ok_inv _ _ s
  checked-size (datetime x) float_tag n b h s e = length_float (datetime x) b h e ∙ ok_inv _ _ s
  checked-size (decimal x) float_tag n b h s e = length_float (decimal x) b h e ∙ ok_inv _ _ s
  checked-size (blob x) float_tag n b h s e = length_float (blob x) b h e ∙ ok_inv _ _ s
  checked-size (other x) float_tag n b h s e = length_float (other x) b h e ∙ ok_inv _ _ s
  checked-size (bool x) bool_tag n b h s e = let k : 2 ≡ n = ok_inv _ _ s in rw (← ok_inv _ _ e) k
  checked-size (date x) date_tag n b h s e =
      length_signed 4 5 (p.days x) b (omega arith) (omega arith) e ∙ ok_inv _ _ s
  checked-size (time x) time_tag n b h s e = length_time (micros_of_time x) b e ∙ ok_inv _ _ s
  checked-size (datetime x) datetime_tag n b h s e = length_datetime x b e ∙ ok_inv _ _ s
  checked-size (text x) text_tag n b h s e = size_bytes (p.utf8 x) 3 n b s e
  checked-size (decimal x) decimal_tag n b h s e = size_bytes (p.utf8 (p.format x)) 8 n b s e
  checked-size (blob x) blob_tag n b h s e = length-with_length 9 x b e ∙ ok_inv _ _ s
  checked-size null json_tag n b h s e = length-with_length 10 null_literal b e ∙ ok_inv _ _ s
  checked-size (int x) json_tag n b h s e = size_bytes (p.dumps (int x) >>= p.utf8) 10 n b s e
  checked-size (bool x) json_tag n b h s e = size_bytes (p.dumps (bool x) >>= p.utf8) 10 n b s e
  checked-size (float x) json_tag n b h s e = size_bytes (p.dumps (float x) >>= p.utf8) 10 n b s e
  checked-size (text x) json_tag n b h s e = size_bytes (p.dumps (text x) >>= p.utf8) 10 n b s e
  checked-size (date x) json_tag n b h s e = size_bytes (p.dumps (date x) >>= p.utf8) 10 n b s e
  checked-size (time x) json_tag n b h s e = size_bytes (p.dumps (time x) >>= p.utf8) 10 n b s e
  checked-size (datetime x) json_tag n b h s e =
      size_bytes (p.dumps (datetime x) >>= p.utf8) 10 n b s e
  checked-size (decimal x) json_tag n b h s e =
      size_bytes (p.dumps (decimal x) >>= p.utf8) 10 n b s e
  checked-size (blob x) json_tag n b h s e = size_bytes (p.dumps (blob x) >>= p.utf8) 10 n b s e
  checked-size (other x) json_tag n b h s e = size_bytes (p.dumps (other x) >>= p.utf8) 10 n b s e
  checked-size v t n b h s e = absurd (cc)

  -- When `encode_value` returns, `value_size` is the length of what it returns.
  pub value_size-encode_value :
      (v : Value c) (t : TypeTag) (b : ByteString)
      → IsDouble
      → encode_value p v t ≡ ok b
      → value_size p v t ≡ ok (length b)
  unfolding encode_value
  value_size-encode_value v t b h e =
      let (n, s, checked) = bind_inv (value_size p v t) (λ _. encode_checked p v t) b e in
      s ∙ ap ok (sym (checked-size v t n b h s checked))
