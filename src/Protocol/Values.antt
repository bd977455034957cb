-- ===== src/Protocol/Values.antt =====
-- src/tinydb/protocol/messages.py: the typed values of RESULT_ROW and of the parameters of EXEC. A
-- decoder holds the payload from `offset` on.
pub mod RoundTrip
use tinydb.Base.{
  ℕ, zero, suc, ◌+◌, Bool, true, false, not, ◌&&◌, List, [], ◌∷◌, ◌++◌, length, take, drop, get_or,
  ltb, ◌==◌, if◌then◌else◌, Result, ok, raise, ◌>>=◌, value_error, ℤ,
}
use tinydb.Bytes.{ByteString, be_value, pack_be}
use tinydb.Bytes.Signed.{pack_signed_be, unpack_signed_be}
use tinydb.Protocol.Platform.{Platform}

-- `ParamType`
abbrev pub type_null : ℕ
type_null = 0

abbrev pub type_int64 : ℕ
type_int64 = 1

abbrev pub type_float64 : ℕ
type_float64 = 2

abbrev pub type_string : ℕ
type_string = 3

abbrev pub type_bool : ℕ
type_bool = 4

-- A value of a row: `other` has any class that the encoder turns into text. A parameter of EXEC is one
-- whose type code agrees with its value.
pub data Value (p : Platform) : Type 0 where
  null : Value p
  int : ℤ → Value p
  float : p.Float → Value p
  string : p.Str → Value p
  bool : Bool → Value p
  other : p.Other → Value p

-- The type code, the length and the bytes of one value.
unfoldable pub encode_field : ℕ → ℕ → ByteString → Result ByteString
encode_field code len data_ = do l ← pack_be 4 len; ok (code ∷ (l ++ data_))

unfoldable pub flag : Bool → ℕ
flag b = if b then 1 else 0

-- `bool(byte)`
unfoldable pub to_bool : ℕ → Bool
to_bool byte = not (byte == 0)

module _ (p : Platform) where
  -- the body of the loop of `ResultRow.to_frame` and of `Exec.to_frame`
  unfoldable pub encode_value : Value p → Result ByteString
  encode_value null = encode_field type_null 0 []
  encode_value (int z) = pack_signed_be 8 z >>= encode_field type_int64 8
  encode_value (float x) = encode_field type_float64 8 (p.pack_double x)
  encode_value (string s) = p.utf8 s >>= λ b. encode_field type_string (length b) b
  encode_value (bool b) = encode_field type_bool 1 (flag b ∷ [])
  encode_value (other o) = p.utf8 (p.str o) >>= λ b. encode_field type_string (length b) b

  unfoldable pub encode_values : List (Value p) → Result ByteString
  encode_values [] = ok []
  encode_values (v ∷ vs) = do a ← encode_value v; b ← encode_values vs; ok (a ++ b)

  -- The branches on the type code: `strict` refuses bytes in a null, which RESULT_ROW does and EXEC
  -- does not.
  unfoldable pub decode_data : Bool → ℕ → ℕ → ByteString → Result (Value p)
  decode_data strict code len data_ =
      if code == type_null
      then (if strict && not (len == 0) then raise value_error else ok null)
      else if code == type_int64
      then (if not (len == 8) then raise value_error else ok (int (unpack_signed_be 8 data_)))
      else if code == type_float64
      then (if not (len == 8) then raise value_error else ok (float (p.unpack_double data_)))
      else if code == type_string
      then (p.from_utf8 data_ >>= λ s. ok (string s))
      else if not (len == 1)
      then raise value_error
      else ok (bool (to_bool (get_or data_ 0 0)))

  -- The body of the decoding loops: the value, and the payload behind it.
  unfoldable pub decode_value : Bool → ByteString → Result (Value p × ByteString)
  decode_value strict rest =
      let code = get_or rest 0 0 in
      let len = be_value (take 4 (drop 1 rest)) in
      let body = drop 5 rest in
      if ltb (length rest) 5
      then raise value_error
      else if ltb type_bool code
      then raise value_error
      else if ltb (length body) len
      then raise value_error
      else (do v ← decode_data strict code len (take len body); ok (v, drop len body))

  unfoldable pub decode_values : Bool → ℕ → ByteString → Result (List (Value p))
  decode_values strict zero rest = ok []
  decode_values strict (suc count) rest = do
    (v, rest') ← decode_value strict rest
    vs ← decode_values strict count rest'
    ok (v ∷ vs)

  -- A value as it arrives.
  unfoldable pub shown : Value p → Value p
  shown null = null
  shown (int z) = int z
  shown (float x) = float x
  shown (string s) = string s
  shown (bool b) = bool b
  shown (other o) = string (p.str o)
