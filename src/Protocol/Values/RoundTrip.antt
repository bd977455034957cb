-- ===== src/Protocol/Values/RoundTrip.antt =====
-- The typed values of src/tinydb/protocol/messages.py through encoder and decoder.
use mathlib.Core.List.{append_assoc}
use tinydb.Base.{
  ℕ, ◌^◌, ◌≤◌, ◌<◌, ◌≡◌, refl, sym, Bool, true, false, List, [], ◌∷◌, ◌++◌, map, arith, length,
  take, drop, get_or, ok, ℤ, bind_inv, ok_inv, length-append, take-append, drop-append,
  le→ltb_false,
}
use tinydb.Bytes.{ByteString, be_bytes, be_value, pack_be}
use tinydb.Bytes.Laws.{length-be_bytes, be_value-be_bytes}
use tinydb.Bytes.Signed.{pack_signed_be, unpack_signed_be, twos, twos_lem}
use tinydb.Protocol.Platform.{Platform, IsFaithful}
use tinydb.Protocol.Values.{
  Value, null, int, float, string, bool, other, encode_field, encode_value, encode_values,
  decode_data, decode_value, decode_values, shown, flag, to_bool,
}

pub pack_be_inv :
    (k n : ℕ) (b : ByteString) → pack_be k n ≡ ok b → (b ≡ be_bytes k n) × (n < 256 ^ k)
unfolding pack_be
pack_be_inv k n b h = ground arith

pub pack_signed_be_inv :
    (z : ℤ) (b : ByteString)
    → pack_signed_be 8 z ≡ ok b
    → (length b ≡ 8) × (unpack_signed_be 8 b ≡ z)
unfolding pack_signed_be unpack_signed_be
pack_signed_be_inv z b h =
    let (n, t, e) = bind_inv (twos 8 z) (pack_be 8) b h in
    let (fits, back) = twos_lem 8 n z (omega arith) (omega arith) t in
    let (same, _) = pack_be_inv 8 n b e in
    rw same (length-be_bytes 8 n, rw (be_value-be_bytes 8 n fits) back)

-- The fields of one encoded value, with anything behind them.
field_parts :
    (code len : ℕ) (data_ rest : ByteString)
    → len < 256 ^ 4
    → let w = (code ∷ (be_bytes 4 len ++ data_)) ++ rest in
      (get_or w 0 0 ≡ code)
      × (be_value (take 4 (drop 1 w)) ≡ len)
      × (drop 5 w ≡ data_ ++ rest)
      × (5 ≤ length w)
unfolding get_or drop
field_parts code len data_ rest h =
    let l = be_bytes 4 len in
    let n = length-be_bytes 4 len in
    (
      refl,
      rw (append_assoc l data_ rest, take-append 4 l (data_ ++ rest) (sym n))
          (be_value-be_bytes 4 len h),
      rw (append_assoc l data_ rest) (drop-append 4 l (data_ ++ rest) (sym n)),
      omega (arith, n, length-append (l ++ data_) rest, length-append l data_),
    )

module _ (p : Platform) where
  field-decode_value :
      (strict : Bool) (code : ℕ) (data_ b rest : ByteString) (v : Value p)
      → encode_field code (length data_) data_ ≡ ok b
      → code ≤ 4
      → decode_data p strict code (length data_) data_ ≡ ok v
      → decode_value p strict (b ++ rest) ≡ ok (v, rest)
  unfolding encode_field decode_value
  field-decode_value strict code data_ b rest v e small d =
      let (l, pl, bl) = bind_inv (pack_be 4 (length data_)) (λ l. ok (code ∷ (l ++ data_))) b e in
      let (same, fits) = pack_be_inv 4 (length data_) l pl in
      let whole : b ≡ code ∷ (be_bytes 4 (length data_) ++ data_) =
        rw (← same) (sym (ok_inv _ _ bl)) in
      let parts = field_parts code (length data_) data_ rest fits in
      rw (
        whole,
        le→ltb_false _ 5 parts.3,
        parts.0,
        parts.1,
        parts.2,
        le→ltb_false 4 code small,
        le→ltb_false (length (data_ ++ rest)) (length data_)
            (omega (arith, length-append data_ rest)),
        take-append (length data_) data_ rest refl,
        drop-append (length data_) data_ rest refl,
        d,
      )

  flag_lem : (b : Bool) → to_bool (flag b) ≡ b
  unfolding to_bool flag
  flag_lem true = refl
  flag_lem false = refl

  pub decode-encode_value :
      (strict : Bool) (v : Value p) (b rest : ByteString)
      → IsFaithful p
      → encode_value p v ≡ ok b
      → decode_value p strict (b ++ rest) ≡ ok (shown p v, rest)
  unfolding encode_value shown
  decode-encode_value strict null b rest h e =
      field-decode_value strict 0 [] b rest null e (omega arith)
        (unfold decode_data in ground arith)
  decode-encode_value strict (int z) b rest h e =
      let (d, pd, ed) = bind_inv (pack_signed_be 8 z) (encode_field 1 8) b e in
      let (len, back) = pack_signed_be_inv z d pd in
      field-decode_value strict 1 d b rest (int z) (rw len ed) (omega arith)
        (unfold decode_data in rw (len, back))
  decode-encode_value strict (float x) b rest h e =
      let len = h.length_double x in
      field-decode_value strict 2 (p.pack_double x) b rest (float x) (rw len e) (omega arith)
        (unfold decode_data in rw (len, h.double x))
  decode-encode_value strict (string s) b rest h e =
      let (d, pd, ed) = bind_inv (p.utf8 s) (λ b. encode_field 3 (length b) b) b e in
      field-decode_value strict 3 d b rest (string s) ed (omega arith)
        (unfold decode_data in rw (h.utf8 s d pd))
  decode-encode_value strict (bool x) b rest h e =
      field-decode_value strict 4 (flag x ∷ []) b rest (bool x) e (omega arith)
        (unfold decode_data get_or in rw (flag_lem x))
  decode-encode_value strict (other o) b rest h e =
      let (d, pd, ed) = bind_inv (p.utf8 (p.str o)) (λ b. encode_field 3 (length b) b) b e in
      field-decode_value strict 3 d b rest (string (p.str o)) ed (omega arith)
        (unfold decode_data in rw (h.utf8 (p.str o) d pd))

  pub decode-encode_values :
      (strict : Bool) (vs : List (Value p)) (b rest : ByteString)
      → IsFaithful p
      → encode_values p vs ≡ ok b
      → decode_values p strict (length vs) (b ++ rest) ≡ ok (map (shown p) vs)
  unfolding encode_values decode_values
  decode-encode_values strict [] b rest h e = refl
  decode-encode_values strict (v ∷ vs) b rest h e =
      let (x, ex, e') = bind_inv (encode_value p v) _ b e in
      let (y, ey, e'') = bind_inv (encode_values p vs) (λ y. ok (x ++ y)) b e' in
      rw (
        ← ok_inv (x ++ y) b e'',
        append_assoc x y rest,
        decode-encode_value strict v x (y ++ rest) h ex,
        decode-encode_values strict vs y rest h ey,
      )
