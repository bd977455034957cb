-- ===== src/Types/Codec/RoundTrip.antt =====
-- One value of src/tinydb/types/codec.py through encoder and decoder.
use tinydb.Base.{
  ℕ, ◌+◌, ◌*◌, ◌/◌, ◌%◌, ◌<◌, ◌≡◌, refl, ap, ◌∙◌, sym, Bool, true, false, not, [], ◌∷◌, ◌++◌,
  length, ok, none, ◌>>=◌, arith, ℤ, bind_inv, ok_inv, if◌then◌else◌, length-append, get_or-append,
  lt→leb_false, ◌==◌,
}
use tinydb.Bytes.{ByteString, le_bytes, le_value, pack_le}
use tinydb.Bytes.Laws.{length-le_bytes, le_value-le_bytes}
use tinydb.Bytes.Signed.{pack_signed_le, pack_le_inv, pack_signed_le_inv}
use tinydb.Types.{
  TypeTag, null_tag, int_tag, float_tag, text_tag, bool_tag, date_tag, time_tag, datetime_tag,
  decimal_tag, json_tag, tag_byte, Classes, Time, Value, null, int, bool, float, text, date, time,
  datetime, decimal, Platform,
}
use tinydb.Types.Codec.{
  with_length, counted, in_utc, micros_of_datetime, micros_of_time, time_of_micros, decode_tagged,
  decode_value, null_literal,
}
use tinydb.Types.Codec.Buffer.{field_lem, counted_lem, decode_value_at}

-- A time of day without a zone, with fields that `datetime.time` takes back.
pub record IsTime {c : Classes} (p : Platform c) (t : Time c) : Type 0 where
  pub naive : t.tzinfo ≡ none
  pub minute : t.minute < 60
  pub second : t.second < 60
  pub microsecond : t.microsecond < 1000000
  pub make : p.make_time t.hour t.minute t.second t.microsecond ≡ ok t

-- A datetime without a zone, whose distance from the epoch the double keeps to the microsecond; the epoch
-- and the distance make the datetime again.
pub record IsDatetime {c : Classes} (p : Platform c) (d : c.Datetime) : Type 0 where
  pub naive : p.zone_of d ≡ none
  pub exact : micros_of_datetime p d ≡ p.since_epoch d
  pub make : p.datetime_of (p.since_epoch d) ≡ ok d

module _ {c : Classes} (p : Platform c) where
  -- What the library gives back of a value of a column of this type.
  abbrev pub Survives : Value c → TypeTag → Type 0
  Survives v null_tag = v ≡ null
  Survives v float_tag =
      (b : ByteString) → p.pack_double v ≡ ok b → (length b ≡ 8) × (v ≡ float (p.unpack_double b))
  Survives (date d) date_tag = p.date_of (p.days d) ≡ ok d
  Survives (time t) time_tag = IsTime p t
  Survives (datetime d) datetime_tag = IsDatetime p d
  Survives (text s) text_tag = (b : ByteString) → p.utf8 s ≡ ok b → p.from_utf8 b ≡ ok s
  Survives (decimal d) decimal_tag =
      (b : ByteString) → p.utf8 (p.format d) ≡ ok b → (p.from_utf8 b >>= p.parse_decimal) ≡ ok d
  Survives null json_tag = (p.from_utf8 null_literal >>= p.loads) ≡ ok null
  Survives v json_tag =
      (b : ByteString) → (p.dumps v >>= p.utf8) ≡ ok b → (p.from_utf8 b >>= p.loads) ≡ ok v
  Survives _ _ = Unit

  -- Anywhere in a buffer, the bytes decode to the value, and the next offset is behind them.
  abbrev pub Decodes : Value c → ByteString → Type 0
  Decodes v b =
      (pre rest : ByteString)
      → decode_value p (pre ++ (b ++ rest)) (length pre) ≡ ok (v, length pre + length b)

  -- From the branch of the decoder for the tag.
  from_tagged :
      (t : TypeTag) (v : Value c) (body pre rest : ByteString)
      → decode_tagged p t
          ((pre ++ (tag_byte t ∷ [])) ++ (body ++ rest))
          (length (pre ++ (tag_byte t ∷ [])))
        ≡ ok (v, length (pre ++ (tag_byte t ∷ [])) + length body)
      → decode_value p (pre ++ ((tag_byte t ∷ body) ++ rest)) (length pre)
        ≡ ok (v, length pre + length (tag_byte t ∷ body))
  from_tagged t v body pre rest e =
      decode_value_at p t pre body rest
      ∙ e
      ∙ ap (λ (k : ℕ). ok (v, k)) (omega (arith, length-append pre (tag_byte t ∷ [])))

  pub int_Decodes :
      (z : ℤ) (b : ByteString) → (pack_signed_le 8 z >>= λ d. ok (1 ∷ d)) ≡ ok b → Decodes (int z) b
  unfolding decode_tagged tag_byte
  int_Decodes z b e pre rest =
      let (d, packed, whole) = bind_inv (pack_signed_le 8 z) (λ d. ok (1 ∷ d)) b e in
      let (n, back) = pack_signed_le_inv 8 z d (omega arith) (omega arith) packed in
      let same : 1 ∷ d ≡ b = ok_inv _ _ whole in
      rw (← same) (
        from_tagged int_tag (int z) d pre rest
          (rw (field_lem 8 (pre ++ (1 ∷ [])) d rest n, back, n) refl))

  pub float_Decodes :
      (v : Value c) (b : ByteString)
      → Survives v float_tag
      → (p.pack_double v >>= λ d. ok (2 ∷ d)) ≡ ok b
      → Decodes v b
  unfolding decode_tagged tag_byte
  float_Decodes v b h e pre rest =
      let (d, packed, whole) = bind_inv (p.pack_double v) (λ d. ok (2 ∷ d)) b e in
      let (n, back) = h d packed in
      let same : 2 ∷ d ≡ b = ok_inv _ _ whole in
      rw (← same) (
        from_tagged float_tag v d pre rest (
          rw (field_lem 8 (pre ++ (2 ∷ [])) d rest n, n)
            (ap (λ (w : Value c). ok (w, length (pre ++ (2 ∷ [])) + 8)) (sym back))))

  bool_back : (x : Bool) → not ((if x then 1 else 0) == 0) ≡ x
  bool_back true = refl
  bool_back false = refl

  pub bool_Decodes : (x : Bool) → Decodes (bool x) (4 ∷ ((if x then 1 else 0) ∷ []))
  unfolding decode_tagged tag_byte
  bool_Decodes x pre rest =
      let n : ℕ = if x then 1 else 0 in
      from_tagged bool_tag (bool x) (n ∷ []) pre rest (
        rw
          (
            lt→leb_false (length ((pre ++ (4 ∷ [])) ++ (n ∷ rest))) (length (pre ++ (4 ∷ [])))
                (omega (arith, length-append (pre ++ (4 ∷ [])) (n ∷ rest))),
            get_or-append (pre ++ (4 ∷ [])) n 0 rest,
            bool_back x,
          )
          refl)

  pub date_Decodes :
      (x : c.Date) (b : ByteString)
      → p.date_of (p.days x) ≡ ok x
      → (pack_signed_le 4 (p.days x) >>= λ d. ok (5 ∷ d)) ≡ ok b
      → Decodes (date x) b
  unfolding decode_tagged tag_byte
  date_Decodes x b h e pre rest =
      let (d, packed, whole) = bind_inv (pack_signed_le 4 (p.days x)) (λ d. ok (5 ∷ d)) b e in
      let (n, back) = pack_signed_le_inv 4 (p.days x) d (omega arith) (omega arith) packed in
      let same : 5 ∷ d ≡ b = ok_inv _ _ whole in
      rw (← same) (
        from_tagged date_tag (date x) d pre rest
          (rw (field_lem 4 (pre ++ (5 ∷ [])) d rest n, back, h, n) refl))

  in_utc_naive : (x : c.Datetime) → p.zone_of x ≡ none → in_utc p x ≡ ok x
  unfolding in_utc
  in_utc_naive x e = rw (e, in_utc) refl

  pub datetime_Decodes :
      (x : c.Datetime) (b : ByteString)
      → IsDatetime p x
      → (in_utc p x >>= λ u. pack_signed_le 8 (micros_of_datetime p u) >>= λ d. ok (7 ∷ d)) ≡ ok b
      → Decodes (datetime x) b
  unfolding decode_tagged tag_byte
  datetime_Decodes x b h e pre rest =
      let z = p.since_epoch x in
      let e' : (pack_signed_le 8 z >>= λ d. ok (7 ∷ d)) ≡ ok b =
        rw (in_utc_naive x h.naive, h.exact) at e in
      let (d, packed, whole) = bind_inv (pack_signed_le 8 z) (λ d. ok (7 ∷ d)) b e' in
      let (n, back) = pack_signed_le_inv 8 z d (omega arith) (omega arith) packed in
      let same : 7 ∷ d ≡ b = ok_inv _ _ whole in
      rw (← same) (
        from_tagged datetime_tag (datetime x) d pre rest
          (rw (field_lem 8 (pre ++ (7 ∷ [])) d rest n, back, h.make, n) refl))

  time_parts :
      (m k h : ℕ) (t : Time c)
      → m / 1000000 ≡ k
      → m % 1000000 ≡ t.microsecond
      → k % 60 ≡ t.second
      → k / 60 ≡ h
      → h % 60 ≡ t.minute
      → h / 60 ≡ t.hour
      → time_of_micros p m ≡ p.make_time t.hour t.minute t.second t.microsecond
  unfolding time_of_micros
  time_parts m k h t a b d e f g = rw (a, b, d, e, f, g, time_of_micros) refl

  -- The three divisions give the fields back.
  time_back : (t : Time c) → IsTime p t → time_of_micros p (micros_of_time t) ≡ ok t
  unfolding micros_of_time
  time_back t h =
      time_parts ((t.hour * 3600 + t.minute * 60 + t.second) * 1000000 + t.microsecond)
        (t.hour * 3600 + t.minute * 60 + t.second) (t.hour * 60 + t.minute) t
        (omega (arith, h.microsecond)) (omega (arith, h.microsecond)) (omega (arith, h.second))
        (omega (arith, h.second)) (omega (arith, h.minute)) (omega (arith, h.minute))
      ∙ h.make

  pub time_Decodes :
      (t : Time c) (b : ByteString)
      → IsTime p t
      → (pack_le 8 (micros_of_time t) >>= λ d. ok (6 ∷ d)) ≡ ok b
      → Decodes (time t) b
  unfolding decode_tagged tag_byte
  time_Decodes t b h e pre rest =
      let (d, packed, whole) = bind_inv (pack_le 8 (micros_of_time t)) (λ d. ok (6 ∷ d)) b e in
      let (le, fits) = pack_le_inv 8 (micros_of_time t) d packed in
      let n : length d ≡ 8 = rw le (length-le_bytes 8 (micros_of_time t)) in
      let back : le_value d ≡ micros_of_time t =
        rw le (le_value-le_bytes 8 (micros_of_time t) fits) in
      let same : 6 ∷ d ≡ b = ok_inv _ _ whole in
      rw (← same) (
        from_tagged time_tag (time t) d pre rest
          (rw (field_lem 8 (pre ++ (6 ∷ [])) d rest n, back, time_back t h, n) refl))

  -- A field with its length.
  pub counted_Decodes :
      (t : TypeTag) (v : Value c) (payload b : ByteString)
      → with_length (tag_byte t) payload ≡ ok b
      → ((buf : ByteString) (offset next : ℕ)
          → counted p buf offset ≡ ok (payload, next)
          → decode_tagged p t buf offset ≡ ok (v, next))
      → Decodes v b
  unfolding with_length
  counted_Decodes t v payload b e k pre rest =
      let n = length payload in
      let (l, packed, whole) = bind_inv (pack_le 4 n) (λ l. ok (tag_byte t ∷ (l ++ payload))) b e in
      let (le, fits) = pack_le_inv 4 n l packed in
      let same : tag_byte t ∷ (le_bytes 4 n ++ payload) ≡ b = rw (← le) (ok_inv _ _ whole) in
      let pre' = pre ++ (tag_byte t ∷ []) in
      rw (← same) (
        from_tagged t v (le_bytes 4 n ++ payload) pre rest (
          k (pre' ++ ((le_bytes 4 n ++ payload) ++ rest)) (length pre') _
            (counted_lem p pre' payload rest fits)
          ∙ ap (λ (x : ℕ). ok (v, x))
              (omega (arith, length-append (le_bytes 4 n) payload, length-le_bytes 4 n))))
