-- ===== src/Protocol/Messages/Parts.antt =====
-- The payloads of src/tinydb/protocol/messages.py, class by class, through encoder and decoder.
use mathlib.Core.List.{append-nil}
use tinydb.Base.{
  bind_inv, ok_inv, ℕ, suc, ◌+◌, ◌≤◌, ◌≡◌, refl, sym, ◌∙◌, ap, subst, List, [], ◌∷◌, ◌++◌, map,
  arith, length, take, drop, get_or, false, ok, ℤ, length-append, take-append, drop-append,
  take_all, drop-append_add, le→ltb_false, eq→==,
}
use tinydb.Bytes.{ByteString, be_bytes, be_value, pack_be}
use tinydb.Bytes.Laws.{length-be_bytes, be_value-be_bytes}
use tinydb.Bytes.Signed.{pack_signed_be, unpack_signed_be}
use tinydb.Protocol.Frame.{Frame, make_frame}
use tinydb.Protocol.Frame.Wire.{get_or-append_add}
use tinydb.Protocol.Platform.{Platform, IsFaithful}
use tinydb.Protocol.Values.{Value, encode_values, decode_values, shown}
use tinydb.Protocol.Values.RoundTrip.{pack_be_inv, pack_signed_be_inv, decode-encode_values}
use tinydb.Protocol.Messages.{
  Message, exec, max_sql_len, max_params, max_err_msg_len, require, one_byte, unpack_u64, make_exec,
  encode_error, encode_columns, decode_error, decode_exec, decode_columns,
}

pub make_frame_inv :
    (ty : ℕ) (payload : ByteString) (f : Frame)
    → make_frame 0 ty 0 payload ≡ ok f
    → (f.type ≡ ty) × (f.payload ≡ payload)
unfolding make_frame
make_frame_inv ty payload f h = ground arith

pub require_ok :
    (payload : ByteString) (need : ℕ) → need ≤ length payload → require payload need ≡ ok tt
unfolding require
require_ok payload need h = rw (le→ltb_false (length payload) need h)

one_byte_inv : (n : ℕ) (b : ByteString) → one_byte n ≡ ok b → b ≡ n ∷ []
unfolding one_byte
one_byte_inv n b h = ground arith

length-map {ℓ κ} :
    {A : Type ℓ} {B : Type κ} (f : A → B) (xs : List A) → length (map f xs) ≡ length xs
length-map f [] = refl
length-map f (x ∷ xs) = ap suc (length-map f xs)

-- A big-endian length field at the start.
pub length_field :
    (k n : ℕ) (l rest : ByteString)
    → pack_be k n ≡ ok l
    → (be_value (take k (l ++ rest)) ≡ n) × (drop k (l ++ rest) ≡ rest) × (length l ≡ k)
length_field k n l rest h =
    let (same, fits) = pack_be_inv k n l h in
    let len = length-be_bytes k n in
    rw
      (
        same,
        take-append k (be_bytes k n) rest (sym len),
        drop-append k (be_bytes k n) rest (sym len),
      )
      (be_value-be_bytes k n fits, refl, len)

module _ (p : Platform) where
  pub decode-encode_error :
      (make : p.Str → p.Str → Message p) (code msg : p.Str) (b : ByteString)
      → IsFaithful p
      → ((c : ByteString) → p.ascii code ≡ ok c → length c ≡ 5)
      → encode_error p code msg ≡ ok b
      → decode_error p make b ≡ ok (make code msg)
  unfolding encode_error decode_error
  decode-encode_error make code msg b h five e =
      let (c, ec, e1) = bind_inv (p.ascii code) _ b e in
      let (m, em, e2) = bind_inv (p.utf8 msg) _ b e1 in
      let (l, el, e3) = bind_inv (pack_be 2 (length m)) _ b e2 in
      let n5 = five c ec in
      let (value, _, len) = length_field 2 (length m) l m el in
      let (_, fits) = pack_be_inv 2 (length m) l el in
      let total = length-append c (l ++ m) in
      let inner = length-append l m in
      rw (
        ← ok_inv (c ++ (l ++ m)) b e3,
        drop-append 5 c (l ++ m) (sym n5),
        value,
        take-append 5 c (l ++ m) (sym n5),
        drop-append_add 7 2 c (l ++ m) (omega arith),
        drop-append 2 l m (sym len),
        take_all (length m) m (omega arith),
        require_ok (c ++ (l ++ m)) 7 (omega arith),
        require_ok (c ++ (l ++ m)) (7 + length m) (omega arith),
        h.ascii code c ec,
        le→ltb_false max_err_msg_len (length m) (omega arith),
        h.utf8 msg m em,
      )

  columns_inv :
      (name : p.Str) (code : ℕ) (columns : List (p.Str × ℕ)) (b : ByteString)
      → encode_columns p ((name, code) ∷ columns) ≡ ok b
      → (x y : ByteString) × (p.utf8 name ≡ ok x)
        × (encode_columns p columns ≡ ok y)
        × (b ≡ length x ∷ (x ++ (code ∷ y)))
  unfolding encode_columns
  columns_inv name code columns b e =
      let (x, ex, e1) = bind_inv (p.utf8 name) _ b e in
      let (l, el, e2) = bind_inv (one_byte (length x)) _ b e1 in
      let (c, ec, e3) = bind_inv (one_byte code) _ b e2 in
      let (y, ey, e4) = bind_inv (encode_columns p columns) _ b e3 in
      (
        x,
        y,
        ex,
        ey,
        sym (ok_inv _ _ e4)
            ∙ ap (λ (l : ByteString). l ++ (x ++ (c ++ y))) (one_byte_inv (length x) l el)
            ∙ ap (λ (c : ByteString). length x ∷ (x ++ (c ++ y))) (one_byte_inv code c ec),
      )

  decode_columns_step :
      (name : p.Str) (code n : ℕ) (columns : List (p.Str × ℕ)) (x y : ByteString)
      → p.from_utf8 x ≡ ok name
      → decode_columns p n y ≡ ok columns
      → decode_columns p (suc n) (length x ∷ (x ++ (code ∷ y))) ≡ ok ((name, code) ∷ columns)
  unfolding decode_columns get_or drop
  decode_columns_step name code n columns x y hx hy =
      let body = x ++ (code ∷ y) in
      let len = length-append x (code ∷ y) in
      rw (
        require_ok (length x ∷ body) 2 (omega (arith, len)),
        require_ok body (length x + 1) (omega (arith, len)),
        take-append (length x) x (code ∷ y) refl,
        drop-append (length x) x (code ∷ y) refl,
        hx,
        hy,
      )

  pub decode-encode_columns :
      (columns : List (p.Str × ℕ)) (b : ByteString)
      → IsFaithful p
      → encode_columns p columns ≡ ok b
      → decode_columns p (length columns) b ≡ ok columns
  unfolding encode_columns decode_columns
  decode-encode_columns [] b h e = refl
  decode-encode_columns ((name, code) ∷ columns) b h e =
      let (x, y, ex, ey, whole) = columns_inv name code columns b e in
      rw whole (
        decode_columns_step name code (length columns) columns x y (h.utf8 name x ex)
          (decode-encode_columns columns y h ey))

  pub decode-exec :
      (sql : p.Str) (params : List (Value p)) (s l n body : ByteString)
      → IsFaithful p
      → length s ≤ max_sql_len
      → length params ≤ max_params
      → p.utf8 sql ≡ ok s
      → pack_be 4 (length s) ≡ ok l
      → pack_be 2 (length params) ≡ ok n
      → encode_values p params ≡ ok body
      → decode_exec p (l ++ (s ++ (n ++ body))) ≡ ok (exec sql (map (shown p) params))
  unfolding decode_exec make_exec
  decode-exec sql params s l n body h small few es el en eb =
      let (vl, dl, ll) = length_field 4 (length s) l (s ++ (n ++ body)) el in
      let (vn, dn, ln) = length_field 2 (length params) n body en in
      let all = l ++ (s ++ (n ++ body)) in
      let total = length-append l (s ++ (n ++ body)) in
      let inner = length-append s (n ++ body) in
      let last = length-append n body in
      let vs : decode_values p false (length params) body ≡ ok (map (shown p) params) =
        subst
          (λ (x : ByteString). decode_values p false (length params) x ≡ ok (map (shown p) params))
          (append-nil body) (decode-encode_values p false params body [] h eb) in
      rw
        (
          vl,
          dl,
          drop-append (length s) s (n ++ body) refl,
          take-append (length s) s (n ++ body) refl,
          vn,
          dn,
          require_ok all 4 (omega arith),
          require_ok all (4 + length s + 2) (omega arith),
          le→ltb_false max_sql_len (length s) small,
          h.utf8 sql s es,
          le→ltb_false max_params (length params) few,
          vs,
        )
        (rw (
          le→ltb_false max_params (length (map (shown p) params))
              (omega (arith, length-map (shown p) params)),
          make_exec,
        ))

  pub stamp_inv :
      (ts : ℕ) (b : ByteString)
      → pack_be 8 ts ≡ ok b
      → (require b 8 ≡ ok tt) × (unpack_u64 b ≡ ok ts)
  unfolding unpack_u64
  stamp_inv ts b e =
      let (same, fits) = pack_be_inv 8 ts b e in
      let len = length-be_bytes 8 ts in
      rw same (
        require_ok (be_bytes 8 ts) 8 (omega arith),
        rw (eq→== (length (be_bytes 8 ts)) 8 len, be_value-be_bytes 8 ts fits),
      )

  pub done_parts :
      (a b : ℤ) (n : ℕ) (x y z : ByteString)
      → pack_signed_be 8 a ≡ ok x
      → pack_signed_be 8 b ≡ ok y
      → one_byte n ≡ ok z
      → let w = x ++ (y ++ z) in
        (require w 17 ≡ ok tt)
        × (unpack_signed_be 8 (take 8 w) ≡ a)
        × (unpack_signed_be 8 (take 8 (drop 8 w)) ≡ b)
        × (get_or w 16 0 ≡ n)
  done_parts a b n x y z ex ey ez =
      let (lx, vx) = pack_signed_be_inv a x ex in
      let (ly, vy) = pack_signed_be_inv b y ey in
      let tail = y ++ (n ∷ []) in
      rw (one_byte_inv n z ez) (
        require_ok (x ++ tail) 17
            (omega (arith, lx, ly, length-append x tail, length-append y (n ∷ []))),
        rw (take-append 8 x tail (sym lx)) vx,
        rw (drop-append 8 x tail (sym lx), take-append 8 y (n ∷ []) (sym ly)) vy,
        get_or-append_add x tail 16 8 (omega (arith, lx))
            ∙ get_or-append_add y (n ∷ []) 8 0 (omega (arith, ly))
            ∙ unfold get_or in refl,
      )
