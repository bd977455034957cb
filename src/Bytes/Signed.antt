-- ===== src/Bytes/Signed.antt =====
-- Python's `struct` for signed integers of a fixed width: two's complement.
use tinydb.Base.{
  ℕ, ◌+◌, ◌-◌, ◌/◌, ◌^◌, ◌<◌, ◌≡◌, ℤ, pos, negsuc, arith, ltb, if◌then◌else◌, Result, ok, raise,
  ◌>>=◌, struct_error, length, bind_inv,
}
use tinydb.Bytes.{ByteString, be_value, pack_be, le_bytes, le_value, pack_le}
use tinydb.Bytes.Laws.{length-le_bytes, le_value-le_bytes}

-- The number of nonnegative values of a signed field of `k` bytes.
abbrev pub half : ℕ → ℕ
half k = 256 ^ k / 2

-- The unsigned number with the same bytes.
unfoldable pub twos : ℕ → ℤ → Result ℕ
twos k (pos n) = if ltb n (half k) then ok n else raise struct_error
twos k (negsuc n) = if ltb n (half k) then ok (256 ^ k - 1 - n) else raise struct_error

unfoldable pub signed : ℕ → ℕ → ℤ
signed k n = if ltb n (half k) then pos n else negsuc (256 ^ k - 1 - n)

unfoldable pub pack_signed_be : ℕ → ℤ → Result ByteString
pack_signed_be k z = twos k z >>= λ n. pack_be k n

unfoldable pub unpack_signed_be : ℕ → ByteString → ℤ
unpack_signed_be k bs = signed k (be_value bs)

pub twos_lem :
    (k n : ℕ) (z : ℤ)
    → 0 < 256 ^ k
    → (half k) + (half k) ≡ 256 ^ k
    → twos k z ≡ ok n
    → (n < 256 ^ k) × (signed k n ≡ z)
unfolding twos signed
twos_lem k n (pos m) p e h = ground arith
twos_lem k n (negsuc m) p e h = ground arith

unfoldable pub pack_signed_le : ℕ → ℤ → Result ByteString
pack_signed_le k z = twos k z >>= λ n. pack_le k n

unfoldable pub unpack_signed_le : ℕ → ByteString → ℤ
unpack_signed_le k bs = signed k (le_value bs)

pub pack_le_inv :
    (k n : ℕ) (b : ByteString) → pack_le k n ≡ ok b → (b ≡ le_bytes k n) × (n < 256 ^ k)
unfolding pack_le
pack_le_inv k n b h = ground arith

pub pack_signed_le_inv :
    (k : ℕ) (z : ℤ) (b : ByteString)
    → 0 < 256 ^ k
    → half k + half k ≡ 256 ^ k
    → pack_signed_le k z ≡ ok b
    → (length b ≡ k) × (unpack_signed_le k b ≡ z)
unfolding pack_signed_le unpack_signed_le
pack_signed_le_inv k z b p hh h =
    let (n, t, e) = bind_inv (twos k z) (pack_le k) b h in
    let (fits, back) = twos_lem k n z p hh t in
    let (same, _) = pack_le_inv k n b e in
    rw same (length-le_bytes k n, rw (le_value-le_bytes k n fits) back)
