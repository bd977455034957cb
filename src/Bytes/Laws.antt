-- ===== src/Bytes/Laws.antt =====
-- The lengths of packed fields, and packing before unpacking.
use native.Mathlib.Nat.{pow-suc}
use tinydb.Base.{
  ℕ, zero, suc, ◌+◌, ◌*◌, ◌/◌, ◌%◌, ◌^◌, ◌<◌, ◌≡◌, refl, [], ◌∷◌, ◌++◌, arith, ok, length,
  length-append, lt→ltb,
}
use tinydb.Bytes.{
  ByteString, le_bytes, be_bytes, le_value, be_value_from, be_value, pack_be, pack_le,
}

pub length-le_bytes : (k n : ℕ) → length (le_bytes k n) ≡ k
unfolding le_bytes
length-le_bytes zero n = refl
length-le_bytes (suc k) n = omega (arith, length-le_bytes k (n / 256))

pub length-be_bytes : (k n : ℕ) → length (be_bytes k n) ≡ k
unfolding be_bytes
length-be_bytes zero n = refl
length-be_bytes (suc k) n =
    omega
      (arith, length-append (be_bytes k (n / 256)) ((n % 256) ∷ []), length-be_bytes k (n / 256))

be_value_from-append :
    (acc b : ℕ) (bs : ByteString)
    → be_value_from acc (bs ++ (b ∷ [])) ≡ be_value_from acc bs * 256 + b
unfolding be_value_from
be_value_from-append acc b [] = refl
be_value_from-append acc b (x ∷ bs) = be_value_from-append (acc * 256 + x) b bs

div_fits : (k n : ℕ) → n < 256 ^ suc k → n / 256 < 256 ^ k
div_fits k n h = let p : n < 256 ^ k * 256 = rw pow-suc at h in omega arith

pub le_value-le_bytes : (k n : ℕ) → n < 256 ^ k → le_value (le_bytes k n) ≡ n
unfolding le_value le_bytes
le_value-le_bytes zero n h = omega arith
le_value-le_bytes (suc k) n h = omega (arith, le_value-le_bytes k (n / 256) (div_fits k n h))

pub be_value-be_bytes : (k n : ℕ) → n < 256 ^ k → be_value (be_bytes k n) ≡ n
unfolding be_value be_bytes
be_value-be_bytes zero n h = unfold be_value_from in omega arith
be_value-be_bytes (suc k) n h = omega (
  arith,
  be_value_from-append 0 (n % 256) (be_bytes k (n / 256)),
  be_value-be_bytes k (n / 256) (div_fits k n h),
)

pub pack_be_ok : (k n : ℕ) → n < 256 ^ k → pack_be k n ≡ ok (be_bytes k n)
unfolding pack_be
pack_be_ok k n h = rw (lt→ltb n (256 ^ k) h)

pub pack_le_ok : (k n : ℕ) → n < 256 ^ k → pack_le k n ≡ ok (le_bytes k n)
unfolding pack_le
pack_le_ok k n h = rw (lt→ltb n (256 ^ k) h)
