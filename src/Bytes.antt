-- ===== src/Bytes.antt =====
-- Python's `struct` as the code uses it: unsigned integers of a fixed width in big-endian and
-- little-endian order. A byte string is a list of numbers, which are below 256 in what the code
-- writes.
pub mod Laws
pub mod Signed
use tinydb.Base.{
  ℕ, zero, suc, ◌+◌, ◌*◌, ◌/◌, ◌%◌, ◌^◌, ◌<◌, List, [], ◌∷◌, ◌++◌, Result, ok, raise, struct_error,
  ltb, ◌==◌, if◌then◌else◌, Bool, true, false, ◌&&◌,
}

abbrev pub ByteString : Type 0
ByteString = List ℕ

-- Every element is a byte.
abbrev pub IsBytes : ByteString → Type 0
IsBytes [] = Unit
IsBytes (b ∷ bs) = (b < 256) × IsBytes bs

-- `a == b` on byte strings.
unfoldable pub bytes_eq : ByteString → ByteString → Bool
bytes_eq [] [] = true
bytes_eq [] (b ∷ bs) = false
bytes_eq (a ∷ as') [] = false
bytes_eq (a ∷ as') (b ∷ bs) = (a == b) && bytes_eq as' bs

-- The low `k` bytes of a number, least significant first.
unfoldable pub le_bytes : ℕ → ℕ → ByteString
le_bytes zero n = []
le_bytes (suc k) n = (n % 256) ∷ le_bytes k (n / 256)

-- The low `k` bytes of a number, most significant first.
unfoldable pub be_bytes : ℕ → ℕ → ByteString
be_bytes zero n = []
be_bytes (suc k) n = be_bytes k (n / 256) ++ ((n % 256) ∷ [])

unfoldable pub le_value : ByteString → ℕ
le_value [] = 0
le_value (b ∷ bs) = b + 256 * le_value bs

unfoldable pub be_value_from : ℕ → ByteString → ℕ
be_value_from acc [] = acc
be_value_from acc (b ∷ bs) = be_value_from (acc * 256 + b) bs

unfoldable pub be_value : ByteString → ℕ
unfolding be_value_from
be_value bs = be_value_from 0 bs

-- `struct.pack` of one unsigned field of `k` bytes, which refuses a number that does not fit.
unfoldable pub pack_be : ℕ → ℕ → Result ByteString
unfolding be_bytes
pack_be k n = if ltb n (256 ^ k) then ok (be_bytes k n) else raise struct_error

unfoldable pub pack_le : ℕ → ℕ → Result ByteString
unfolding le_bytes
pack_le k n = if ltb n (256 ^ k) then ok (le_bytes k n) else raise struct_error
