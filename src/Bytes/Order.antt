-- ===== src/Bytes/Order.antt =====
-- Numbers in little-endian and big-endian bytes: `leBytesToBigInt` and `beBytesToBigInt` of
-- packages/core/src/bytes.ts, and the fixed-width forms of a DataView.
use ordspv.Common.{
  ℕ, zero, suc, ◌+◌, ◌*◌, ◌/◌, ◌%◌, ◌^◌, ◌<◌, ◌≡◌, refl, ap, List, [], ◌∷◌, foldl, foldr, arith,
  length, All, if◌then◌else◌, ltb, ◌-◌,
}
use ordspv.Common.Int.{ℤ, pos, negsuc}
use ordspv.Bytes.Hex.{IsByte}

-- From the last byte to the first, `v = (v << 8n) | byte`.
unfoldable pub le_bytes_to_big_int : List ℕ → ℕ
le_bytes_to_big_int = foldr (λ b v. v * 256 + b) 0

unfoldable pub be_bytes_to_big_int : List ℕ → ℕ
be_bytes_to_big_int = foldl (λ v b. v * 256 + b) 0

-- The `n` bytes that a little-endian `setUint` stores, wrapped to the width.
unfoldable pub to_le : ℕ → ℕ → List ℕ
to_le zero v = []
to_le (suc n) v = (v % 256) ∷ to_le n (v / 256)

-- An int32 from its bit pattern, and the pattern of `v | 0`.
unfoldable pub to_int32 : ℕ → ℤ
to_int32 w = if ltb w (2 ^ 31) then pos w else negsuc (2 ^ 32 - w - 1)

unfoldable pub of_int32 : ℤ → ℕ
of_int32 (pos n) = n % 2 ^ 32
of_int32 (negsuc n) = 2 ^ 32 - 1 - n % 2 ^ 32

abbrev pub IsInt32 : ℤ → Type 0
IsInt32 (pos n) = n < 2 ^ 31
IsInt32 (negsuc n) = n < 2 ^ 31

pub length-to_le : (n v : ℕ) → length (to_le n v) ≡ n
unfolding to_le
length-to_le zero v = refl
length-to_le (suc n) v = ap suc (length-to_le n (v / 256))

pub to_le-IsByte : (n v : ℕ) → All IsByte (to_le n v)
unfolding to_le
to_le-IsByte zero v = tt
to_le-IsByte (suc n) v = (omega arith, to_le-IsByte n (v / 256))

-- A number of at most `n` bytes is read back from its `n` little-endian bytes.
pub le_bytes_to_big_int-to_le : (n v : ℕ) → v < 256 ^ n → le_bytes_to_big_int (to_le n v) ≡ v
unfolding le_bytes_to_big_int to_le
le_bytes_to_big_int-to_le zero v h = omega arith
le_bytes_to_big_int-to_le (suc n) v h =
    omega (arith, le_bytes_to_big_int-to_le n (v / 256) (omega arith))

pub to_int32-of_int32 : (z : ℤ) → IsInt32 z → (to_int32 (of_int32 z) ≡ z) × (of_int32 z < 256 ^ 4)
unfolding to_int32 of_int32
to_int32-of_int32 (pos n) h = ground arith
to_int32-of_int32 (negsuc n) h = ground arith
