-- ===== src/Header/Target.antt =====
-- Compact targets: `bitsToTarget`, `targetToBits` and `workFromBits` of packages/core/src/header.ts.
use ordspv.Common.{
  ℕ, zero, suc, ◌+◌, ◌-◌, ◌*◌, ◌/◌, ◌%◌, ◌^◌, Result, ok, ◌>>=◌, ◌>>◌, require, failure, leb, ◌==◌,
  if◌then◌else◌,
}

-- `bits` is a uint32. A target is a bigint: a shift by `8 * n` bits is a factor or a divisor 256 ^ n.
unfoldable pub expand : ℕ → ℕ → ℕ
expand exponent mantissa =
    if leb exponent 3 then mantissa / 256 ^ (3 - exponent) else mantissa * 256 ^ (exponent - 3)

unfoldable pub bits_to_target : ℕ → Result ℕ
bits_to_target bits = do
  let exponent = bits / 2 ^ 24
  let mantissa = bits % 2 ^ 23
  require (bits / 2 ^ 23 % 2 == 0) (failure "negative target")
  let target = expand exponent mantissa
  require (target / 2 ^ 256 == 0) (failure "target overflow")
  ok target

-- `for (let t = target; t > 0n; t >>= 8n) size++`. A round makes `t` smaller, so `t` rounds are enough.
unfoldable pub size_loop : ℕ → ℕ → ℕ → ℕ
size_loop zero t size = size
size_loop (suc fuel) t size =
    let more = size_loop fuel (t / 256) (size + 1) in if t == 0 then size else more

unfoldable pub byte_size : ℕ → ℕ
byte_size target = size_loop target target 0

unfoldable pub mantissa_of : ℕ → ℕ → ℕ
mantissa_of target size =
    if leb size 3 then target * 256 ^ (3 - size) else target / 256 ^ (size - 3)

-- The mantissa has 24 bits at most, so the disjunction is a sum; `size << 24` keeps 8 bits of the
-- size.
unfoldable pub pack : ℕ → ℕ → ℕ
pack compact size = compact + size % 256 * 2 ^ 24

unfoldable pub target_to_bits : ℕ → ℕ
target_to_bits target =
    let size = byte_size target in
    let compact = mantissa_of target size in
    let packed =
      (if compact / 2 ^ 23 % 2 == 0 then pack compact size else pack (compact / 256) (size + 1)) in
    if target == 0 then 0 else packed

unfoldable pub work_from_bits : ℕ → Result ℕ
work_from_bits bits = do target ← bits_to_target bits; ok (2 ^ 256 / (target + 1))
