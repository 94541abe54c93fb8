-- ===== src/Header/Limits.antt =====
-- Theorems on the retarget and on the proof-of-work floor of packages/core/src/header.ts.
use ordspv.Common.{
  ℕ, ◌*◌, ◌/◌, ◌%◌, ◌^◌, ◌≤◌, ◌<◌, ◌≡◌, sym, ◌∙◌, arith, true, not, ok, ltb, ◌==◌, ==_iff,
  if◌then◌else◌, leb→le, >>=-eq-ok, >>-eq-ok, ok-injective, require-eq-ok,
}
use ordspv.Bytes.Order.{le_bytes_to_big_int}
use ordspv.Header.Compact.{bits_to_target-target_to_bits}
use ordspv.Header.Parse.{BlockHeader, of_bits, check_limit, check_pow_limit, check_proof_of_work}
use ordspv.Header.Retarget.{ChainParams, clamp_timespan, calc_next_bits}
use ordspv.Header.Target.{expand, bits_to_target, target_to_bits}

-- A target that is read fits in 256 bits.
bits_to_target-fits : (bits t : ℕ) → bits_to_target bits ≡ ok t → t < 2 ^ 256
unfolding bits_to_target
bits_to_target-fits bits t h =
    let exponent = bits / 2 ^ 24 in
    let mantissa = bits % 2 ^ 23 in
    let (_, h1) = >>-eq-ok (bits / 2 ^ 23 % 2 == 0) _ _ h in
    let (fits, h2) = >>-eq-ok (expand exponent mantissa / 2 ^ 256 == 0) _ _ h1 in
    let e = (==_iff _ _).0 fits in
    let same : expand exponent mantissa ≡ t = ok-injective h2 in rw (← same) (omega (arith, e))

clamp_timespan-bounds :
    (first last span : ℕ)
    → (span / 4 ≤ clamp_timespan first last span) × (clamp_timespan first last span ≤ span * 4)
unfolding clamp_timespan
clamp_timespan-bounds first last span = (ground arith, ground arith)

mul_le : (t a b : ℕ) → a ≤ b → t * a ≤ t * b
mul_le t a b h = grind arith

div_le : (n q s : ℕ) → 0 < s → n ≤ q * s → n / s ≤ q
div_le n q s pos h = grind arith

regroup : (t s n : ℕ) → n ≤ t * (s * 4) → n ≤ t * 4 * s
regroup t s n h = grind arith

scaled_le : (t c span : ℕ) → 0 < span → c ≤ span * 4 → t * c / span ≤ t * 4
scaled_le t c span pos h =
    div_le (t * c) (t * 4) span pos (regroup t span (t * c) (mul_le t c (span * 4) h))

nonzero_pos : (n : ℕ) → not (n == 0) ≡ true → 0 < n
nonzero_pos n h = ground arith

cap_bounds :
    (limit raw : ℕ)
    → ((if ltb limit raw then limit else raw) ≤ limit)
      × ((if ltb limit raw then limit else raw) ≤ raw)
cap_bounds limit raw = (ground arith, ground arith)

-- A retarget that answers: the new bits read as a target that is at most the proof-of-work limit
-- and at most four times the target before.
pub calc_next_bits-bounds :
    (prev_bits first_time last_time : ℕ) (params : ChainParams) (bits : ℕ)
    → calc_next_bits prev_bits first_time last_time params ≡ ok bits
    → (limit before target : ℕ) × (bits_to_target params.pow_limit_bits ≡ ok limit)
      × (bits_to_target prev_bits ≡ ok before)
      × (bits_to_target bits ≡ ok target)
      × (target ≤ limit)
      × (target ≤ 4 * before)
unfolding calc_next_bits
calc_next_bits-bounds prev_bits first_time last_time params bits h =
    let (limit, is_limit, h1) = >>=-eq-ok (bits_to_target params.pow_limit_bits) _ h in
    let (before, is_before, h2) = >>=-eq-ok (bits_to_target prev_bits) _ h1 in
    let (nonzero, h3) = >>-eq-ok (not (params.target_timespan == 0)) _ _ h2 in
    let span = params.target_timespan in
    let clamped = clamp_timespan first_time last_time span in
    let pos : 0 < span = nonzero_pos span nonzero in
    let raw = before * clamped / span in
    let capped : ℕ = (if ltb limit raw then limit else raw) in
    let (under, four) = cap_bounds limit raw in
    let small = bits_to_target-fits params.pow_limit_bits limit is_limit in
    let (u, read, le, _) = bits_to_target-target_to_bits capped (omega (arith, under, small)) in
    let scaled =
      scaled_le before clamped span pos (clamp_timespan-bounds first_time last_time span).1 in
    let is_bits : target_to_bits capped ≡ bits = ok-injective h3 in
    (
      limit,
      before,
      u,
      is_limit,
      is_before,
      rw is_bits at read,
      omega (arith, le, under),
      omega (arith, le, four, scaled),
    )

check_limit-eq-ok :
    (header : BlockHeader) (limit : ℕ)
    → check_limit header limit ≡ ok tt
    → (target easiest : ℕ) × (bits_to_target header.bits ≡ ok target)
      × (bits_to_target limit ≡ ok easiest)
      × (target ≤ easiest)
unfolding check_limit
check_limit-eq-ok header limit h =
    let (target, is_target, h1) = >>=-eq-ok (bits_to_target header.bits) _ h in
    let (easiest, is_easiest, h2) = >>=-eq-ok (bits_to_target limit) _ h1 in
    (target, easiest, is_target, is_easiest, leb→le _ _ (require-eq-ok _ _ h2))

check_proof_of_work-eq-ok :
    (header : BlockHeader)
    → check_proof_of_work header ≡ ok true
    → (target : ℕ) × (bits_to_target header.bits ≡ ok target)
      × (le_bytes_to_big_int header.hash_le ≤ target)
unfolding check_proof_of_work
check_proof_of_work-eq-ok header h =
    let (target, is_target, h1) = >>=-eq-ok (bits_to_target header.bits) _ h in
    (target, is_target, leb→le _ _ (ok-injective h1))

-- A header that passes the proof-of-work floor of given bits and its own proof of work has a hash
-- that is at most the floor's target.
pub check_pow_limit-hash :
    (header : BlockHeader) (limit : ℕ)
    → check_pow_limit header (of_bits limit) ≡ ok tt
    → check_proof_of_work header ≡ ok true
    → (easiest : ℕ) × (bits_to_target limit ≡ ok easiest)
      × (le_bytes_to_big_int header.hash_le ≤ easiest)
unfolding check_pow_limit
check_pow_limit-hash header limit floor enough =
    let (target, easiest, is_target, is_easiest, le) = check_limit-eq-ok header limit floor in
    let (own, is_own, hash_le) = check_proof_of_work-eq-ok header enough in
    let same : target ≡ own = ok-injective (sym is_target ∙ is_own) in
    (easiest, is_easiest, omega (arith, le, hash_le, same))
