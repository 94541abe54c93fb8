-- ===== src/Header/Compact.antt =====
-- Theorems on compact targets: what `bitsToTarget` reads back of `targetToBits`.
use ordspv.Common.{
  ℕ, zero, suc, ◌+◌, ◌-◌, ◌*◌, ◌/◌, ◌%◌, ◌^◌, ◌≤◌, ◌<◌, ◌≡◌, refl, inl, inr, arith, false, ok,
  Bool-cases, ltb, ◌==◌, ==_iff, if◌then◌else◌, ltb→lt, ltb→ge,
}
use ordspv.Header.Target.{
  expand, bits_to_target, size_loop, byte_size, mantissa_of, pack, target_to_bits,
}
use ordspv.Header.Size.{pow_pos, byte_size-bounds}

bits_to_target-pack :
    (m e : ℕ)
    → m < 2 ^ 23
    → e < 256
    → expand e m < 2 ^ 256
    → bits_to_target (pack m e) ≡ ok (expand e m)
unfolding bits_to_target pack
bits_to_target-pack m e mb eb fits =
    let a : (m + e % 256 * 2 ^ 24) / 2 ^ 24 ≡ e = omega arith in
    let b : (m + e % 256 * 2 ^ 24) % 2 ^ 23 ≡ m = omega arith in
    let c : (m + e % 256 * 2 ^ 24) / 2 ^ 23 % 2 ≡ 0 = omega arith in
    let d : expand e m / 2 ^ 256 ≡ 0 = omega arith in rw (a, b, c, d) refl

abbrev Close : ℕ → ℕ → Type 0
Close t u = (u ≤ t) × ((t - u) * 2 ^ 15 ≤ u)

-- Cutting a number to its multiple of `p`, where 17 bits stay at least.
cut-Close :
    (t p : ℕ)
    → 0 < p
    → 2 ^ 16 * p ≤ t
    → t < 2 ^ 24 * p
    → (2 ^ 16 ≤ t / p) × (t / p < 2 ^ 24) × (t / p * p ≤ t) × (t < t / p * p + p)
cut-Close t p pos lo hi = (grind arith, grind arith, grind arith, grind arith)

expand-high : (m j : ℕ) → expand (4 + j) m ≡ m * 256 ^ (1 + j)
unfolding expand
expand-high m j = let e : 4 + j - 3 ≡ 1 + j = omega arith in ground (arith, e)

packed : ℕ → ℕ → ℕ
packed compact size =
    if compact / 2 ^ 23 % 2 == 0 then pack compact size else pack (compact / 256) (size + 1)

packed-Close :
    (t c s : ℕ)
    → t < 2 ^ 256
    → c < 2 ^ 24
    → s < 255
    → Close t (expand s c)
    → (2 ^ 23 ≤ c → Close t (expand (s + 1) (c / 256)))
    → (u : ℕ) × (bits_to_target (packed c s) ≡ ok u) × Close t u
unfolding packed
packed-Close t c s fits cb sb plain shifted = elim (Bool-cases (c / 2 ^ 23 % 2 == 0)) [
  | inl clear ↦
      let mb : c < 2 ^ 23 = omega (arith, (==_iff _ _).0 clear) in
      (
        expand s c,
        rw clear (bits_to_target-pack c s mb (omega arith) (omega (arith, plain.0))),
        plain,
      )
  | inr set ↦
      let big : 2 ^ 23 ≤ c = ground (arith, set) in
      let close = shifted big in
      (
        expand (s + 1) (c / 256),
        rw set (
            bits_to_target-pack (c / 256) (s + 1) (omega arith) (omega arith)
              (omega (arith, close.0))),
        close,
      )
]

-- A target of one to three bytes.
low-Close :
    (t j : ℕ)
    → j < 3
    → 256 ^ j ≤ t
    → t < 256 ^ suc j
    → t < 2 ^ 256
    → (u : ℕ) × (bits_to_target (packed (mantissa_of t (suc j)) (suc j)) ≡ ok u) × Close t u
unfolding mantissa_of expand
low-Close t zero b lo hi fits =
    packed-Close t (t * 65536) 1 fits (omega arith) (omega arith) (omega arith, omega arith)
      (λ _. (omega arith, omega arith))
low-Close t (suc zero) b lo hi fits =
    packed-Close t (t * 256) 2 fits (omega arith) (omega arith) (omega arith, omega arith)
      (λ _. (omega arith, omega arith))
low-Close t (suc (suc zero)) b lo hi fits =
    packed-Close t (t * 1) 3 fits (omega arith) (omega arith) (omega arith, omega arith)
      (λ big.
        let e : expand 4 (t * 1 / 256) ≡ t * 1 / 256 * 256 = refl in
        rw e (omega arith, omega (arith, big)))
low-Close t (suc (suc (suc j))) b lo hi fits = absurd (omega arith)

mantissa-high : (t i : ℕ) → mantissa_of t (4 + i) ≡ t / 256 ^ (1 + i)
unfolding mantissa_of
mantissa-high t i = let e : 4 + i - 3 ≡ 1 + i = omega arith in ground (arith, e)

expand-higher : (m i : ℕ) → expand (4 + i + 1) m ≡ m * (256 * 256 ^ (1 + i))
expand-higher m i =
    let e : 4 + i + 1 ≡ 4 + suc i = omega arith in
    let e1 : 1 + suc i ≡ suc (1 + i) = omega arith in
    let e' : 256 ^ (1 + suc i) ≡ 256 * 256 ^ (1 + i) = rw e1 (omega arith) in
    rw (e, expand-high m (suc i), e') refl

-- What a cut to a multiple of `p` drops is little beside what it keeps.
cut_error : (t c p : ℕ) → 2 ^ 15 ≤ c → t < c * p + p → (t - c * p) * 2 ^ 15 ≤ c * p
cut_error t c p lo over = grind arith

le_mul : (r p : ℕ) → r < 256 → r * p + p ≤ 256 * p
le_mul r p h = grind arith

cut_parts :
    (q r p : ℕ)
    → r < 256
    → (q * (256 * p) ≤ (256 * q + r) * p) × ((256 * q + r) * p + p ≤ q * (256 * p) + 256 * p)
cut_parts q r p h = let m = le_mul r p h in (grind arith, grind (arith, m))

cut_again : (c p : ℕ) → (c / 256 * (256 * p) ≤ c * p) × (c * p + p ≤ c / 256 * (256 * p) + 256 * p)
cut_again c p =
    let e : 256 * (c / 256) + c % 256 ≡ c = omega arith in
    let r : c % 256 < 256 = omega arith in rw e at (cut_parts (c / 256) (c % 256) p r)

pow_up :
    (i : ℕ)
    → (256 ^ (1 + i) ≡ 256 * 256 ^ i)
      × (256 ^ (3 + i) ≡ 2 ^ 24 * 256 ^ i)
      × (256 ^ (4 + i) ≡ 2 ^ 32 * 256 ^ i)
pow_up i =
    let e1 : 1 + i ≡ suc i = omega arith in
    let e3 : 3 + i ≡ suc (suc (suc i)) = omega arith in
    let e4 : 4 + i ≡ suc (suc (suc (suc i))) = omega arith in
    (rw e1 (omega arith), rw e3 (omega arith), rw e4 (omega arith))

high-Close :
    (t i : ℕ)
    → i < 29
    → 256 ^ (3 + i) ≤ t
    → t < 256 ^ (4 + i)
    → t < 2 ^ 256
    → (u : ℕ) × (bits_to_target (packed (mantissa_of t (4 + i)) (4 + i)) ≡ ok u) × Close t u
unfolding mantissa_of
high-Close t i b lo hi fits =
    let p = 256 ^ (1 + i) in
    let c = t / p in
    let p_pos : 0 < p = pow_pos (1 + i) in
    let (e1, e3', e4') = pow_up i in
    let e3 : 256 ^ (3 + i) ≡ 2 ^ 16 * p = omega (arith, e1, e3') in
    let e4 : 256 ^ (4 + i) ≡ 2 ^ 24 * p = omega (arith, e1, e4') in
    let (c_lo, c_hi, under, over) = cut-Close t p p_pos (omega (arith, e3)) (omega (arith, e4)) in
    let is_c : mantissa_of t (4 + i) ≡ c = mantissa-high t i in
    let first : expand (4 + i) c ≡ c * p = expand-high c i in
    let second : expand (4 + i + 1) (c / 256) ≡ c / 256 * (256 * p) = expand-higher (c / 256) i in
    rw is_c (
      packed-Close t c (4 + i) fits c_hi (omega arith)
        (rw first (under, cut_error t c p (omega (arith, c_lo)) over))
        (λ big.
          let (le, up) = cut_again c p in
          let c_big : 2 ^ 15 ≤ c / 256 = omega (arith, big) in
          let below : t < c / 256 * (256 * p) + 256 * p = omega (arith, up, over) in
          rw second (omega (arith, le, under), cut_error t (c / 256) (256 * p) c_big below)))

target_to_bits-packed :
    (t s : ℕ) → 0 < t → byte_size t ≡ s → target_to_bits t ≡ packed (mantissa_of t s) s
unfolding target_to_bits packed
target_to_bits-packed t s pos e = let z : (t == 0) ≡ false = ground arith in rw (e, z) refl

by_size :
    (t j : ℕ)
    → j < 32
    → 256 ^ j ≤ t
    → t < 256 ^ suc j
    → t < 2 ^ 256
    → (u : ℕ) × (bits_to_target (packed (mantissa_of t (suc j)) (suc j)) ≡ ok u) × Close t u
by_size t j b lo hi fits = elim (Bool-cases (ltb j 3)) [
  | inl few ↦ low-Close t j (ltb→lt _ _ few) lo hi fits
  | inr many ↦
      let i = j - 3 in
      let e : 3 + i ≡ j = omega (arith, ltb→ge _ _ many) in
      let e' : 4 + i ≡ suc j = omega (arith, e) in
      rw e' at (high-Close t i (omega (arith, e)) (rw e lo) (rw e' hi) fits)
]

zero_bits : bits_to_target (target_to_bits 0) ≡ ok 0
unfolding bits_to_target target_to_bits expand byte_size size_loop
zero_bits = refl

-- A target of 256 bits read back from its compact form is cut to a multiple, never rounded up, and
-- what the cut drops is at most a 32768th of what it keeps.
pub bits_to_target-target_to_bits :
    (t : ℕ)
    → t < 2 ^ 256
    → (u : ℕ) × (bits_to_target (target_to_bits t) ≡ ok u) × (u ≤ t) × ((t - u) * 2 ^ 15 ≤ u)
bits_to_target-target_to_bits t fits = elim (Bool-cases (t == 0)) [
  | inl nil ↦ let e : t ≡ 0 = (==_iff _ _).0 nil in rw e (0, zero_bits, omega arith, omega arith)
  | inr some_bits ↦
      let pos : 0 < t = ground (arith, some_bits) in
      let (j, e, small, lo, hi) = byte_size-bounds t pos fits in
      let (u, read, close) = by_size t j small lo hi fits in
      (u, rw (target_to_bits-packed t (suc j) pos e) read, close.0, close.1)
]
