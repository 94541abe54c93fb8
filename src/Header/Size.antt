-- ===== src/Header/Size.antt =====
-- The number of bytes of a target, as `targetToBits` of packages/core/src/header.ts counts it.
use ordspv.Common.{
  ℕ, zero, suc, ◌+◌, ◌-◌, ◌*◌, ◌/◌, ◌^◌, ◌≤◌, ◌<◌, ◌≡◌, refl, ◌⊎◌, inl, inr, arith, Bool-cases, ltb,
  ◌==◌, ==_iff, ltb→lt, ltb→ge,
}
use ordspv.Header.Target.{size_loop, byte_size}

pow_mono : (a b : ℕ) → 256 ^ a ≤ 256 ^ (a + b)
pow_mono a zero = let e : a + 0 ≡ a = omega arith in rw e (omega arith)
pow_mono a (suc b) =
    let e : a + suc b ≡ suc (a + b) = omega arith in rw e (omega (arith, pow_mono a b))

pub pow_pos : (a : ℕ) → 0 < 256 ^ a
pow_pos zero = omega arith
pow_pos (suc a) = omega (arith, pow_pos a)

-- The loop adds the number of bytes.
size_loop-bounds :
    (f t size : ℕ)
    → t ≤ f
    → (k : ℕ) × (size_loop f t size ≡ size + k)
      × (t < 256 ^ k)
      × (((k ≡ 0) × (t ≡ 0)) ⊎ (256 ^ k ≤ 256 * t))
unfolding size_loop
size_loop-bounds zero t size h = (0, omega arith, omega arith, inl (refl, omega arith))
size_loop-bounds (suc f) t size h = elim (Bool-cases (t == 0)) [
  | inl none_left ↦
      let e : t ≡ 0 = (==_iff _ _).0 none_left in
      (0, rw none_left (omega arith), omega (arith, e), inl (refl, e))
  | inr more ↦
      let pos : 0 < t = ground (arith, more) in
      let (k, e, lo, hi) = size_loop-bounds f (t / 256) (size + 1) (omega arith) in
      (
        suc k,
        rw more (omega (arith, e)),
        omega arith,
        inr (elim hi [
          | inl (none_left', _) ↦ rw none_left' (omega arith)
          | inr big ↦ omega (arith, big)
        ]),
      )
]

byte_size-suc :
    (t k : ℕ)
    → byte_size t ≡ k
    → 0 < t
    → t < 2 ^ 256
    → t < 256 ^ k
    → 256 ^ k ≤ 256 * t
    → (j : ℕ) × (byte_size t ≡ suc j) × (j < 32) × (256 ^ j ≤ t) × (t < 256 ^ suc j)
byte_size-suc t zero e pos fits lo hi = absurd (omega arith)
byte_size-suc t (suc j) e pos fits lo hi =
    let below : 256 ^ j ≤ t = omega arith in
    let small : j < 32 = elim (Bool-cases (ltb j 32)) [
      | inl yes' ↦ ltb→lt _ _ yes'
      | inr past ↦
          let split : 32 + (j - 32) ≡ j = omega (arith, ltb→ge _ _ past) in
          absurd (omega (arith, rw split at (pow_mono 32 (j - 32))))
    ] in
    (j, e, small, below, lo)

-- The size of a target of 256 bits at most.
pub byte_size-bounds :
    (t : ℕ)
    → 0 < t
    → t < 2 ^ 256
    → (j : ℕ) × (byte_size t ≡ suc j) × (j < 32) × (256 ^ j ≤ t) × (t < 256 ^ suc j)
unfolding byte_size
byte_size-bounds t pos fits =
    let (k, e, lo, hi) = size_loop-bounds t t 0 (omega arith) in
    elim hi [
      | inl (_, z) ↦ absurd (omega (arith, z))
      | inr big ↦ byte_size-suc t k (omega (arith, e)) pos fits lo big
    ]
