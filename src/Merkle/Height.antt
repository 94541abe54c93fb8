-- ===== src/Merkle/Height.antt =====
-- `treeHeight` of packages/core/src/merkle.ts is the binary logarithm, rounded up.
use ordspv.Common.{
  ℕ, zero, suc, ◌+◌, ◌*◌, ◌/◌, ◌^◌, ◌≤◌, ◌<◌, ◌≡◌, refl, ok, arith, ltb, Bool-cases, inl, inr,
  ltb→lt, ltb→ge, Bool-cases, ◌⊎◌,
}
use native.Mathlib.Nat.{pow-suc}
use ordspv.Merkle.Tree.{height_loop, tree_height}

pow_double : (k : ℕ) → 2 ^ suc k ≡ 2 * 2 ^ k
pow_double k = omega (arith, pow-suc 2 k)

-- A power of two is 1 or even.
pow_half : (k : ℕ) → (m : ℕ) × ((2 ^ k ≡ 1) ⊎ (2 ^ k ≡ 2 * m))
pow_half zero = (0, inl refl)
pow_half (suc k) = (2 ^ k, inr (pow_double k))

-- More fuel than the width needs changes nothing, and the count starts anywhere.
height_loop_bounds :
    (f w h : ℕ)
    → 0 < w
    → w ≤ f + 1
    → (k : ℕ) × (height_loop f w h ≡ h + k) × (w ≤ 2 ^ k) × (2 ^ k < 2 * w)
unfolding height_loop
height_loop_bounds zero w h p q = (0, omega arith, omega arith, omega arith)
height_loop_bounds (suc f) w h p q = elim (Bool-cases (ltb 1 w)) [
  | inr small ↦ (0, rw small (omega arith), omega (arith, ltb→ge _ _ small), omega arith)
  | inl big ↦
      let more = ltb→lt _ _ big in
      let (k, e, lo, hi) = height_loop_bounds f ((w + 1) / 2) (h + 1) (omega arith) (omega arith) in
      let double : 2 ^ (suc k) ≡ 2 * 2 ^ k = pow_double k in
      (
        suc k,
        rw big (omega (arith, e)),
        omega (arith, double),
        let (m, even) = pow_half k in omega (arith, double, even),
      )
]

-- The height of a tree of `n` leaves is the least `h` with `n ≤ 2 ^ h`.
pub tree_height_bounds :
    (n : ℕ) → 0 < n → (h : ℕ) × (tree_height n ≡ ok h) × (n ≤ 2 ^ h) × (2 ^ h < 2 * n)
unfolding tree_height
tree_height_bounds n p =
    let (k, e, lo, hi) = height_loop_bounds n n 0 p (omega arith) in
    let start : height_loop n n 0 ≡ k = omega (arith, e) in (k, ground (arith, start), lo, hi)

height_loop_shift : (f w h : ℕ) → height_loop f w h ≡ height_loop f w 0 + h
unfolding height_loop
height_loop_shift zero w h = omega arith
height_loop_shift (suc f) w h =
    ground
      (arith, height_loop_shift f ((w + 1) / 2) (h + 1), height_loop_shift f ((w + 1) / 2) (0 + 1))

-- Fuel that the width does not need changes nothing.
height_loop_fuel : (f g w h : ℕ) → w ≤ f + 1 → w ≤ g + 1 → height_loop f w h ≡ height_loop g w h
unfolding height_loop
height_loop_fuel zero zero w h p q = refl
height_loop_fuel zero (suc g) w h p q = ground arith
height_loop_fuel (suc f) zero w h p q = ground arith
height_loop_fuel (suc f) (suc g) w h p q =
    ground (arith, height_loop_fuel f g ((w + 1) / 2) (h + 1))

-- One level up the tree is one lower.
pub tree_height_step :
    (n h : ℕ) → 1 < n → tree_height ((n + 1) / 2) ≡ ok h → tree_height n ≡ ok (h + 1)
unfolding tree_height
tree_height_step (suc n) h p e =
    let w = (suc n + 1) / 2 in
    let shifted = height_loop_shift n w (0 + 1) in
    let same = height_loop_fuel n w w 0 (omega arith) (omega arith) in
    unfold height_loop in ground (arith, shifted, same)
tree_height_step zero h p e = absurd (omega arith)
