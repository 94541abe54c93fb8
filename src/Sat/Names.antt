-- ===== src/Sat/Names.antt =====
-- `satName` of packages/core/src/satnumber.ts: bijective base 26, read back.
use ordspv.Common.{
  ℕ, zero, suc, ◌+◌, ◌-◌, ◌*◌, ◌/◌, ◌%◌, ◌≤◌, ◌<◌, ◌≡◌, ap, ◌∙◌, List, [], ◌∷◌, foldl, ok, arith,
  ltb, Bool-cases, inl, inr, ltb→lt, ltb→ge, All,
}
use ordspv.Sat.Numbers.{total_sats, last_sat, name_loop, sat_name}

-- The number that a name of letters `a` to `z` counts, in bijective base 26.
unfoldable pub name_value : List ℕ → ℕ
name_value = foldl (λ v c. v * 26 + (c - 96)) 0

read_letters : ℕ → List ℕ → ℕ
read_letters = foldl (λ v c. v * 26 + (c - 96))

abbrev pub IsLetter : ℕ → Type 0
IsLetter c = (97 ≤ c) × (c ≤ 122)

name_loop-read :
    (f x : ℕ) (name : List ℕ) → x ≤ f → read_letters 0 (name_loop f x name) ≡ read_letters x name
unfolding name_loop read_letters
name_loop-read zero x name h = let z : x ≡ 0 = omega arith in rw z
name_loop-read (suc f) x name h = elim (Bool-cases (ltb 0 x)) [
  | inl more ↦
      let y = x - 1 in
      let ih = name_loop-read f (y / 26) ((97 + y % 26) ∷ name) (omega (arith, ltb→lt _ _ more)) in
      let back : y / 26 * 26 + (97 + y % 26 - 96) ≡ x = omega (arith, ltb→lt _ _ more) in
      rw more (rw back at ih)
  | inr done ↦ let z : x ≡ 0 = omega (arith, ltb→ge _ _ done) in rw (done, z)
]

name_loop-All : (f x : ℕ) (name : List ℕ) → All IsLetter name → All IsLetter (name_loop f x name)
unfolding name_loop
name_loop-All zero x name h = h
name_loop-All (suc f) x name h =
    ground (arith, name_loop-All f ((x - 1) / 26) ((97 + (x - 1) % 26) ∷ name))

-- The name of a sat in range is of the letters a to z, and it counts the sats from this one to the
-- last, both included.
pub name_value-sat_name :
    (sat : ℕ)
    → sat < total_sats
    → (name : List ℕ) × (sat_name sat ≡ ok name)
      × All IsLetter name
      × (name_value name ≡ total_sats - sat)
unfolding sat_name name_value last_sat
name_value-sat_name sat lt =
    let x = total_sats - 1 - sat + 1 in
    (
      name_loop x x [],
      ground arith,
      name_loop-All x x [] tt,
      unfold read_letters in name_loop-read x x [] (omega arith) ∙ omega arith,
    )

-- Two sats in range with one name are one sat.
pub sat_name-injective :
    (sat other : ℕ)
    → sat < total_sats
    → other < total_sats
    → sat_name sat ≡ sat_name other
    → sat ≡ other
sat_name-injective sat other lt lt' same =
    let (a, named, _, value) = name_value-sat_name sat lt in
    let (b, named', _, value') = name_value-sat_name other lt' in
    let names : a ≡ b = cc (named, named', same) in
    omega (arith, value, value', ap name_value names)
