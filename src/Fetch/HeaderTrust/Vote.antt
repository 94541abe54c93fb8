-- ===== src/Fetch/HeaderTrust/Vote.antt =====
-- What the vote of packages/fetch/src/headertrust.ts has counted when it anchors a header.
use mathlib.Core.List.{Memᴰ}
use ordspv.Common.{
  ℕ, ◌+◌, ◌≡◌, refl, inl, inr, Bool, true, false, not, ◌&&◌, ◌||◌, Bool-cases, List, [], ◌∷◌,
  Option, none, some, if◌then◌else◌, length, length-append, All, All-map, arith,
}
use ordspv.Bytes.Hex.{bytes_equal}
use ordspv.Fetch.HeaderTrust.{
  Attester, Tally, is_block_hash, add_answer, tally_loop, contains, attesters_loop,
}
use ordspv.Text.{trim, to_lower_case}

-- Whether an answer is a block hash, and which.
abbrev pub answers : (List ℕ → Bool) → Option (List ℕ) → Bool
answers p none = false
answers p (some text) = let value = to_lower_case (trim text) in is_block_hash value && p value

abbrev pub agrees : List ℕ → Option (List ℕ) → Bool
agrees hash = answers (λ v. bytes_equal v hash)

abbrev pub denies : List ℕ → Option (List ℕ) → Bool
denies hash = answers (λ v. not (bytes_equal v hash))

-- The attesters whose answer for a height passes a test.
abbrev pub those : (Option (List ℕ) → Bool) → ℕ → List Attester → List Attester
those p height [] = []
those p height (e ∷ es) =
    let rest = those p height es in if p (e.block_hash_at height) then e ∷ rest else rest

abbrev counted : Tally → ℕ
counted t = t.agreed + t.unreachable + length t.disagreements + length t.malformed

module _ (hash : List ℕ) (height : ℕ) where
  abbrev agreed_by : Bool → ℕ
  agreed_by true = 1
  agreed_by false = 0

  add_answer-counted :
      (base : List ℕ) (answer : Option (List ℕ)) (t : Tally)
      → (counted (add_answer hash base answer t) ≡ counted t + 1)
        × ((add_answer hash base answer t).agreed ≡ t.agreed + agreed_by (agrees hash answer))
        × (length (add_answer hash base answer t).disagreements
            ≡ length t.disagreements + agreed_by (denies hash answer))
  unfolding add_answer
  add_answer-counted base none t = (omega arith, omega arith, omega arith)
  add_answer-counted base (some text) t =
      let value = to_lower_case (trim text) in
      elim (Bool-cases (is_block_hash value)) [
        | inl good ↦ elim (Bool-cases (bytes_equal value hash)) [
          | inl same ↦ rw (good, same) (omega arith, omega arith, omega arith)
          | inr other ↦
              rw (good, other)
                (
                  omega (arith, length-append {0} t.disagreements ((base, value) ∷ [])),
                  omega arith,
                  omega (arith, length-append {0} t.disagreements ((base, value) ∷ [])),
                )
        ]
        | inr bad ↦ rw bad (
          omega (arith, length-append {0} t.malformed ((base, length value) ∷ [])),
          omega arith,
          omega arith,
        )
      ]

  length-those :
      (p : Option (List ℕ) → Bool) (e : Attester) (es : List Attester)
      → length (those p height (e ∷ es))
        ≡ agreed_by (p (e.block_hash_at height)) + length (those p height es)
  length-those p e es = elim (Bool-cases (p (e.block_hash_at height))) [
    | inl yes' ↦ rw yes' (omega arith)
    | inr no' ↦ rw no' (omega arith)
  ]

  -- Every answer is in one bucket.
  pub tally_loop-counted :
      (es : List Attester) (t : Tally)
      → let after = tally_loop hash height es t in
        (counted after ≡ counted t + length es)
        × (after.agreed ≡ t.agreed + length (those (agrees hash) height es))
        × (length after.disagreements
            ≡ length t.disagreements + length (those (denies hash) height es))
  unfolding tally_loop
  tally_loop-counted [] t = (omega arith, omega arith, omega arith)
  tally_loop-counted (e ∷ es) t =
      let next = add_answer hash e.base_url (e.block_hash_at height) t in
      let (a, b, c) = add_answer-counted e.base_url (e.block_hash_at height) t in
      let (x, y, z) = tally_loop-counted es next in
      (
        omega (arith, a, x),
        omega (arith, b, y, length-those (agrees hash) e es),
        omega (arith, c, z, length-those (denies hash) e es),
      )

-- Endpoints that are none of those that served the bundle, none of those seen, and no endpoint twice.
abbrev pub Apart : (List ℕ → List ℕ) → List (List ℕ) → List (List ℕ) → List Attester → Type 0
Apart normalize served seen [] = Unit {0}
Apart normalize served seen (e ∷ es) =
    (contains (normalize e.base_url) served ≡ false)
    × (contains (normalize e.base_url) seen ≡ false)
    × Apart normalize served (normalize e.base_url ∷ seen) es

||-parts : (a b : Bool) → (a || b) ≡ false → (a ≡ false) × (b ≡ false)
||-parts true b h = cc
||-parts false b h = (refl, h)

module _ (normalize : List ℕ → List ℕ) (served : List (List ℕ)) where
  pub attesters_loop-Apart :
      (seen : List (List ℕ)) (es : List Attester)
      → Apart normalize served seen (attesters_loop normalize served seen es)
  unfolding attesters_loop
  attesters_loop-Apart seen [] = tt
  attesters_loop-Apart seen (e ∷ es) =
      let base = normalize e.base_url in
      elim (Bool-cases (contains base served || contains base seen)) [
        | inl skip ↦ rw skip (attesters_loop-Apart seen es)
        | inr keep ↦
            let (a, b) = ||-parts _ _ keep in rw keep (a, b, attesters_loop-Apart (base ∷ seen) es)
      ]

  -- More may be seen than what is seen of fewer.
  abbrev Covers : List (List ℕ) → List (List ℕ) → Type 0
  Covers more less = (s : List ℕ) → contains s more ≡ false → contains s less ≡ false

  Covers-both :
      (b : List ℕ) (more less : List (List ℕ)) → Covers more less → Covers (b ∷ more) (b ∷ less)
  unfolding contains
  Covers-both b more less c s h =
      let (x, y) = ||-parts (bytes_equal b s) (contains s more) h in rw (x, c s y) refl

  Covers-one : (b : List ℕ) (more less : List (List ℕ)) → Covers more less → Covers (b ∷ more) less
  unfolding contains
  Covers-one b more less c s h = c s ((||-parts (bytes_equal b s) (contains s more) h).1)

  pub Apart-those :
      (p : Option (List ℕ) → Bool) (height : ℕ) (more less : List (List ℕ)) (es : List Attester)
      → Covers more less
      → Apart normalize served more es
      → Apart normalize served less (those p height es)
  Apart-those p height more less [] c a = tt
  Apart-those p height more less (e ∷ es) c (out, new, rest) =
      let base = normalize e.base_url in
      elim (Bool-cases (p (e.block_hash_at height))) [
        | inl yes' ↦ rw yes' (
          out,
          c base new,
          Apart-those p height (base ∷ more) (base ∷ less) es (Covers-both base more less c) rest,
        )
        | inr no' ↦
            rw no' (Apart-those p height (base ∷ more) less es (Covers-one base more less c) rest)
      ]

-- An attester that is asked is one of the caller's.
pub attesters_loop-mem :
    (normalize : List ℕ → List ℕ) (served seen : List (List ℕ)) (es : List Attester)
    → All (λ e. Memᴰ e es) (attesters_loop normalize served seen es)
unfolding attesters_loop
attesters_loop-mem normalize served seen [] = tt
attesters_loop-mem normalize served seen (e ∷ es) =
    let base = normalize e.base_url in
    let later = λ (s : List (List ℕ)).
      All-map (λ (x : Attester). Memᴰ x es) (λ x. Memᴰ x (e ∷ es))
        (attesters_loop normalize served s es) (λ x m. Memᴰ.tail m)
        (attesters_loop-mem normalize served s es) in
    elim (Bool-cases (contains base served || contains base seen)) [
      | inl skip ↦ rw skip (later seen)
      | inr keep ↦ rw keep (Memᴰ.head refl, later (base ∷ seen))
    ]

-- What holds of the attesters holds of those that pass a test.
pub All-those_of {κ} :
    (P : Attester → Type κ) (p : Option (List ℕ) → Bool) (height : ℕ) (es : List Attester)
    → All P es
    → All P (those p height es)
All-those_of P p height [] h = tt
All-those_of P p height (e ∷ es) (x, xs) = elim (Bool-cases (p (e.block_hash_at height))) [
  | inl yes' ↦ rw yes' (x, All-those_of P p height es xs)
  | inr no' ↦ rw no' (All-those_of P p height es xs)
]

pub All-those :
    (p : Option (List ℕ) → Bool) (height : ℕ) (es : List Attester)
    → All (λ e. p (e.block_hash_at height) ≡ true) (those p height es)
All-those p height [] = tt
All-those p height (e ∷ es) = elim (Bool-cases (p (e.block_hash_at height))) [
  | inl yes' ↦ rw yes' (yes', All-those p height es)
  | inr no' ↦ rw no' (All-those p height es)
]
