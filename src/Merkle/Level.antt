-- ===== src/Merkle/Level.antt =====
-- One level of the tree of packages/core/src/merkle.ts: a node, its sibling and their parent.
use ordspv.Common.{
  ℕ, zero, suc, ◌+◌, ◌-◌, ◌*◌, ◌/◌, ◌%◌, ◌<◌, ◌≡◌, refl, ◌∙◌, false, List, [], ◌∷◌, ok, arith, ◌==◌,
  if◌then◌else◌, length, get_or, >>=-eq-ok,
}
use ordspv.Bytes.Hex.{bytes_equal, bytes_equal_comm}
use ordspv.Merkle.Tree.{sibling_index, sibling, hash_pair, next_level, plain_level}

sibling_index_later : (i : ℕ) → sibling_index (suc (suc i)) ≡ suc (suc (sibling_index i))
unfolding sibling_index
sibling_index_later i = ground arith

-- A pair further to the left moves every position by two.
sibling_later :
    (a b : List ℕ) (rest : List (List ℕ)) (i : ℕ)
    → sibling (a ∷ b ∷ rest) (suc (suc i)) ≡ sibling rest i
unfolding sibling
sibling_later a b rest i = ground (arith, sibling_index_later i)

sibling_alone : (a : List ℕ) → sibling (a ∷ []) 0 ≡ a
unfolding sibling
sibling_alone a = refl

sibling_of_first : (a b : List ℕ) (rest : List (List ℕ)) → sibling (a ∷ b ∷ rest) 0 ≡ b
unfolding sibling
sibling_of_first a b rest = ground arith

sibling_of_second : (a b : List ℕ) (rest : List (List ℕ)) → sibling (a ∷ b ∷ rest) 1 ≡ a
unfolding sibling
sibling_of_second a b rest = ground arith

-- The last node of an odd level is its own sibling.
pub sibling_last :
    (level : List (List ℕ)) (index : ℕ)
    → index + 1 ≡ length level
    → length level % 2 ≡ 1
    → sibling level index ≡ get_or level index []
unfolding sibling sibling_index
sibling_last level index e odd = ground arith

module _ (sha256 : List ℕ → List ℕ) where
  -- Where the mutation check passes, the two builders make one level, half as wide.
  pub next_level-plain :
      (level next : List (List ℕ))
      → next_level sha256 level ≡ ok next
      → (next ≡ plain_level sha256 level) × (length next ≡ (length level + 1) / 2)
  unfolding next_level plain_level
  next_level-plain [] next h = ground arith
  next_level-plain (a ∷ []) next h = ground arith
  next_level-plain (a ∷ b ∷ []) next h = ground arith
  next_level-plain (a ∷ b ∷ c ∷ rest) next h =
      let (tail, e, f) = >>=-eq-ok (next_level sha256 (c ∷ rest)) _ h in
      ground (arith, next_level-plain (c ∷ rest) tail e)

  -- The parent of a node and its sibling, in the order of the node's side.
  abbrev pub parent : List ℕ → List ℕ → ℕ → List ℕ
  parent s node index = if index % 2 == 1 then hash_pair sha256 s node else hash_pair sha256 node s

  pub plain_level-parent :
      (level : List (List ℕ)) (index : ℕ)
      → index < length level
      → get_or (plain_level sha256 level) (index / 2) []
        ≡ parent (sibling level index) (get_or level index []) index
  unfolding plain_level
  plain_level-parent [] index h = absurd (omega arith)
  plain_level-parent (a ∷ []) zero h = rw sibling_alone
  plain_level-parent (a ∷ []) (suc i) h = absurd (omega arith)
  plain_level-parent (a ∷ b ∷ rest) zero h = rw sibling_of_first
  plain_level-parent (a ∷ b ∷ rest) (suc zero) h = rw sibling_of_second
  plain_level-parent (a ∷ b ∷ rest) (suc (suc i)) h =
      let up : suc (suc i) / 2 ≡ suc (i / 2) = omega arith in
      let parity : suc (suc i) % 2 ≡ i % 2 = omega arith in
      rw (up, parity, sibling_later a b rest i) (plain_level-parent rest i (omega arith))

  next_level-tail :
      (a b c : List ℕ) (rest next : List (List ℕ))
      → next_level sha256 (a ∷ b ∷ c ∷ rest) ≡ ok next
      → (tail : List (List ℕ)) × (next_level sha256 (c ∷ rest) ≡ ok tail)
  unfolding next_level
  next_level-tail a b c rest next h =
      let (tail, e, f) = >>=-eq-ok (next_level sha256 (c ∷ rest)) _ h in (tail, e)

  next_level_pair :
      (a b : List ℕ) (next : List (List ℕ))
      → next_level sha256 (a ∷ b ∷ []) ≡ ok next
      → bytes_equal a b ≡ false
  unfolding next_level
  next_level_pair a b next h = ground arith

  -- A level that passes the mutation check does not end in an equal pair.
  pub next_level-final :
      (level next : List (List ℕ)) (index : ℕ)
      → next_level sha256 level ≡ ok next
      → length level % 2 ≡ 0
      → index < length level
      → index / 2 * 2 + 1 ≡ length level - 1
      → bytes_equal (sibling level index) (get_or level index []) ≡ false
  next_level-final [] next index h even lt last = absurd (omega arith)
  next_level-final (a ∷ []) next index h even lt last = absurd (omega arith)
  next_level-final (a ∷ b ∷ []) next zero h even lt last =
      rw sibling_of_first (bytes_equal_comm b a ∙ next_level_pair a b next h)
  next_level-final (a ∷ b ∷ []) next (suc zero) h even lt last =
      rw sibling_of_second (next_level_pair a b next h)
  next_level-final (a ∷ b ∷ []) next (suc (suc i)) h even lt last = absurd (omega arith)
  next_level-final (a ∷ b ∷ c ∷ rest) next zero h even lt last = absurd (omega arith)
  next_level-final (a ∷ b ∷ c ∷ rest) next (suc zero) h even lt last = absurd (omega arith)
  next_level-final (a ∷ b ∷ c ∷ rest) next (suc (suc i)) h even lt last =
      let (tail, e) = next_level-tail a b c rest next h in
      rw (sibling_later a b (c ∷ rest) i)
        (next_level-final (c ∷ rest) tail i e (omega arith) (omega arith) (omega arith))
