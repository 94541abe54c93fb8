-- ===== src/Merkle/Tree.antt =====
-- The functions of packages/core/src/merkle.ts. A hash is a list of bytes in internal order; a
-- position and a count are natural numbers.
use ordspv.Common.{
  ℕ, zero, suc, ◌+◌, ◌-◌, ◌*◌, ◌/◌, ◌%◌, not, ◌&&◌, List, [], ◌∷◌, ◌++◌, Option, none, some, Result,
  ok, throw, require, failure, ◌>>=◌, ◌>>◌, ltb, ◌==◌, if◌then◌else◌, length, get_or,
}
use ordspv.Bytes.Hex.{bytes_equal}
use ordspv.Tx.Hash.{sha256d}

-- `while (width > 1)`, counting the rounds; `fuel` bounds them.
unfoldable pub height_loop : ℕ → ℕ → ℕ → ℕ
height_loop zero width height = height
height_loop (suc fuel) width height =
    let rest = height_loop fuel ((width + 1) / 2) (height + 1) in
    if ltb 1 width then rest else height

-- The width falls in each round, so the count itself is enough fuel.
unfoldable pub tree_height : ℕ → Result ℕ
tree_height leaf_count =
    if leaf_count == 0 then throw "invalid leaf count" else ok (height_loop leaf_count leaf_count 0)

unfoldable pub sibling_index : ℕ → ℕ
sibling_index index = if index % 2 == 1 then index - 1 else index + 1

-- `siblingIndex < level.length ? level[siblingIndex] : level[index]`
unfoldable pub sibling : List (List ℕ) → ℕ → List ℕ
unfolding sibling_index
sibling level index =
    if ltb (sibling_index index) (length level)
    then get_or level (sibling_index index) []
    else get_or level index []

-- The checks of one level where the width is known. `(index | 1)` is `index / 2 * 2 + 1` for a position
-- below 2 ^ 31, where the 32-bit operation does not wrap.
unfoldable pub check_width : List ℕ → List ℕ → ℕ → ℕ → Result (Unit {0})
check_width sibling_node node index width =
    let is_last_odd = (index == width - 1) && (width % 2 == 1) in
    let same = bytes_equal sibling_node node in
    if is_last_odd && not same
    then throw "expected self-paired final node"
    else (if not is_last_odd && (same && ((width % 2 == 0) && (index / 2 * 2 + 1 == width - 1)))
        then throw "duplicate sibling (possible mutation)"
        else ok tt)

unfoldable pub check_level : List ℕ → List ℕ → ℕ → Option ℕ → Result (Option ℕ)
check_level sibling_node node index none = ok none
check_level sibling_node node index (some width) = do
  check_width sibling_node node index width
  ok (some ((width + 1) / 2))

-- The checks against a known transaction count.
unfoldable pub check_count : ℕ → ℕ → Option ℕ → Result (Unit {0})
check_count branch_length pos none = ok tt
check_count branch_length pos (some tx_count) = do
  require (ltb pos tx_count) (failure "merkle position out of range")
  expected ← tree_height tx_count
  require (branch_length == expected) (failure "merkle branch length != expected height")

module _ (sha256 : List ℕ → List ℕ) where
  unfoldable pub hash_pair : List ℕ → List ℕ → List ℕ
  hash_pair a b = sha256d sha256 (a ++ b)

  -- One round of `computeMerkleRoot`: an equal final pair is the CVE-2012-2459 mutation.
  unfoldable pub next_level : List (List ℕ) → Result (List (List ℕ))
  next_level [] = ok []
  next_level (a ∷ []) = ok (hash_pair a a ∷ [])
  next_level (a ∷ b ∷ []) =
      if bytes_equal a b
      then throw "duplicate final nodes in merkle level (mutated tree)"
      else ok (hash_pair a b ∷ [])
  next_level (a ∷ b ∷ c ∷ rest) = do next ← next_level (c ∷ rest); ok (hash_pair a b ∷ next)

  -- `while (level.length > 1)`; `fuel` bounds the rounds.
  unfoldable pub root_loop : ℕ → List (List ℕ) → Result (List ℕ)
  root_loop fuel [] = throw "cannot compute merkle root of zero leaves"
  root_loop fuel (a ∷ []) = ok a
  root_loop zero (a ∷ b ∷ rest) = throw "out of fuel"
  root_loop (suc fuel) (a ∷ b ∷ rest) = do next ← next_level (a ∷ b ∷ rest); root_loop fuel next

  unfoldable pub compute_merkle_root : List (List ℕ) → Result (List ℕ)
  compute_merkle_root leaves = root_loop (length leaves) leaves

  -- The same round in `buildMerkleBranch`, which has no mutation check.
  unfoldable pub plain_level : List (List ℕ) → List (List ℕ)
  plain_level [] = []
  plain_level (a ∷ []) = hash_pair a a ∷ []
  plain_level (a ∷ b ∷ rest) = hash_pair a b ∷ plain_level rest

  unfoldable pub branch_loop : ℕ → List (List ℕ) → ℕ → List (List ℕ)
  branch_loop zero level index = []
  branch_loop (suc fuel) level index =
      let rest = branch_loop fuel (plain_level level) (index / 2) in
      if ltb 1 (length level) then sibling level index ∷ rest else []

  unfoldable pub build_merkle_branch : List (List ℕ) → ℕ → Result (List (List ℕ))
  build_merkle_branch leaves pos =
      if ltb pos (length leaves)
      then ok (branch_loop (length leaves) leaves pos)
      else throw "position out of range"

  -- The fold of `verifyMerkleBranch` from a node up.
  unfoldable pub fold_branch : List (List ℕ) → List ℕ → ℕ → Option ℕ → Result (List ℕ)
  fold_branch [] node index width =
      if index == 0 then ok node else throw "merkle position exceeds branch length"
  fold_branch (s ∷ branch) node index width = do
    width' ← check_level s node index width
    fold_branch branch (if index % 2 == 1 then hash_pair s node else hash_pair node s) (index / 2)
        width'

  unfoldable pub verify_merkle_branch : List ℕ → List (List ℕ) → ℕ → Option ℕ → Result (List ℕ)
  verify_merkle_branch leaf branch pos tx_count = do
    check_count (length branch) pos tx_count
    fold_branch branch leaf pos tx_count
