-- ===== src/Tests/Trees.antt =====
-- The theorems on merkle trees at concrete inputs.
use ordspv.Common.{ℕ, ◌≡◌, refl, ◌⊎◌, arith, List, [], ◌∷◌, some, ok}
use ordspv.Merkle.Binding.{IsHash, Collision, verify_merkle_branch-binds}
use ordspv.Merkle.Branch.{verify-build_merkle_branch}
use ordspv.Merkle.Tree.{tree_height, compute_merkle_root, build_merkle_branch, verify_merkle_branch}
use ordspv.Tests.Toy.{zeros, sum_hash}

abbrev leaves : List (List ℕ)
leaves = (1 ∷ []) ∷ (2 ∷ []) ∷ (3 ∷ []) ∷ []

leaves-root : compute_merkle_root sum_hash leaves ≡ ok (9 ∷ zeros 31)
unfolding ordspv.Bytes.Hex.is_hex_char ordspv.Bytes.Hex.all_hex ordspv.Bytes.Hex.hex_value
    ordspv.Bytes.Hex.hex_pairs ordspv.Bytes.Hex.hex_to_bytes ordspv.Bytes.Hex.hex_char
    ordspv.Bytes.Hex.bytes_to_hex ordspv.Bytes.Hex.display_to_internal
    ordspv.Bytes.Hex.internal_to_display ordspv.Bytes.Hex.same_bytes ordspv.Bytes.Hex.bytes_equal
    ordspv.Bytes.Hex.concat_bytes ordspv.Tx.Hash.sha256d ordspv.Tx.Hash.tagged_hash
    ordspv.Merkle.Tree.height_loop ordspv.Merkle.Tree.tree_height ordspv.Merkle.Tree.sibling_index
    ordspv.Merkle.Tree.sibling ordspv.Merkle.Tree.check_width ordspv.Merkle.Tree.check_level
    ordspv.Merkle.Tree.check_count ordspv.Merkle.Tree.hash_pair ordspv.Merkle.Tree.next_level
    ordspv.Merkle.Tree.root_loop ordspv.Merkle.Tree.compute_merkle_root
    ordspv.Merkle.Tree.plain_level ordspv.Merkle.Tree.branch_loop
    ordspv.Merkle.Tree.build_merkle_branch ordspv.Merkle.Tree.fold_branch
    ordspv.Merkle.Tree.verify_merkle_branch
leaves-root = refl

verify-build_merkle_branch_example :
    (branch : List (List ℕ)) × (build_merkle_branch sum_hash leaves 2 ≡ ok branch)
    × (verify_merkle_branch sum_hash (3 ∷ []) branch 2 (some 3) ≡ ok (9 ∷ zeros 31))
verify-build_merkle_branch_example =
    verify-build_merkle_branch sum_hash leaves 2 (9 ∷ zeros 31) leaves-root (omega arith)

abbrev node : ℕ → List ℕ
node n = n ∷ zeros 31

-- Two leaves at one position of a tree of three, under one root: a hash that adds bytes collides.
accepted :
    (verify_merkle_branch sum_hash (node 1) (node 2 ∷ node 6 ∷ []) 0 (some 3) ≡ ok (node 9))
    × (verify_merkle_branch sum_hash (node 2) (node 1 ∷ node 6 ∷ []) 0 (some 3) ≡ ok (node 9))
unfolding ordspv.Bytes.Hex.is_hex_char ordspv.Bytes.Hex.all_hex ordspv.Bytes.Hex.hex_value
    ordspv.Bytes.Hex.hex_pairs ordspv.Bytes.Hex.hex_to_bytes ordspv.Bytes.Hex.hex_char
    ordspv.Bytes.Hex.bytes_to_hex ordspv.Bytes.Hex.display_to_internal
    ordspv.Bytes.Hex.internal_to_display ordspv.Bytes.Hex.same_bytes ordspv.Bytes.Hex.bytes_equal
    ordspv.Bytes.Hex.concat_bytes ordspv.Tx.Hash.sha256d ordspv.Tx.Hash.tagged_hash
    ordspv.Merkle.Tree.height_loop ordspv.Merkle.Tree.tree_height ordspv.Merkle.Tree.sibling_index
    ordspv.Merkle.Tree.sibling ordspv.Merkle.Tree.check_width ordspv.Merkle.Tree.check_level
    ordspv.Merkle.Tree.check_count ordspv.Merkle.Tree.hash_pair ordspv.Merkle.Tree.next_level
    ordspv.Merkle.Tree.root_loop ordspv.Merkle.Tree.compute_merkle_root
    ordspv.Merkle.Tree.plain_level ordspv.Merkle.Tree.branch_loop
    ordspv.Merkle.Tree.build_merkle_branch ordspv.Merkle.Tree.fold_branch
    ordspv.Merkle.Tree.verify_merkle_branch
accepted = (refl, refl)

sum_hash-IsHash : (x : List ℕ) → IsHash (sum_hash x)
sum_hash-IsHash x = refl

verify_merkle_branch-binds_example :
    ((node 1 ≡ node 2) × (node 2 ∷ node 6 ∷ [] ≡ node 1 ∷ node 6 ∷ [])) ⊎ Collision sum_hash
verify_merkle_branch-binds_example =
    verify_merkle_branch-binds sum_hash sum_hash-IsHash (node 1) (node 2) (node 2 ∷ node 6 ∷ [])
      (node 1 ∷ node 6 ∷ []) 0 3 (node 9) (refl, (refl, (refl, tt))) (refl, (refl, (refl, tt)))
      accepted.0 accepted.1
