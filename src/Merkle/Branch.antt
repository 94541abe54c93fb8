-- ===== src/Merkle/Branch.antt =====
-- The branch that `buildMerkleBranch` of packages/core/src/merkle.ts builds, checked by
-- `verifyMerkleBranch` against the root that `computeMerkleRoot` computes.
use ordspv.Common.{
  ℕ, zero, suc, ◌+◌, ◌/◌, ◌<◌, ◌≡◌, refl, ap, ◌∙◌, true, List, [], ◌∷◌, some, ok, arith, ◌==◌,
  length, get_or, >>=-eq-ok, lt→ltb, ==_iff,
}
use ordspv.Bytes.Hex.{bytes_equal_iff}
use ordspv.Merkle.Tree.{
  sibling, next_level, plain_level, root_loop, compute_merkle_root, branch_loop,
  build_merkle_branch, check_width, check_level, fold_branch, height_loop, check_count,
  verify_merkle_branch, tree_height,
}
use ordspv.Merkle.Height.{tree_height_step}
use ordspv.Merkle.Level.{
  parent, next_level-plain, plain_level-parent, sibling_last, next_level-final,
}

module _ (sha256 : List ℕ → List ℕ) where
  -- An honest node and its sibling pass the checks of their level.
  check_width_honest :
      (level next : List (List ℕ)) (index : ℕ)
      → next_level sha256 level ≡ ok next
      → index < length level
      → check_width (sibling level index) (get_or level index []) index (length level) ≡ ok tt
  unfolding check_width
  check_width_honest level next index h lt = ground (
    arith,
    sibling_last level index,
    next_level-final sha256 level next index h,
    bytes_equal_iff (sibling level index) (get_or level index []),
  )

  branch_loop_single : (f : ℕ) (a : List ℕ) → branch_loop sha256 f (a ∷ []) 0 ≡ []
  unfolding branch_loop
  branch_loop_single zero a = refl
  branch_loop_single (suc f) a = refl

  -- One level of the two loops.
  branch_loop_step :
      (f : ℕ) (a b : List ℕ) (rest : List (List ℕ)) (index : ℕ)
      → branch_loop sha256 (suc f) (a ∷ b ∷ rest) index
        ≡ sibling (a ∷ b ∷ rest) index
          ∷ branch_loop sha256 f (plain_level sha256 (a ∷ b ∷ rest)) (index / 2)
  unfolding branch_loop
  branch_loop_step f a b rest index = ground arith

  root_loop_step :
      (f : ℕ) (a b : List ℕ) (rest : List (List ℕ)) (root : List ℕ)
      → root_loop sha256 (suc f) (a ∷ b ∷ rest) ≡ ok root
      → (next : List (List ℕ)) × (next_level sha256 (a ∷ b ∷ rest) ≡ ok next)
        × (root_loop sha256 f next ≡ ok root)
  unfolding root_loop
  root_loop_step f a b rest root h = >>=-eq-ok (next_level sha256 (a ∷ b ∷ rest)) _ h

  fold_branch_step :
      (s node : List ℕ) (branch : List (List ℕ)) (index width : ℕ)
      → check_width s node index width ≡ ok tt
      → fold_branch sha256 (s ∷ branch) node index (some width)
        ≡ fold_branch sha256 branch
            (parent sha256 s node index)
            (index / 2)
            (some ((width + 1) / 2))
  unfolding fold_branch check_level
  fold_branch_step s node branch index width h = rw h

  fold_branch_loop :
      (f : ℕ) (level : List (List ℕ)) (index : ℕ) (root : List ℕ)
      → root_loop sha256 f level ≡ ok root
      → index < length level
      → (fold_branch sha256
            (branch_loop sha256 f level index)
            (get_or level index [])
            index
            (some (length level))
          ≡ ok root)
        × (tree_height (length level) ≡ ok (length (branch_loop sha256 f level index)))
  fold_branch_loop f [] index root h lt = absurd (omega arith)
  fold_branch_loop f (a ∷ []) zero root h lt =
      let none = branch_loop_single f a in
      (
        rw none (unfold fold_branch root_loop in h),
        rw none (unfold tree_height height_loop in refl),
      )
  fold_branch_loop f (a ∷ []) (suc i) root h lt = absurd (omega arith)
  fold_branch_loop zero (a ∷ b ∷ rest) index root h lt = unfold root_loop in cc
  fold_branch_loop (suc f) (a ∷ b ∷ rest) index root h lt =
      let level = a ∷ b ∷ rest in
      let (next, e, more) = root_loop_step f a b rest root h in
      let (plain, half) = next_level-plain sha256 level next e in
      let lt' : index / 2 < length next = omega (arith, half) in
      let (folds, high) = fold_branch_loop f next (index / 2) root more lt' in
      let up = plain_level-parent sha256 level index lt in
      let honest = check_width_honest level next index e lt in
      (
        rw
            (
              branch_loop_step f a b rest index,
              fold_branch_step _ _ _ _ _ honest,
              ← up,
              ← plain,
              ← half,
            )
            folds,
        rw (branch_loop_step f a b rest index, ← plain)
            (tree_height_step (length level) _ (omega arith) (rw half at high)
              ∙ ap ok (omega arith)),
      )

-- For a leaf set without the CVE-2012-2459 mutation, the branch built for a position folds to the
-- root computed from all leaves, with the transaction count given.
pub verify-build_merkle_branch :
    (sha256 : List ℕ → List ℕ) (leaves : List (List ℕ)) (pos : ℕ) (root : List ℕ)
    → compute_merkle_root sha256 leaves ≡ ok root
    → pos < length leaves
    → (branch : List (List ℕ)) × (build_merkle_branch sha256 leaves pos ≡ ok branch)
      × (verify_merkle_branch sha256 (get_or leaves pos []) branch pos (some (length leaves))
          ≡ ok root)
unfolding compute_merkle_root build_merkle_branch verify_merkle_branch check_count
verify-build_merkle_branch sha256 leaves pos root h lt =
    let (folds, high) = fold_branch_loop sha256 (length leaves) leaves pos root h lt in
    let inside = lt→ltb _ _ lt in
    let height = length (branch_loop sha256 (length leaves) leaves pos) in
    let same : (height == height) ≡ true = (==_iff height height).1 refl in
    (branch_loop sha256 (length leaves) leaves pos, rw inside, rw (inside, high) (rw same folds))
