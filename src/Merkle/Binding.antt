-- ===== src/Merkle/Binding.antt =====
-- What the fold of `verifyMerkleBranch` of packages/core/src/merkle.ts commits to: two branches of
-- one position that fold to one root are the same, or they show a collision of the hash.
use ordspv.Common.{
  ℕ, ◌/◌, ◌%◌, ◌≡◌, refl, sym, ◌∙◌, ◌≢◌, ◌⊎◌, inl, inr, Bool-cases, List, [], ◌∷◌, ◌++◌, Option,
  some, ok, arith, ◌==◌, length, All, >>=-eq-ok, >>-eq-ok, ok-injective, take-length-append,
  drop-length-append, require-eq-ok, ==_iff,
}
use ordspv.Bytes.Hex.{bytes_equal, bytes_equal_iff}
use ordspv.Merkle.Tree.{
  hash_pair, tree_height, check_level, check_count, fold_branch, verify_merkle_branch,
}
use ordspv.Merkle.Level.{parent}
use ordspv.Tx.Hash.{sha256d}

abbrev pub IsHash : List ℕ → Type 0
IsHash a = length a ≡ 32

-- Two inputs that the double hash does not tell apart.
abbrev pub Collision : (List ℕ → List ℕ) → Type 0
Collision sha256 = (x : List ℕ) × (y : List ℕ) × (x ≢ y) × (sha256d sha256 x ≡ sha256d sha256 y)

append_cancel : (a b c d : List ℕ) → length a ≡ length c → a ++ b ≡ c ++ d → (a ≡ c) × (b ≡ d)
append_cancel a b c d n e = (
  sym (take-length-append a b) ∙ (rw (n, e) (take-length-append c d)),
  sym (drop-length-append a b) ∙ (rw (n, e) (drop-length-append c d)),
)

module _ (sha256 : List ℕ → List ℕ) where
  hash_pair-binds :
      (a b c d : List ℕ)
      → length a ≡ length c
      → hash_pair sha256 a b ≡ hash_pair sha256 c d
      → ((a ≡ c) × (b ≡ d)) ⊎ Collision sha256
  unfolding hash_pair
  hash_pair-binds a b c d n e = elim (Bool-cases (bytes_equal (a ++ b) (c ++ d))) [
    | inl same ↦ inl (append_cancel a b c d n ((bytes_equal_iff _ _).0 same))
    | inr other ↦
        inr (a ++ b, c ++ d, (λ k. let same = (bytes_equal_iff (a ++ b) (c ++ d)).1 k in cc), e)
  ]

  parent-binds :
      (s node t other : List ℕ) (index : ℕ)
      → IsHash s
      → IsHash node
      → IsHash t
      → IsHash other
      → parent sha256 s node index ≡ parent sha256 t other index
      → ((node ≡ other) × (s ≡ t)) ⊎ Collision sha256
  parent-binds s node t other index hs hn ht ho e = elim (Bool-cases (index % 2 == 1)) [
    | inl right ↦ elim (hash_pair-binds s node t other (hs ∙ sym ht) (rw right at e)) [
      | inl (p, q) ↦ inl (q, p)
      | inr c ↦ inr c
    ]
    | inr left ↦ hash_pair-binds node s other t (hn ∙ sym ho) (rw left at e)
  ]

  parent-IsHash :
      ((x : List ℕ) → IsHash (sha256 x))
      → (s node : List ℕ) (index : ℕ) → IsHash (parent sha256 s node index)
  unfolding hash_pair sha256d
  parent-IsHash sized s node index = elim (Bool-cases (index % 2 == 1)) [
    | inl right ↦ rw right (sized _)
    | inr left ↦ rw left (sized _)
  ]

  fold_branch-parent :
      (s : List ℕ) (branch : List (List ℕ)) (node : List ℕ) (index : ℕ) (width : Option ℕ)
      (root : List ℕ)
      → fold_branch sha256 (s ∷ branch) node index width ≡ ok root
      → (width' : Option ℕ) × (fold_branch sha256 branch
            (parent sha256 s node index)
            (index / 2)
            width'
          ≡ ok root)
  unfolding fold_branch
  fold_branch-parent s branch node index width root h =
      let (width', _, more) = >>=-eq-ok (check_level s node index width) _ h in (width', more)

  fold_branch_end :
      (node : List ℕ) (index : ℕ) (width : Option ℕ) (root : List ℕ)
      → fold_branch sha256 [] node index width ≡ ok root
      → node ≡ root
  unfolding fold_branch
  fold_branch_end node index width root h = elim (Bool-cases (index == 0)) [
    | inl top ↦ ok-injective (rw top at h)
    | inr low ↦ absurd (let k = rw low at h in cc)
  ]

  fold_branch-binds :
      ((x : List ℕ) → IsHash (sha256 x))
      → (b c : List (List ℕ)) (node other : List ℕ) (index : ℕ) (v w : Option ℕ) (root : List ℕ)
      → length b ≡ length c
      → All IsHash b
      → All IsHash c
      → IsHash node
      → IsHash other
      → fold_branch sha256 b node index v ≡ ok root
      → fold_branch sha256 c other index w ≡ ok root
      → ((node ≡ other) × (b ≡ c)) ⊎ Collision sha256
  fold_branch-binds sized [] [] node other index v w root n hb hc hn ho f g =
      inl (fold_branch_end _ _ _ _ f ∙ sym (fold_branch_end _ _ _ _ g), refl)
  fold_branch-binds sized [] (t ∷ c) node other index v w root n hb hc hn ho f g =
      absurd (omega arith)
  fold_branch-binds sized (s ∷ b) [] node other index v w root n hb hc hn ho f g =
      absurd (omega arith)
  fold_branch-binds sized (s ∷ b) (t ∷ c) node other index v w root n (hs, hb) (ht, hc) hn ho f g =
      let (v', f') = fold_branch-parent s b node index v root f in
      let (w', g') = fold_branch-parent t c other index w root g in
      let above =
        fold_branch-binds sized b c (parent sha256 s node index) (parent sha256 t other index)
          (index / 2) v' w' root (omega arith) hb hc (parent-IsHash sized s node index)
          (parent-IsHash sized t other index) f' g' in
      elim above [
        | inl (e, rest) ↦ elim (parent-binds s node t other index hs hn ht ho e) [
          | inl (p, q) ↦ inl (p, rw (q, rest) refl)
          | inr x ↦ inr x
        ]
        | inr x ↦ inr x
      ]

  counted :
      (leaf : List ℕ) (branch : List (List ℕ)) (pos count : ℕ) (root : List ℕ)
      → verify_merkle_branch sha256 leaf branch pos (some count) ≡ ok root
      → (tree_height count ≡ ok (length branch))
        × (fold_branch sha256 branch leaf pos (some count) ≡ ok root)
  unfolding verify_merkle_branch check_count
  counted leaf branch pos count root h =
      let (_, checks, folds) = >>=-eq-ok (check_count (length branch) pos (some count)) _ h in
      let (_, rest) = >>-eq-ok _ _ _ checks in
      let (height, e, more) = >>=-eq-ok (tree_height count) _ rest in
      let same = (==_iff (length branch) height).0 (require-eq-ok _ _ more) in (rw same e, folds)

-- For a transaction count and a hash of 32 bytes, two leaves that the check accepts at one position
-- under one root, with siblings of 32 bytes, are the same leaf with the same branch, or the two
-- proofs give a collision of the double hash.
pub verify_merkle_branch-binds :
    (sha256 : List ℕ → List ℕ)
    → ((x : List ℕ) → IsHash (sha256 x))
    → (leaf other : List ℕ) (b c : List (List ℕ)) (pos count : ℕ) (root : List ℕ)
    → All IsHash (leaf ∷ b)
    → All IsHash (other ∷ c)
    → verify_merkle_branch sha256 leaf b pos (some count) ≡ ok root
    → verify_merkle_branch sha256 other c pos (some count) ≡ ok root
    → ((leaf ≡ other) × (b ≡ c)) ⊎ Collision sha256
verify_merkle_branch-binds sha256 sized leaf other b c pos count root (hl, hb) (ho, hc) f g =
    let (high, folds) = counted sha256 leaf b pos count root f in
    let (high', folds') = counted sha256 other c pos count root g in
    fold_branch-binds sha256 sized b c leaf other pos (some count) (some count) root
      (ok-injective (sym high ∙ high')) hb hc hl ho folds folds'
