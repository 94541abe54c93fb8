-- ===== src/Custody/Anchor.antt =====
-- Theorems on `verifyAnchoredHop` of packages/core/src/custody.ts: what an anchored header and an
-- anchored transaction satisfy.
use ordspv.Common.{
  ℕ, ◌≡◌, ap, subst, true, List, some, ok, >>=-eq-ok, >>-eq-ok, ok-injective, require-eq-ok,
  map_result, leb, ◌==◌, ==_iff, length, ◌≤◌, leb→le,
}
use ordspv.Bytes.Hex.{bytes_equal, bytes_equal_iff, display_to_internal}
use ordspv.Custody.Bundle.{
  CustodyBlock, CustodyHop, CustodyVerifyOptions, HeaderAttestation, ask_trust, parse_header_hex,
  anchor_header, anchor_tx, verify_anchored_hop,
}
use ordspv.Header.Parse.{BlockHeader, check_pow_limit, check_proof_of_work}
use ordspv.Merkle.Tree.{tree_height, verify_merkle_branch}
use ordspv.Text.{to_lower_case}
use ordspv.Tx.Types.{ParsedTx}

-- The header that a block's hex parses to, with the claimed hash, work above the floor and above its
-- own target, and a hook that did not refuse it.
pub record AnchoredHeader (sha256 : List ℕ → List ℕ) (block : CustodyBlock)
    (opts : CustodyVerifyOptions) (header : BlockHeader) : Type 0 where
  pub parses : parse_header_hex sha256 block.header ≡ ok header
  pub hash_is : header.hash ≡ to_lower_case block.hash
  pub floor : check_pow_limit header opts.pow_limit_bits ≡ ok tt
  pub work : check_proof_of_work header ≡ ok true
  pub some_tx : 1 ≤ block.tx_count
  pub trusted : (a : HeaderAttestation) × (ask_trust opts.trust_header header block.height ≡ ok a)

pub anchor_header-eq-ok :
    (sha256 : List ℕ → List ℕ) (block : CustodyBlock) (opts : CustodyVerifyOptions)
    (r : BlockHeader × HeaderAttestation)
    → anchor_header sha256 block opts ≡ ok r
    → AnchoredHeader sha256 block opts r.0
unfolding anchor_header
anchor_header-eq-ok sha256 block opts r h =
    let (header, parses, h1) = >>=-eq-ok (parse_header_hex sha256 block.header) _ h in
    let (same, h2) = >>-eq-ok (bytes_equal header.hash (to_lower_case block.hash)) _ _ h1 in
    let (_, floor, h3) = >>=-eq-ok (check_pow_limit header opts.pow_limit_bits) _ h2 in
    let (enough, work, h4) = >>=-eq-ok (check_proof_of_work header) _ h3 in
    let (yes', h5) = >>-eq-ok enough _ _ h4 in
    let (count, h6) = >>-eq-ok (leb 1 block.tx_count) _ _ h5 in
    let (a, trusted, h7) = >>=-eq-ok (ask_trust opts.trust_header header block.height) _ h6 in
    let is : header ≡ r.0 = ap (λ (t : BlockHeader × HeaderAttestation). t.0) (ok-injective h7) in
    subst (AnchoredHeader sha256 block opts) is (record {
      parses = parses;
      hash_is = (bytes_equal_iff _ _).0 same;
      floor = floor;
      work = rw yes' at work;
      some_tx = leb→le _ _ count;
      trusted = (a, trusted);
    })

-- A branch of the tree's height that folds the transaction's id to the header's merkle root.
pub record AnchoredTx (sha256 : List ℕ → List ℕ) (header : BlockHeader) (tx_count : ℕ)
    (tx : ParsedTx) (txid_branch : List (List ℕ)) (pos : ℕ) : Type 0 where
  pub branch : List (List ℕ)
  pub branch_is : map_result display_to_internal txid_branch ≡ ok branch
  pub height_is : tree_height tx_count ≡ ok (length branch)
  pub folds :
      verify_merkle_branch sha256 tx.txid_le branch pos (some tx_count) ≡ ok header.merkle_root_le

pub anchor_tx-eq-ok :
    (sha256 : List ℕ → List ℕ) (header : BlockHeader) (tx_count : ℕ) (tx : ParsedTx)
    (txid_branch : List (List ℕ)) (pos : ℕ)
    → anchor_tx sha256 header tx_count tx txid_branch pos ≡ ok tt
    → AnchoredTx sha256 header tx_count tx txid_branch pos
unfolding anchor_tx
anchor_tx-eq-ok sha256 header tx_count tx txid_branch pos h =
    let (branch, is_branch, h1) = >>=-eq-ok (map_result display_to_internal txid_branch) _ h in
    let (expected, tall, h2) = >>=-eq-ok (tree_height tx_count) _ h1 in
    let (deep, h3) = >>-eq-ok (length branch == expected) _ _ h2 in
    let (root, folds, h4) =
      >>=-eq-ok (verify_merkle_branch sha256 tx.txid_le branch pos (some tx_count)) _ h3 in
    let same : root ≡ header.merkle_root_le = (bytes_equal_iff _ _).0 (require-eq-ok _ _ h4) in
    let height : length branch ≡ expected = (==_iff _ _).0 deep in
    record {
      branch = branch;
      branch_is = is_branch;
      height_is = rw height tall;
      folds = rw same at folds;
    }

-- What `verifyAnchoredHop` leaves of a hop.
pub verify_anchored_hop-Anchored :
    (sha256 : List ℕ → List ℕ) (hop : CustodyHop) (tx : ParsedTx) (opts : CustodyVerifyOptions)
    (a : HeaderAttestation)
    → verify_anchored_hop sha256 hop tx opts ≡ ok a
    → (header : BlockHeader) × AnchoredHeader sha256 hop.block opts header
      × AnchoredTx sha256 header hop.block.tx_count tx hop.txid_branch hop.pos
unfolding verify_anchored_hop
verify_anchored_hop-Anchored sha256 hop tx opts a h =
    let (r, anchored, h1) = >>=-eq-ok (anchor_header sha256 hop.block opts) _ h in
    let (_, folded, _) =
      >>=-eq-ok (anchor_tx sha256 r.0 hop.block.tx_count tx hop.txid_branch hop.pos) _ h1 in
    (
      r.0,
      anchor_header-eq-ok sha256 hop.block opts r anchored,
      anchor_tx-eq-ok sha256 r.0 hop.block.tx_count tx hop.txid_branch hop.pos folded,
    )
