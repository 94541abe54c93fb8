-- ===== src/Witness/Sound.antt =====
-- What `verifyWitnessAnchoring` of packages/core/src/witnesscommit.ts has checked when it accepts.
use ordspv.Common.{
  ℕ, ◌≡◌, sym, ap, ◌∙◌, arith, true, false, not, ◌&&◌, List, [], some, ok, >>=-eq-ok, >>-eq-ok,
  require-eq-ok, or_throw, or_throw-eq-ok, map_result, not-true, ◌==◌, length, get_or, ◌≢◌,
}
use ordspv.Bytes.Hex.{bytes_equal, bytes_equal_iff, display_to_internal}
use ordspv.Header.Parse.{BlockHeader}
use ordspv.Merkle.Tree.{tree_height, verify_merkle_branch}
use ordspv.Tx.Types.{ParsedTx, is_coinbase}
use ordspv.Witness.{
  WitnessSection, check_witness_section_shape, zero32, find_witness_commitment,
  witness_reserved_value, compute_witness_commitment, parse_hop_tx, verify_witness_anchoring,
}

-- A coinbase that folds to the header's root at position 0, whose commitment is the hash of the root
-- that the reveal's wtxid folds to and of the coinbase's reserved value.
pub record Committed (sha256 : List ℕ → List ℕ) (w : WitnessSection) (header : BlockHeader)
    (tx_count : ℕ) (reveal : ParsedTx) (pos : ℕ) : Type 0 where
  pub coinbase : ParsedTx
  pub coinbase_is : parse_hop_tx sha256 w.coinbase_hex ≡ ok coinbase
  pub is_one : is_coinbase coinbase ≡ true
  pub txid_branch : List (List ℕ)
  pub coinbase_folds :
      verify_merkle_branch sha256 coinbase.txid_le txid_branch 0 (some tx_count)
      ≡ ok header.merkle_root_le
  pub wtxid_branch : List (List ℕ)
  pub wtxid_branch_is : map_result display_to_internal w.wtxid_branch ≡ ok wtxid_branch
  pub not_first : pos ≢ 0
  pub root : List ℕ
  pub reveal_folds :
      verify_merkle_branch sha256 reveal.wtxid_le wtxid_branch pos (some tx_count) ≡ ok root
  pub reserved : List ℕ
  pub reserved_is : witness_reserved_value coinbase ≡ ok reserved
  pub commitment_is :
      find_witness_commitment coinbase ≡ ok (some (compute_witness_commitment sha256 root reserved))

pos_nonzero : (pos : ℕ) → (pos == 0) ≡ false → pos ≢ 0
pos_nonzero pos h = ground arith

-- An accepted witness section: the block's coinbase folds to the header's root, and its witness
-- commitment is over the root that the reveal's wtxid folds to at a position other than 0.
pub verify_witness_anchoring-Committed :
    (sha256 : List ℕ → List ℕ) (w : WitnessSection) (header : BlockHeader) (tx_count : ℕ)
    (reveal : ParsedTx) (pos : ℕ)
    → verify_witness_anchoring sha256 w header tx_count reveal pos ≡ ok tt
    → Committed sha256 w header tx_count reveal pos
unfolding verify_witness_anchoring
verify_witness_anchoring-Committed sha256 w header tx_count reveal pos h =
    let (_, _, h1) = >>=-eq-ok (check_witness_section_shape w) _ h in
    let (height, _, h2) = >>=-eq-ok (tree_height tx_count) _ h1 in
    let (coinbase, is_it, h3) = >>=-eq-ok (parse_hop_tx sha256 w.coinbase_hex) _ h2 in
    let (one, h4) = >>-eq-ok (is_coinbase coinbase) _ _ h3 in
    let (cb, _, h5) = >>=-eq-ok (map_result display_to_internal w.coinbase_txid_branch) _ h4 in
    let (_, h6) = >>-eq-ok (length cb == height) _ _ h5 in
    let (cb_root, cb_folds, h7) =
      >>=-eq-ok (verify_merkle_branch sha256 coinbase.txid_le cb 0 (some tx_count)) _ h6 in
    let (cb_same, h8) = >>-eq-ok (bytes_equal cb_root header.merkle_root_le) _ _ h7 in
    let (o, searched, h9) = >>=-eq-ok (find_witness_commitment coinbase) _ h8 in
    let (commitment, present, h10) =
      >>=-eq-ok (or_throw o "coinbase has no BIP-141 witness commitment output") _ h9 in
    let (reserved, is_reserved, h11) = >>=-eq-ok (witness_reserved_value coinbase) _ h10 in
    let (wb, is_wb, h12) = >>=-eq-ok (map_result display_to_internal w.wtxid_branch) _ h11 in
    let (_, h13) = >>-eq-ok (length wb == height) _ _ h12 in
    let (_, h14) =
      >>-eq-ok (not ((pos == 1) && not (bytes_equal (get_or wb 0 []) zero32))) _ _ h13 in
    let (nonzero, h15) = >>-eq-ok (not (pos == 0)) _ _ h14 in
    let (root, folds, h16) =
      >>=-eq-ok (verify_merkle_branch sha256 reveal.wtxid_le wb pos (some tx_count)) _ h15 in
    let expected = compute_witness_commitment sha256 root reserved in
    let same : expected ≡ commitment =
      (bytes_equal_iff _ _).0 (require-eq-ok (bytes_equal expected commitment) _ h16) in
    let cb_is : cb_root ≡ header.merkle_root_le = (bytes_equal_iff _ _).0 cb_same in
    let holds : o ≡ some expected = or_throw-eq-ok o _ present ∙ ap some (sym same) in
    record {
      coinbase = coinbase;
      coinbase_is = is_it;
      is_one = one;
      txid_branch = cb;
      coinbase_folds = rw cb_is at cb_folds;
      wtxid_branch = wb;
      wtxid_branch_is = is_wb;
      not_first = pos_nonzero pos (not-true _ nonzero);
      root = root;
      reveal_folds = folds;
      reserved = reserved;
      reserved_is = is_reserved;
      commitment_is = searched ∙ ap ok holds;
    }
