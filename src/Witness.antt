-- ===== src/Witness.antt =====
-- packages/core/src/witnesscommit.ts: the BIP-141 witness commitment.
pub mod Sound
pub mod Last
use ordspv.Common.{
  ℕ, ◌+◌, Bool, true, false, not, ◌&&◌, ◌||◌, List, [], ◌∷◌, ◌++◌, Option, none, some, Result, ok,
  err, throw, require, failure, ◌>>=◌, ◌>>◌, leb, ltb, ◌==◌, if◌then◌else◌, length, take, get_or,
  replicate, reverse, relabel, or_throw, map_result,
}
use ordspv.Bytes.Hex.{bytes_equal, hex_to_bytes, display_to_internal, all_hex}
use ordspv.Bytes.Reader.{slice}
use ordspv.Header.Parse.{BlockHeader}
use ordspv.Merkle.Tree.{tree_height, compute_merkle_root, verify_merkle_branch}
use ordspv.Text.{trim}
use ordspv.Tx.Hash.{sha256d}
use ordspv.Tx.Parse.{parse_tx}
use ordspv.Tx.Types.{TxInput, TxOutput, ParsedTx, is_coinbase}

abbrev pub commitment_header : List ℕ
commitment_header = 0x6a ∷ 0x24 ∷ 0xaa ∷ 0x21 ∷ 0xa9 ∷ 0xed ∷ []

abbrev pub zero32 : List ℕ
zero32 = replicate 32 0

unfoldable pub is_commitment : TxOutput → Bool
is_commitment out =
    leb 38 (length out.script_pub_key)
    && bytes_equal (slice out.script_pub_key 0 6) commitment_header

-- The loop from the last output down; the list stands in that order.
unfoldable pub last_commitment : List TxOutput → Option (List ℕ)
last_commitment [] = none
last_commitment (out ∷ below) =
    if is_commitment out then some (slice out.script_pub_key 6 32) else last_commitment below

unfoldable pub find_witness_commitment : ParsedTx → Result (Option (List ℕ))
find_witness_commitment coinbase = do
  require (is_coinbase coinbase) (failure "not a coinbase transaction")
  ok (last_commitment (reverse coinbase.outputs))

-- `coinbase.inputs[0]?.witness ?? []`
unfoldable pub first_witness : List TxInput → List (List ℕ)
first_witness [] = []
first_witness (i ∷ rest) = i.witness

unfoldable pub reserved_item : List (List ℕ) → Option (List ℕ)
reserved_item [] = none
reserved_item (w ∷ []) = if length w == 32 then some w else none
reserved_item (w ∷ v ∷ ws) = none

unfoldable pub witness_reserved_value : ParsedTx → Result (List ℕ)
unfolding first_witness reserved_item
witness_reserved_value coinbase =
    or_throw (reserved_item (first_witness coinbase.inputs))
      "coinbase witness must be exactly one 32-byte reserved value"

pub record WitnessSection : Type 0 where
  pub coinbase_hex : List ℕ
  pub coinbase_txid_branch : List (List ℕ)
  pub wtxid_branch : List (List ℕ)

unfoldable pub is_hex32 : List ℕ → Bool
is_hex32 s = (length s == 64) && all_hex s

unfoldable pub all_hex32 : List (List ℕ) → Bool
unfolding is_hex32
all_hex32 [] = true
all_hex32 (s ∷ rest) = is_hex32 s && all_hex32 rest

unfoldable pub check_witness_section_shape : WitnessSection → Result (Unit {0})
check_witness_section_shape w = do
  require (ltb 0 (length (trim w.coinbase_hex)) && all_hex (trim w.coinbase_hex))
      (failure "witness section: coinbaseHex must be a non-empty hex string")
  require (all_hex32 w.coinbase_txid_branch)
      (failure "witness section: coinbaseTxidBranch must be 32-byte hex strings")
  require (all_hex32 w.wtxid_branch)
      (failure "witness section: wtxidBranch must be 32-byte hex strings")

module _ (sha256 : List ℕ → List ℕ) where
  unfoldable pub compute_witness_commitment : List ℕ → List ℕ → List ℕ
  compute_witness_commitment witness_root reserved = sha256d sha256 (witness_root ++ reserved)

  -- The coinbase's leaf is 32 zero bytes.
  unfoldable pub compute_witness_root_from_wtxids : List (List ℕ) → Result (List ℕ)
  compute_witness_root_from_wtxids [] = throw "empty wtxid list"
  compute_witness_root_from_wtxids (w ∷ ws) = compute_merkle_root sha256 (zero32 ∷ ws)

  unfoldable pub verify_witness_commitment : ParsedTx → List ℕ → Result (Unit {0})
  verify_witness_commitment coinbase witness_root = do
    found ← find_witness_commitment coinbase
    commitment ← or_throw found "coinbase has no witness commitment output"
    reserved ← witness_reserved_value coinbase
    let expected = compute_witness_commitment witness_root reserved
    require (bytes_equal commitment expected) (failure "witness commitment mismatch")

  -- A transaction given in hex; the shape that reads as a tree node is refused.
  unfoldable pub parse_hex_tx : List ℕ → Result ParsedTx
  parse_hex_tx hex = do bytes ← hex_to_bytes (trim hex); parse_tx sha256 false 0 bytes

  unfoldable pub parse_hop_tx : List ℕ → Result ParsedTx
  parse_hop_tx hex = do
    tx ← relabel "cannot parse transaction" (parse_hex_tx hex)
    require (not (length tx.stripped_raw == 64)) (failure "64-byte transactions are rejected")
    ok tx

  unfoldable pub verify_witness_anchoring :
      WitnessSection → BlockHeader → ℕ → ParsedTx → ℕ → Result (Unit {0})
  verify_witness_anchoring witness header tx_count reveal pos = do
    check_witness_section_shape witness
    expected_height ← tree_height tx_count
    coinbase ← parse_hop_tx witness.coinbase_hex
    require (is_coinbase coinbase) (failure "claimed coinbase is not a coinbase transaction")
    cb_branch ← map_result display_to_internal witness.coinbase_txid_branch
    require (length cb_branch == expected_height) (failure "coinbase branch depth != tree height")
    cb_root ← verify_merkle_branch sha256 coinbase.txid_le cb_branch 0 (some tx_count)
    require (bytes_equal cb_root header.merkle_root_le)
        (failure "coinbase txid merkle proof does not match header merkle root")
    found ← find_witness_commitment coinbase
    commitment ← or_throw found "coinbase has no BIP-141 witness commitment output"
    reserved ← witness_reserved_value coinbase
    wtxid_branch ← map_result display_to_internal witness.wtxid_branch
    require (length wtxid_branch == expected_height) (failure "wtxid branch depth != tree height")
    require (not ((pos == 1) && not (bytes_equal (get_or wtxid_branch 0 []) zero32)))
        (failure "wtxid branch sibling at position 1 must be the zeroed coinbase leaf")
    require (not (pos == 0)) (failure "reveal tx cannot be the coinbase")
    witness_root ← verify_merkle_branch sha256 reveal.wtxid_le wtxid_branch pos (some tx_count)
    let expected = compute_witness_commitment witness_root reserved
    require (bytes_equal expected commitment) (
        failure
          "witness commitment mismatch: reveal witness is not the one committed in this block")
