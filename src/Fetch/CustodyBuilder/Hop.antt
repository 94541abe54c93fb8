-- ===== src/Fetch/CustodyBuilder/Hop.antt =====
-- `checkHopAnswers` and `assembleAnchoredHop` of packages/fetch/src/custodybuilder.ts.
use ordspv.Common.{
  ℕ, zero, suc, ◌+◌, Bool, true, not, List, [], ◌∷◌, Option, none, some, String, custody_build,
  hop_consistency, Result, ok, err, throw, require, or_throw, map_result, ◌>>=◌, ◌>>◌, leb, ◌==◌,
  length,
}
use ordspv.Bytes.Hex.{bytes_equal, display_to_internal}
use ordspv.Custody.Bundle.{CustodyHop, parse_header_hex}
use ordspv.Fetch.HeaderSync.{non_empty}
use ordspv.Header.Parse.{BlockHeader, PowLimit, check_pow_limit, check_proof_of_work}
use ordspv.Merkle.Tree.{verify_merkle_branch}
use ordspv.Text.{trim, to_lower_case}
use ordspv.Tx.Types.{ParsedTx, TxInput}
use ordspv.Fetch.CustodyBuilder.Types.{MerkleProof, BlockInfoAnswer, AnchorBackend}

-- `try { ... } catch (e) { throw new HopConsistencyError(...) }`
unfoldable pub as_inconsistent {ℓ} : {A : Type ℓ} → String → Result A → Result A
as_inconsistent message (ok a) = ok a
as_inconsistent message (err e) = err (hop_consistency message)

-- An answer that is there must pass the test.
unfoldable pub agrees {ℓ} : {A : Type ℓ} → (A → Bool) → Option A → Bool
agrees test none = true
agrees test (some a) = test a

unfoldable pub check_tx_not_ambiguous : ParsedTx → Result (Unit {0})
check_tx_not_ambiguous tx =
    require (not (length tx.stripped_raw == 64)) (hop_consistency "64-byte stripped serialization")

module _ (sha256 : List ℕ → List ℕ) where
  unfoldable pub check_merkle_root : Option (List ℕ) → BlockHeader → Result (Unit {0})
  unfolding as_inconsistent
  check_merkle_root none header = ok tt
  check_merkle_root (some root) header = do
    served ←
        as_inconsistent "block info carries an unreadable merkle root" (display_to_internal root)
    require (bytes_equal served header.merkle_root_le)
        (hop_consistency "block info says another merkle root")

  unfoldable pub check_hop_answers :
      ParsedTx → List ℕ → ℕ → MerkleProof → List ℕ → BlockInfoAnswer → PowLimit → Result (Unit {0})
  unfolding agrees as_inconsistent
  check_hop_answers tx block_hash block_height proof header_hex info limit = do
    header ← as_inconsistent "header does not parse" (parse_header_hex sha256 (trim header_hex))
    require (bytes_equal header.hash (to_lower_case block_hash))
        (hop_consistency "served another header")
    as_inconsistent "header is below the proof-of-work floor" (check_pow_limit header limit)
    enough ← check_proof_of_work header
    require enough (hop_consistency "header fails the target it states itself")
    require (leb 1 info.tx_count) (hop_consistency "block has no valid transaction count")
    require (proof.block_height == block_height)
        (hop_consistency "merkle proof says another height")
    require (agrees (λ id. bytes_equal (to_lower_case id) (to_lower_case block_hash)) info.id)
        (hop_consistency "block info identifies itself as another block")
    require (agrees (λ height. height == block_height) info.height)
        (hop_consistency "block info says another height")
    check_merkle_root info.merkle_root header
    root ← as_inconsistent "merkle proof does not fold" (do
      branch ← map_result display_to_internal proof.merkle
      verify_merkle_branch sha256 tx.txid_le branch proof.pos (some info.tx_count))
    require (bytes_equal root header.merkle_root_le)
        (hop_consistency "merkle proof folds to another root")

  -- `for (let i = 0; i <= prevTxsUpTo; i++)` over the first `n` inputs.
  unfoldable pub fetch_prev_txs : AnchorBackend → ℕ → ℕ → List TxInput → Result (List (List ℕ))
  fetch_prev_txs backend h zero inputs = ok []
  fetch_prev_txs backend h (suc n) [] = throw "undefined"
  fetch_prev_txs backend h (suc n) (i ∷ inputs) = do
    hex ← backend.get_tx_hex h i.prev_txid
    rest ← fetch_prev_txs backend h n inputs
    ok (trim hex ∷ rest)

  unfoldable pub assemble_anchored_hop :
      AnchorBackend → ℕ → ParsedTx → List ℕ → ℕ → PowLimit → Result CustodyHop
  assemble_anchored_hop backend h tx hex prev_txs_up_to limit = do
    status ← backend.get_tx_status h tx.txid
    require status.confirmed (custody_build "not confirmed")
    block_hash ← or_throw (non_empty status.block_hash) "not confirmed"
    block_height ← or_throw status.block_height "not confirmed"
    proof ← backend.get_merkle_proof h tx.txid
    header_hex ← backend.get_header_hex h block_hash
    info ← backend.get_block_info h block_hash
    check_hop_answers tx block_hash block_height proof header_hex info limit
    prev_txs ← fetch_prev_txs backend h (prev_txs_up_to + 1) tx.inputs
    ok (record {
      block = record {
        height = block_height;
        hash = block_hash;
        header = trim header_hex;
        tx_count = info.tx_count;
      };
      hex = trim hex;
      pos = proof.pos;
      txid_branch = proof.merkle;
      prev_txs = prev_txs;
      witness = none;
    })
