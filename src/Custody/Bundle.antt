-- ===== src/Custody/Bundle.antt =====
-- Custody bundles and `verifyAnchoredHop` of packages/core/src/custody.ts. A bundle's fields have
-- their types here, so the tests of `checkHopShape` and of the JSON types have no counterpart.
use ordspv.Common.{
  ℕ, List, Option, none, some, Result, ok, require, failure, map_result, ◌>>=◌, ◌>>◌, leb, ◌==◌,
  length,
}
use ordspv.Bytes.Hex.{bytes_equal, hex_to_bytes, display_to_internal}
use ordspv.Header.Parse.{BlockHeader, PowLimit, parse_header, check_pow_limit, check_proof_of_work}
use ordspv.Merkle.Tree.{tree_height, verify_merkle_branch}
use ordspv.Text.{to_lower_case}
use ordspv.Tx.Types.{ParsedTx}
use ordspv.Witness.{WitnessSection}

pub record CustodyBlock : Type 0 where
  pub height : ℕ
  pub hash : List ℕ
  pub header : List ℕ
  pub tx_count : ℕ

pub record CustodyHop : Type 0 where
  pub block : CustodyBlock
  pub hex : List ℕ
  pub pos : ℕ
  pub txid_branch : List (List ℕ)
  pub prev_txs : List (List ℕ)
  pub witness : Option WitnessSection

pub record CustodyBundle : Type 0 where
  pub version : ℕ
  pub inscription_id : List ℕ
  pub hops : List CustodyHop
  pub final_satpoint : List ℕ

pub data HeaderAttestation : Type 0 where
  nothing_said hash_at_height : HeaderAttestation

-- The caller's hook may throw.
pub record CustodyVerifyOptions : Type 0 where
  pub trust_header : Option (BlockHeader → ℕ → Result HeaderAttestation)
  pub pow_limit_bits : PowLimit
  pub expected_inscription_id : Option (List ℕ)

-- `opts.trustHeader?.(header, height)`
unfoldable pub ask_trust :
    Option (BlockHeader → ℕ → Result HeaderAttestation) → BlockHeader → ℕ → Result HeaderAttestation
ask_trust none header height = ok nothing_said
ask_trust (some hook) header height = hook header height

module _ (sha256 : List ℕ → List ℕ) where
  unfoldable pub parse_header_hex : List ℕ → Result BlockHeader
  parse_header_hex hex = do bytes ← hex_to_bytes hex; parse_header sha256 bytes

  -- The header part: hash, proof-of-work floor, proof of work, count, and the caller's hook.
  unfoldable pub anchor_header :
      CustodyBlock → CustodyVerifyOptions → Result (BlockHeader × HeaderAttestation)
  anchor_header block opts = do
    header ← parse_header_hex block.header
    require (bytes_equal header.hash (to_lower_case block.hash))
        (failure "header hashes to another hash than the bundle claims")
    check_pow_limit header opts.pow_limit_bits
    enough ← check_proof_of_work header
    require enough (failure "header fails proof of work")
    require (leb 1 block.tx_count) (failure "missing valid txCount")
    attestation ← ask_trust opts.trust_header header block.height
    ok (header, attestation)

  -- The inclusion part: a branch of the tree's height that folds to the header's root.
  unfoldable pub anchor_tx : BlockHeader → ℕ → ParsedTx → List (List ℕ) → ℕ → Result (Unit {0})
  anchor_tx header tx_count tx txid_branch pos = do
    branch ← map_result display_to_internal txid_branch
    expected ← tree_height tx_count
    require (length branch == expected) (failure "txid branch depth != tree height")
    root ← verify_merkle_branch sha256 tx.txid_le branch pos (some tx_count)
    require (bytes_equal root header.merkle_root_le)
        (failure "txid merkle proof does not match header merkle root")

  unfoldable pub verify_anchored_hop :
      CustodyHop → ParsedTx → CustodyVerifyOptions → Result HeaderAttestation
  verify_anchored_hop hop tx opts = do
    (header, attestation) ← anchor_header hop.block opts
    anchor_tx header hop.block.tx_count tx hop.txid_branch hop.pos
    ok attestation
