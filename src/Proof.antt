-- ===== src/Proof.antt =====
-- `verifyProofBundle` of packages/core/src/proof.ts. A bundle's fields have their types here, so the
-- tests of the JSON types have no counterpart; its options are those of a custody bundle.
pub mod Assured
pub mod Sound
use ordspv.Common.{
  ℕ, Bool, true, false, not, ◌&&◌, List, [], ◌∷◌, Option, none, some, Result, ok, err, throw,
  require, failure, envelope_index_unproven, or_throw, ◌>>=◌, ◌>>◌, leb, ltb, ◌==◌, if◌then◌else◌,
  length, get_elem?, Error,
}
use ordspv.Bytes.Hex.{bytes_equal}
use ordspv.Custody.Bundle.{CustodyBlock, CustodyVerifyOptions, anchor_header, anchor_tx}
use ordspv.Custody.Verify.{find_index, inscriptions_from_tx}
use ordspv.Envelope.Interpret.{Inscription}
use ordspv.Header.Parse.{BlockHeader}
use ordspv.InscriptionId.{parse_inscription_id, check_expected_inscription_id}
use ordspv.Taproot.{Curve, extract_tapscript, parse_control_block, verify_script_path_commitment}
use ordspv.Text.{to_lower_case}
use ordspv.Tx.Types.{TxInput, ParsedTx}
use ordspv.Witness.{WitnessSection, parse_hop_tx, verify_witness_anchoring}

-- An unknown level is a string that is neither.
pub data Level : Type 0 where
  l2 l3 unknown_level : Level

pub record ProofBundle : Type 0 where
  pub version : ℕ
  pub inscription_id : List ℕ
  pub level : Level
  pub block : CustodyBlock
  pub hex : List ℕ
  pub pos : ℕ
  pub txid_branch : List (List ℕ)
  pub commit : Option (List ℕ)
  pub witness : Option WitnessSection

pub record Assurances : Type 0 where
  pub control_block_depth : ℕ
  pub single_leaf_tree : Bool
  pub single_input_reveal : Bool

pub record VerifiedInscription : Type 0 where
  pub level : Level
  pub inscription_id : List ℕ
  pub inscription : Inscription
  pub all_inscriptions : List Inscription
  pub header : BlockHeader
  pub height : ℕ
  pub reveal_tx : ParsedTx
  pub assurances : Option Assurances

-- The refusal of a failed lookup.
unfoldable pub lookup_error : Level → ParsedTx → Error
lookup_error l2 reveal =
    if length reveal.inputs == 1 then failure "index not present" else envelope_index_unproven
lookup_error l3 reveal = failure "index not present"
lookup_error unknown_level reveal = failure "index not present"

unfoldable pub lookup : Level → ParsedTx → Option Inscription → Result Inscription
unfolding lookup_error
lookup level reveal (some i) = ok i
lookup level reveal none = err (lookup_error level reveal)

module _ (sha256 : List ℕ → List ℕ) where
  unfoldable pub check_level_section :
      Level → Option WitnessSection → BlockHeader → ℕ → ParsedTx → ℕ → Result (Unit {0})
  check_level_section l2 none header tx_count reveal pos = ok tt
  check_level_section l2 (some w) header tx_count reveal pos =
      throw "witness section on an L2 bundle"
  check_level_section l3 none header tx_count reveal pos = throw "L3 bundle missing witness section"
  check_level_section l3 (some w) header tx_count reveal pos =
      verify_witness_anchoring sha256 w header tx_count reveal pos
  check_level_section unknown_level w header tx_count reveal pos = throw "unknown proof level"

  module _ (curve : Curve) where
    -- The commit transaction's output commits to the tapscript of the envelope's input.
    unfoldable pub check_commit : ParsedTx → Inscription → Option (List ℕ) → Result Assurances
    check_commit reveal inscription commit_hex = do
      hex ← or_throw commit_hex "L2 bundle missing commit tx"
      commit ← parse_hop_tx sha256 hex
      input ← or_throw (get_elem? reveal.inputs inscription.input) "input out of range"
      require (bytes_equal commit.txid input.prev_txid) (failure "commit tx hashes to another txid")
      spent ← or_throw (get_elem? commit.outputs input.vout) "commit tx has no such output"
      tapscript ← or_throw (extract_tapscript input.witness) "witness is not a script-path spend"
      checked ←
          verify_script_path_commitment sha256 curve tapscript.script tapscript.control_block
            spent.script_pub_key
      cb ← parse_control_block tapscript.control_block
      ok (record {
        control_block_depth = length cb.path;
        single_leaf_tree = length cb.path == 0;
        single_input_reveal = length reveal.inputs == 1;
      })

    unfoldable pub check_level_commit :
        Level → ParsedTx → Inscription → Option (List ℕ) → Result (Option Assurances)
    check_level_commit l2 reveal inscription commit_hex = do
      a ← check_commit reveal inscription commit_hex
      ok (some a)
    check_level_commit l3 reveal inscription commit_hex = ok none
    check_level_commit unknown_level reveal inscription commit_hex = ok none

    unfoldable pub verify_proof_bundle :
        (List ℕ → List ℕ) → ProofBundle → CustodyVerifyOptions → Result VerifiedInscription
    verify_proof_bundle decode_utf8 bundle opts = do
      require (bundle.version == 1) (failure "unsupported proof bundle version")
      id ← parse_inscription_id bundle.inscription_id
      check_expected_inscription_id id opts.expected_inscription_id
      (header, attestation) ← anchor_header sha256 bundle.block opts
      reveal ← parse_hop_tx sha256 bundle.hex
      require (bytes_equal reveal.txid id.txid)
          (failure "reveal tx hashes to another txid than the id")
      anchor_tx sha256 header bundle.block.tx_count reveal bundle.txid_branch bundle.pos
      check_level_section bundle.level bundle.witness header bundle.block.tx_count reveal bundle.pos
      let all = inscriptions_from_tx decode_utf8 reveal
      inscription ← lookup bundle.level reveal (find_index id.index all)
      assurances ← check_level_commit bundle.level reveal inscription bundle.commit
      ok (record {
        level = bundle.level;
        inscription_id = to_lower_case bundle.inscription_id;
        inscription = inscription;
        all_inscriptions = all;
        header = header;
        height = bundle.block.height;
        reveal_tx = reveal;
        assurances = assurances;
      })
