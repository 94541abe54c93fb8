-- ===== src/Custody/Binding.antt =====
-- `verifyEnvelopeBinding` of packages/core/src/custody.ts.
use ordspv.Common.{
  ℕ, Bool, not, List, Result, ok, require, failure, relabel, or_throw, ◌>>=◌, ◌>>◌, ◌==◌, length,
  get_elem?,
}
use ordspv.Custody.Flow.{spent_output}
use ordspv.Envelope.Interpret.{Inscription}
use ordspv.Taproot.{
  Curve, extract_tapscript, is_p2tr, parse_control_block, verify_script_path_commitment,
}
use ordspv.Text.{trim}
use ordspv.Tx.Types.{ParsedTx}

pub record EnvelopeBinding : Type 0 where
  pub control_block_depth : ℕ
  pub single_leaf_tree : Bool
  pub single_input_reveal : Bool

module _ (sha256 : List ℕ → List ℕ) (curve : Curve) where
  unfoldable pub verify_envelope_binding :
      ParsedTx → Inscription → List (List ℕ) → Result EnvelopeBinding
  verify_envelope_binding reveal inscription prev_txs = do
    input ← or_throw (get_elem? reveal.inputs inscription.input) "envelope input out of range"
    prev_hex ← or_throw (get_elem? prev_txs inscription.input) "no prev tx for the envelope input"
    require (not (length (trim prev_hex) == 0)) (failure "no prev tx for the envelope input")
    spent ← spent_output sha256 input prev_hex
    tapscript ← or_throw (extract_tapscript input.witness) "key-path spend with no tapscript"
    require (is_p2tr spent.script_pub_key) (failure "envelope input spends a non-P2TR output")
    checked ← relabel "taproot commitment" (
        verify_script_path_commitment sha256 curve tapscript.script tapscript.control_block
          spent.script_pub_key)
    cb ← parse_control_block tapscript.control_block
    ok (record {
      control_block_depth = length cb.path;
      single_leaf_tree = length cb.path == 0;
      single_input_reveal = length reveal.inputs == 1;
    })
