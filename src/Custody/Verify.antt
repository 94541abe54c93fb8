-- ===== src/Custody/Verify.antt =====
-- `verifyCustodyBundle` of packages/core/src/custody.ts.
use ordspv.Common.{
  ℕ, Bool, true, false, not, ◌&&◌, ◌||◌, List, [], ◌∷◌, Option, none, some, Result, ok, throw,
  require, failure, custody_unsupported, envelope_index_unproven, map, or_throw, ◌>>=◌, ◌>>◌, leb,
  ltb, ◌==◌, length, get_or, if◌then◌else◌,
}
use ordspv.Bytes.Hex.{bytes_equal}
use ordspv.Custody.Binding.{EnvelopeBinding, verify_envelope_binding}
use ordspv.Custody.Bundle.{
  CustodyHop, CustodyBundle, CustodyVerifyOptions, verify_anchored_hop, parse_header_hex,
}
use ordspv.Custody.Flow.{
  check_prev_tx_count, find_spend, proven_input_values, genesis_satpoint, transfer_satpoint,
}
use ordspv.Custody.Satpoint.{Satpoint, parse_satpoint}
use ordspv.Envelope.Interpret.{Inscription, interpret_envelope}
use ordspv.Envelope.Number.{parse_envelopes_from_tx}
use ordspv.InscriptionId.{InscriptionId, parse_inscription_id, check_expected_inscription_id}
use ordspv.Taproot.{Curve}
use ordspv.Text.{to_lower_case}
use ordspv.Tx.Types.{ParsedTx, is_coinbase}
use ordspv.Witness.{WitnessSection, parse_hop_tx, verify_witness_anchoring}

pub data IndexProof : Type 0 where
  by_wtxid by_single_input : IndexProof

pub record VerifiedCustody : Type 0 where
  pub inscription_id : List ℕ
  pub satpoint : Satpoint
  pub genesis : Satpoint
  pub path : List Satpoint
  pub height : ℕ
  pub hops : ℕ
  pub binding : EnvelopeBinding
  pub index_proof : IndexProof

-- What the reveal hop establishes.
pub record Revealed : Type 0 where
  pub reveal : ParsedTx
  pub inscription : Inscription
  pub binding : EnvelopeBinding
  pub index_proof : IndexProof

-- `all.find((i) => i.index === index)`
unfoldable pub find_index : ℕ → List Inscription → Option Inscription
find_index index [] = none
find_index index (i ∷ rest) = if i.index == index then some i else find_index index rest

module _ (decode_utf8 : List ℕ → List ℕ) where
  unfoldable pub inscriptions_from_tx : ParsedTx → List Inscription
  inscriptions_from_tx tx = map (interpret_envelope decode_utf8) (parse_envelopes_from_tx tx)

unfoldable pub proof_kind : Option WitnessSection → IndexProof
proof_kind (some w) = by_wtxid
proof_kind none = by_single_input

unfoldable pub index_proven : Option WitnessSection → ParsedTx → Bool
index_proven (some w) reveal = true
index_proven none reveal = length reveal.inputs == 1

unfoldable pub has_section : Option WitnessSection → Bool
has_section (some w) = true
has_section none = false

-- What the loop over the later hops carries: `current`, `prevHeight`, `prevPos` and `seenTxids`.
pub record Walk : Type 0 where
  pub current : Satpoint
  pub prev_height : ℕ
  pub prev_pos : ℕ
  pub seen_txids : List (List ℕ)

unfoldable pub is_seen : List ℕ → List (List ℕ) → Bool
is_seen txid [] = false
is_seen txid (t ∷ rest) = bytes_equal t txid || is_seen txid rest

-- Chain order: a higher block, or a later place in the same block.
unfoldable pub comes_after : ℕ → ℕ → ℕ → ℕ → Bool
comes_after prev_height prev_pos height pos =
    not (ltb height prev_height || (height == prev_height && leb pos prev_pos))

unfoldable pub same_satpoint : Satpoint → Satpoint → Bool
same_satpoint a b = bytes_equal a.txid b.txid && (a.vout == b.vout && a.offset == b.offset)

module _ (sha256 : List ℕ → List ℕ) where
  unfoldable pub check_section : Option WitnessSection → CustodyHop → ParsedTx → Result (Unit {0})
  check_section none hop reveal = ok tt
  check_section (some w) hop reveal = do
    header ← parse_header_hex sha256 hop.block.header
    verify_witness_anchoring sha256 w header hop.block.tx_count reveal hop.pos

  -- One round of the loop.
  unfoldable pub walk_hop : CustodyVerifyOptions → Walk → CustodyHop → Result Walk
  walk_hop opts walk hop = do
    require (not (has_section hop.witness))
        (failure "witness section is only accepted at the reveal")
    tx ← parse_hop_tx sha256 hop.hex
    require (not (is_seen tx.txid walk.seen_txids)) (failure "duplicate transaction")
    require (not (is_coinbase tx)) (custody_unsupported (some hop.block.height))
    require (comes_after walk.prev_height walk.prev_pos hop.block.height hop.pos)
        (failure "does not come after the hop before in chain order")
    attestation ← verify_anchored_hop sha256 hop tx opts
    j ← or_throw (find_spend walk.current tx.inputs) "transaction does not spend tracked satpoint"
    check_prev_tx_count tx hop.prev_txs
    values ← proven_input_values sha256 tx hop.prev_txs j
    require (ltb walk.current.offset (get_or values j 0))
        (failure "tracked offset outside spent output value")
    current ← transfer_satpoint tx values walk.current (some hop.block.height)
    ok (record {
      current = current;
      prev_height = hop.block.height;
      prev_pos = hop.pos;
      seen_txids = tx.txid ∷ walk.seen_txids;
    })

  -- The states after each hop, in order.
  unfoldable pub walk_loop : CustodyVerifyOptions → Walk → List CustodyHop → Result (List Walk)
  walk_loop opts walk [] = ok []
  walk_loop opts walk (hop ∷ hops) = do
    next ← walk_hop opts walk hop
    rest ← walk_loop opts next hops
    ok (next ∷ rest)

module _ (sha256 : List ℕ → List ℕ) (curve : Curve) (decode_utf8 : List ℕ → List ℕ) where
  -- From the transaction to the binding of the envelope that the id names.
  unfoldable pub verify_reveal : InscriptionId → CustodyHop → CustodyVerifyOptions → Result Revealed
  verify_reveal id hop opts = do
    reveal ← parse_hop_tx sha256 hop.hex
    require (bytes_equal reveal.txid id.txid)
        (failure "reveal tx hashes to another txid than the id")
    attestation ← verify_anchored_hop sha256 hop reveal opts
    check_section sha256 hop.witness hop reveal
    require (index_proven hop.witness reveal) envelope_index_unproven
    inscription ←
        or_throw (find_index id.index (inscriptions_from_tx decode_utf8 reveal)) "index not present"
    check_prev_tx_count reveal hop.prev_txs
    binding ← verify_envelope_binding sha256 curve reveal inscription hop.prev_txs
    ok (record {
      reveal = reveal;
      inscription = inscription;
      binding = binding;
      index_proof = proof_kind hop.witness;
    })

unfoldable pub last_walk : Walk → List Walk → Walk
last_walk walk [] = walk
last_walk walk (w ∷ ws) = last_walk w ws

module _ (sha256 : List ℕ → List ℕ) (curve : Curve) (decode_utf8 : List ℕ → List ℕ) where
  unfoldable pub verify_hops :
      CustodyBundle
      → InscriptionId
      → List CustodyHop
      → CustodyVerifyOptions
      → Result VerifiedCustody
  verify_hops bundle id [] opts = throw "custody bundle has no hops"
  verify_hops bundle id (reveal_hop ∷ hops) opts = do
    r ← verify_reveal sha256 curve decode_utf8 id reveal_hop opts
    values ← proven_input_values sha256 r.reveal reveal_hop.prev_txs r.inscription.input
    genesis ← genesis_satpoint r.reveal r.inscription values (some reveal_hop.block.height)
    let start : Walk = record {
      current = genesis;
      prev_height = reveal_hop.block.height;
      prev_pos = reveal_hop.pos;
      seen_txids = r.reveal.txid ∷ [];
    }
    walks ← walk_loop sha256 opts start hops
    let last = last_walk start walks
    claimed ← parse_satpoint bundle.final_satpoint
    require (same_satpoint claimed last.current) (failure "bundle claims another final satpoint")
    ok (record {
      inscription_id = to_lower_case bundle.inscription_id;
      satpoint = last.current;
      genesis = genesis;
      path = genesis ∷ map (λ w. w.current) walks;
      height = last.prev_height;
      hops = length bundle.hops;
      binding = r.binding;
      index_proof = r.index_proof;
    })

  unfoldable pub verify_custody_bundle :
      CustodyBundle → CustodyVerifyOptions → Result VerifiedCustody
  verify_custody_bundle bundle opts = do
    require (bundle.version == 1) (failure "unsupported custody bundle version")
    id ← parse_inscription_id bundle.inscription_id
    check_expected_inscription_id id opts.expected_inscription_id
    verify_hops bundle id bundle.hops opts
