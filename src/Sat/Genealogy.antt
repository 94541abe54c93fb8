-- ===== src/Sat/Genealogy.antt =====
-- `verifySatGenealogy` of packages/core/src/satnumber.ts. A bundle's fields have their types here,
-- so the tests of the JSON types have no counterpart.
use ordspv.Common.{
  ℕ, ◌+◌, ◌-◌, not, ◌&&◌, ◌||◌, List, [], ◌∷◌, Option, some, Result, ok, err, require, failure,
  custody_unsupported, coinbase_height_unproven, sat_step_limit, or_throw, ◌>>=◌, ◌>>◌, leb, ltb,
  ◌==◌, if◌then◌else◌, length, get_or, get_elem?,
}
use ordspv.Bytes.Hex.{bytes_equal}
use ordspv.Custody.Binding.{EnvelopeBinding}
use ordspv.Custody.Bundle.{
  CustodyHop, CustodyVerifyOptions, HeaderAttestation, nothing_said, hash_at_height,
  verify_anchored_hop,
}
use ordspv.Custody.Flow.{
  check_prev_tx_count, proven_input_values, total_output_sats, genesis_position,
}
use ordspv.Custody.Verify.{IndexProof, has_section, is_seen, verify_reveal, Revealed}
use ordspv.InscriptionId.{parse_inscription_id, check_expected_inscription_id}
use ordspv.Sat.Backward.{
  output_space_position, containing_input, coinbase_sat_at, bip34_height, bip34_enforced_from,
}
use ordspv.Sat.Numbers.{SatRarity, sat_name, sat_rarity}
use ordspv.Taproot.{Curve}
use ordspv.Text.{to_lower_case, is_canonical_decimal, decimal_value}
use ordspv.Tx.Types.{ParsedTx, is_coinbase}
use ordspv.Witness.{WitnessSection, parse_hop_tx}

pub record GenealogyStep : Type 0 where
  pub hex : List ℕ
  pub prev_txs : List (List ℕ)
  pub witness : Option WitnessSection

pub record GenealogyBundle : Type 0 where
  pub version : ℕ
  pub inscription_id : List ℕ
  pub reveal : CustodyHop
  pub funding : List GenealogyStep
  pub coinbase : CustodyHop
  pub claimed_sat : List ℕ

pub record VerifiedSatIdentity : Type 0 where
  pub inscription_id : List ℕ
  pub sat : ℕ
  pub name : List ℕ
  pub rarity : SatRarity
  pub coinbase_height : ℕ
  pub depth : ℕ
  pub reveal_position : ℕ
  pub binding : EnvelopeBinding
  pub index_proof : IndexProof

-- `expectTxid`, `expectVout` and `offset`: the sat's place in an output of the next transaction.
pub record Expected : Type 0 where
  pub txid : List ℕ
  pub vout : ℕ
  pub offset : ℕ

-- The funding outpoint of the input that carried the position in. `containing_input` answers an
-- index that the transaction has, so the missing input is never met.
unfoldable pub step_back : ParsedTx → List ℕ → ℕ → Result Expected
step_back tx values position = do
  place ← containing_input tx values position
  input ← or_throw (get_elem? tx.inputs place.input) "input out of range"
  ok (record { txid = input.prev_txid; vout = input.vout; offset = place.offset_in_funding })

-- The height is the coinbase's own from the boundary on, and the hook's word below it.
unfoldable pub check_height : ParsedTx → ℕ → HeaderAttestation → Result (Unit {0})
check_height coinbase height attestation =
    let pushed = do
      embedded ← or_throw (bip34_height coinbase) "coinbase lacks a parseable BIP34 height"
      require (embedded == height) (failure "BIP34 height contradicts claimed height")
    in let attested : Result (Unit {0}) = elim attestation [
      | hash_at_height ↦ ok tt
      | nothing_said ↦ err coinbase_height_unproven
    ] in
      if leb bip34_enforced_from height then pushed else attested

module _ (sha256 : List ℕ → List ℕ) where
  -- One round of the walk; the list holds the txids seen.
  unfoldable pub funding_step :
      Expected → List (List ℕ) → GenealogyStep → Result (Expected × List (List ℕ))
  funding_step expected seen step = do
    require (not (has_section step.witness))
        (failure "witness section is only accepted at the reveal")
    tx ← parse_hop_tx sha256 step.hex
    require (bytes_equal tx.txid expected.txid) (failure "funding hashes to another txid")
    require (not (is_seen tx.txid seen)) (failure "duplicate transaction in genealogy")
    require (not (is_coinbase tx)) (failure "coinbase must be the terminal element")
    pos ← output_space_position tx expected.vout expected.offset
    check_prev_tx_count tx step.prev_txs
    require (leb 1 (length step.prev_txs)) (failure "no prev txs provided")
    values ← proven_input_values sha256 tx step.prev_txs (length step.prev_txs - 1)
    next ← step_back tx values pos
    ok (next, tx.txid ∷ seen)

  unfoldable pub funding_loop : Expected → List (List ℕ) → List GenealogyStep → Result Expected
  funding_loop expected seen [] = ok expected
  funding_loop expected seen (step ∷ steps) = do
    (next, seen') ← funding_step expected seen step
    funding_loop next seen' steps

  -- The terminal coinbase, and the number of the sat at the place it is expected at.
  unfoldable pub verify_coinbase : Expected → CustodyHop → CustodyVerifyOptions → Result ℕ
  verify_coinbase expected hop opts = do
    require (not (has_section hop.witness))
        (failure "witness section is only accepted at the reveal")
    require (length hop.prev_txs == 0) (failure "coinbase: prev tx(s) supplied")
    coinbase ← parse_hop_tx sha256 hop.hex
    require (bytes_equal coinbase.txid expected.txid) (failure "coinbase hashes to another txid")
    require (is_coinbase coinbase) (failure "terminal transaction is not a coinbase")
    require (hop.pos == 0) (failure "coinbase must be at position 0")
    attestation ← verify_anchored_hop sha256 hop coinbase opts
    check_height coinbase hop.block.height attestation
    pos ← output_space_position coinbase expected.vout expected.offset
    coinbase_sat_at coinbase pos hop.block.height

  -- The start of the walk: the sat's place in the reveal, with the refusals of unbound and fee sats.
  unfoldable pub reveal_place : Revealed → CustodyHop → Result (ℕ × Expected)
  reveal_place r hop = do
    require (leb (r.inscription.input + 1) (length hop.prev_txs)) (failure "reveal needs prev txs")
    values ← proven_input_values sha256 r.reveal hop.prev_txs (length hop.prev_txs - 1)
    require (not (r.inscription.unbound_by_even_field || get_or values r.inscription.input 0 == 0))
        (custody_unsupported (some hop.block.height))
    let position = genesis_position r.reveal r.inscription values
    require (ltb position (total_output_sats r.reveal))
        (custody_unsupported (some hop.block.height))
    expected ← step_back r.reveal values position
    ok (position, expected)

  -- `max_steps` is 10,000 where the caller gives none.
  unfoldable pub verify_sat_genealogy :
      Curve
      → (List ℕ → List ℕ)
      → GenealogyBundle
      → CustodyVerifyOptions
      → ℕ
      → Result VerifiedSatIdentity
  verify_sat_genealogy curve decode_utf8 bundle opts max_steps = do
    require (bundle.version == 1) (failure "unsupported genealogy bundle version")
    id ← parse_inscription_id bundle.inscription_id
    check_expected_inscription_id id opts.expected_inscription_id
    require (leb (length bundle.funding) max_steps) sat_step_limit
    r ← verify_reveal sha256 curve decode_utf8 id bundle.reveal opts
    (position, expected) ← reveal_place r bundle.reveal
    last ← funding_loop expected (r.reveal.txid ∷ []) bundle.funding
    sat ← verify_coinbase last bundle.coinbase opts
    require (is_canonical_decimal bundle.claimed_sat && decimal_value bundle.claimed_sat == sat)
        (failure "bundle claims another sat than the genealogy folds to")
    name ← sat_name sat
    rarity ← sat_rarity sat
    ok (record {
      inscription_id = to_lower_case bundle.inscription_id;
      sat = sat;
      name = name;
      rarity = rarity;
      coinbase_height = bundle.coinbase.block.height;
      depth = length bundle.funding;
      reveal_position = position;
      binding = r.binding;
      index_proof = r.index_proof;
    })
