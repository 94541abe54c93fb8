-- ===== src/Tests/Bundles.antt =====
-- Accepted bundles, and the theorems on bundles at them.
use ordspv.Common.{Bool, true, false, [], ◌∷◌, ◌++◌, none, some, Result, ok, err, ◌≡◌, refl}
use ordspv.Custody.Bundle.{
  CustodyBlock, CustodyHop, CustodyBundle, CustodyVerifyOptions, HeaderAttestation, hash_at_height,
  nothing_said,
}
use ordspv.Header.Parse.{BlockHeader}
use ordspv.Custody.Bundle.{verify_anchored_hop}
use ordspv.Custody.Path.{IsProvenPath, verify_custody_bundle-path}
use ordspv.Sat.Identity.{IsProvenIdentity, verify_sat_genealogy-place}
use ordspv.Witness.Sound.{Committed, verify_witness_anchoring-Committed}
use ordspv.Common.Int.{pos}
use ordspv.Proof.Sound.{ProvenInscription, verify_proof_bundle-Proven}
use ordspv.Custody.Verify.{VerifiedCustody, verify_custody_bundle}
use ordspv.Header.Parse.{PowLimit, of_mainnet}
use ordspv.Bytes.Hex.{bytes_to_hex}
use ordspv.Proof.{ProofBundle, VerifiedInscription, l2, verify_proof_bundle}
use ordspv.Sat.Genealogy.{GenealogyBundle, VerifiedSatIdentity, verify_sat_genealogy}
use ordspv.Tx.Types.{ParsedTx}
use ordspv.Witness.{WitnessSection, parse_hop_tx, verify_witness_anchoring}
use ordspv.Tests.Toy.{
  sum_hash, commit_coinbase_raw, byte_hex, zero_hash, point_curve, as_is, zeros, zero_txid,
  reveal_hex, coinbase_hex, header_hex, reveal_id,
}

abbrev block0 : CustodyBlock
block0 = record { height = 0; hash = zero_txid; header = header_hex; tx_count = 1 }

abbrev reveal_hop : CustodyHop
reveal_hop = record {
  block = block0;
  hex = reveal_hex;
  pos = 0;
  txid_branch = [];
  prev_txs = coinbase_hex ∷ [];
  witness = none;
}

abbrev options : CustodyVerifyOptions
options = record {
  trust_header = some (λ header height. ok hash_at_height);
  pow_limit_bits = of_mainnet;
  expected_inscription_id = some reveal_id;
}

abbrev custody_bundle : CustodyBundle
custody_bundle = record {
  version = 1;
  inscription_id = reveal_id;
  hops = reveal_hop ∷ [];
  final_satpoint = zero_txid ++ (b':' ∷ b'0' ∷ b':' ∷ b'0' ∷ []);
}

abbrev proof_bundle : ProofBundle
proof_bundle = record {
  version = 1;
  inscription_id = reveal_id;
  level = l2;
  block = block0;
  hex = reveal_hex;
  pos = 0;
  txid_branch = [];
  commit = some coinbase_hex;
  witness = none;
}

abbrev coinbase_hop : CustodyHop
coinbase_hop = record {
  block = block0;
  hex = coinbase_hex;
  pos = 0;
  txid_branch = [];
  prev_txs = [];
  witness = none;
}

abbrev genealogy_bundle : GenealogyBundle
genealogy_bundle = record {
  version = 1;
  inscription_id = reveal_id;
  reveal = reveal_hop;
  funding = [];
  coinbase = coinbase_hop;
  claimed_sat = b'0' ∷ [];
}

abbrev section : WitnessSection
section = record {
  coinbase_hex = bytes_to_hex commit_coinbase_raw;
  coinbase_txid_branch = byte_hex 1 ∷ [];
  wtxid_branch = byte_hex 0 ∷ [];
}

abbrev anchor_header : BlockHeader
anchor_header = record {
  version = pos 1;
  prev_block_le = zeros 32;
  prev_block = zero_txid;
  merkle_root_le = 28 ∷ zeros 31;
  merkle_root = zero_txid;
  time = 0;
  bits = 0;
  nonce = 0;
  raw = [];
  hash_le = zeros 32;
  hash = zero_txid;
}

abbrev anchor_reveal : ParsedTx
anchor_reveal = record {
  body = record { version = pos 1; inputs = []; outputs = []; locktime = 0 };
  has_witness = true;
  raw = [];
  stripped_raw = [];
  txid_le = zeros 32;
  txid = zero_txid;
  wtxid_le = 7 ∷ zeros 31;
  wtxid = zero_txid;
  size = 0;
}

abbrev is_ok {ℓ} : {A : Type ℓ} → Result A → Bool
is_ok (ok a) = true
is_ok (err e) = false

value_of {ℓ} : {A : Type ℓ} (r : Result A) → is_ok r ≡ true → (a : A) × (r ≡ ok a)
value_of (ok a) h = (a, refl)
value_of (err e) h = cc

-- The bundles are accepted.
accepted :
    (is_ok (verify_custody_bundle zero_hash point_curve as_is custody_bundle options) ≡ true)
    × (is_ok (verify_proof_bundle zero_hash point_curve as_is proof_bundle options) ≡ true)
    × (is_ok (verify_sat_genealogy zero_hash point_curve as_is genealogy_bundle options 10) ≡ true)
    × (verify_witness_anchoring sum_hash section anchor_header 2 anchor_reveal 1 ≡ ok tt)
    × (is_ok (verify_anchored_hop zero_hash reveal_hop anchor_reveal options) ≡ true)
unfolding ordspv.Bytes.Hex.is_hex_char ordspv.Bytes.Hex.all_hex ordspv.Bytes.Hex.hex_value
    ordspv.Bytes.Hex.hex_pairs ordspv.Bytes.Hex.hex_to_bytes ordspv.Bytes.Hex.hex_char
    ordspv.Bytes.Hex.bytes_to_hex ordspv.Bytes.Hex.display_to_internal
    ordspv.Bytes.Hex.internal_to_display ordspv.Bytes.Hex.same_bytes ordspv.Bytes.Hex.bytes_equal
    ordspv.Bytes.Hex.concat_bytes ordspv.Bytes.Order.le_bytes_to_big_int
    ordspv.Bytes.Order.be_bytes_to_big_int ordspv.Bytes.Order.to_le ordspv.Bytes.Order.to_int32
    ordspv.Bytes.Order.of_int32 ordspv.Bytes.Reader.remaining ordspv.Bytes.Reader.need
    ordspv.Bytes.Reader.read_bytes ordspv.Bytes.Reader.read_u8 ordspv.Bytes.Reader.peek_u8
    ordspv.Bytes.Reader.read_u16le ordspv.Bytes.Reader.read_u32le ordspv.Bytes.Reader.read_i32le
    ordspv.Bytes.Reader.read_u64le ordspv.Bytes.Reader.skip ordspv.Bytes.Reader.read_var_int_from
    ordspv.Bytes.Reader.read_var_int ordspv.Bytes.Reader.read_var_int_num
    ordspv.Bytes.Reader.read_many ordspv.Bytes.Writer.write_bytes ordspv.Bytes.Writer.write_u8
    ordspv.Bytes.Writer.write_u32le ordspv.Bytes.Writer.write_i32le ordspv.Bytes.Writer.write_u64le
    ordspv.Bytes.Writer.write_var_int ordspv.Bytes.Writer.to_bytes ordspv.Bytes.Writer.var_int
    ordspv.Tx.Hash.sha256d ordspv.Tx.Hash.tagged_hash ordspv.Tx.Types.has_items
    ordspv.Tx.Types.some_witness ordspv.Tx.Types.all_zero ordspv.Tx.Types.is_null_outpoint
    ordspv.Tx.Types.is_coinbase_of ordspv.Tx.Types.is_coinbase ordspv.Tx.Serialize.write_input
    ordspv.Tx.Serialize.write_output ordspv.Tx.Serialize.write_item ordspv.Tx.Serialize.write_each
    ordspv.Tx.Serialize.write_witness ordspv.Tx.Serialize.write_in_out
    ordspv.Tx.Serialize.serialize_stripped ordspv.Tx.Serialize.serialize_full
    ordspv.Tx.Parse.read_input ordspv.Tx.Parse.read_output ordspv.Tx.Parse.read_item
    ordspv.Tx.Parse.read_witnesses ordspv.Tx.Parse.read_flag ordspv.Tx.Parse.read_marker
    ordspv.Tx.Parse.read_stacks ordspv.Tx.Parse.read_tx ordspv.Tx.Parse.finish_tx
    ordspv.Tx.Parse.parse_tx ordspv.Merkle.Tree.height_loop ordspv.Merkle.Tree.tree_height
    ordspv.Merkle.Tree.sibling_index ordspv.Merkle.Tree.sibling ordspv.Merkle.Tree.check_width
    ordspv.Merkle.Tree.check_level ordspv.Merkle.Tree.check_count ordspv.Merkle.Tree.hash_pair
    ordspv.Merkle.Tree.next_level ordspv.Merkle.Tree.root_loop
    ordspv.Merkle.Tree.compute_merkle_root ordspv.Merkle.Tree.plain_level
    ordspv.Merkle.Tree.branch_loop ordspv.Merkle.Tree.build_merkle_branch
    ordspv.Merkle.Tree.fold_branch ordspv.Merkle.Tree.verify_merkle_branch ordspv.Text.lower_char
    ordspv.Text.to_lower_case ordspv.Text.is_digit ordspv.Text.all_digits ordspv.Text.is_decimal
    ordspv.Text.is_canonical_decimal ordspv.Text.decimal_value ordspv.Text.decimal_loop
    ordspv.Text.to_decimal ordspv.Text.is_space ordspv.Text.trim_start ordspv.Text.trim
    ordspv.InscriptionId.is_lower_hex ordspv.InscriptionId.all_lower_hex
    ordspv.InscriptionId.matches_id ordspv.InscriptionId.rejection_for
    ordspv.InscriptionId.message_for ordspv.InscriptionId.parse_normalized
    ordspv.InscriptionId.parse_inscription_id ordspv.InscriptionId.format_inscription_id
    ordspv.InscriptionId.is_accepted ordspv.InscriptionId.is_inscription_id
    ordspv.InscriptionId.message_of ordspv.InscriptionId.inscription_id_error
    ordspv.InscriptionId.has_inscription_id_shape ordspv.InscriptionId.parse_expected
    ordspv.InscriptionId.check_expected_inscription_id ordspv.Script.Parse.at
    ordspv.Script.Parse.take_push ordspv.Script.Parse.push_at ordspv.Script.Parse.pushdata1_at
    ordspv.Script.Parse.pushdata2_at ordspv.Script.Parse.pushdata4_at
    ordspv.Script.Parse.instruction_at ordspv.Script.Parse.script_loop
    ordspv.Script.Parse.parse_script ordspv.Taproot.path_nodes ordspv.Taproot.parse_control_block
    ordspv.Taproot.must_swap ordspv.Taproot.is_p2tr ordspv.Taproot.is_annex ordspv.Taproot.last_two
    ordspv.Taproot.from_top ordspv.Taproot.extract_tapscript ordspv.Taproot.tap_leaf_hash
    ordspv.Taproot.tap_branch ordspv.Taproot.tap_merkle_root ordspv.Taproot.lift_x
    ordspv.Taproot.verify_script_path_commitment ordspv.Envelope.Scan.is_empty_payload
    ordspv.Envelope.Scan.is_empty_push ordspv.Envelope.Scan.is_ord_payload
    ordspv.Envelope.Scan.is_ord_marker ordspv.Envelope.Scan.opcode_bytes
    ordspv.Envelope.Scan.item_bytes ordspv.Envelope.Scan.payload_bytes
    ordspv.Envelope.Scan.no_payload ordspv.Envelope.Scan.is_op ordspv.Envelope.Scan.stutter_at
    ordspv.Envelope.Scan.payload_loop ordspv.Envelope.Scan.from_marker
    ordspv.Envelope.Scan.from_instructions ordspv.Envelope.Scan.next_stutter
    ordspv.Envelope.Scan.keep ordspv.Envelope.Scan.scan_loop ordspv.Envelope.Scan.scan
    ordspv.Envelope.Scan.parse_envelopes_from_script ordspv.Envelope.Number.number_envelopes
    ordspv.Envelope.Number.input_envelopes ordspv.Envelope.Number.envelopes_loop
    ordspv.Envelope.Number.parse_envelopes_from_tx ordspv.Envelope.Payload.split_loop
    ordspv.Envelope.Payload.has_tag ordspv.Envelope.Payload.duplicate_loop
    ordspv.Envelope.Payload.split_payload ordspv.Envelope.Payload.parse_inscription_id_value
    ordspv.Envelope.Payload.decode_le_u64_trimmed ordspv.Envelope.Interpret.add_value
    ordspv.Envelope.Interpret.group_fields ordspv.Envelope.Interpret.values_of
    ordspv.Envelope.Interpret.delete_tag ordspv.Envelope.Interpret.set_values
    ordspv.Envelope.Interpret.take_first ordspv.Envelope.Interpret.take_array
    ordspv.Envelope.Interpret.take_chunked ordspv.Envelope.Interpret.even_tag
    ordspv.Envelope.Interpret.some_even ordspv.Envelope.Interpret.take_fields
    ordspv.Envelope.Interpret.parent_ids ordspv.Envelope.Interpret.interpret_envelope
    ordspv.Sat.Numbers.epoch_subsidy ordspv.Sat.Numbers.subsidy_sats
    ordspv.Sat.Numbers.first_sat_loop ordspv.Sat.Numbers.first_sat_of_block
    ordspv.Sat.Numbers.total_sats ordspv.Sat.Numbers.last_sat ordspv.Sat.Numbers.sat_to_height_loop
    ordspv.Sat.Numbers.sat_to_height ordspv.Sat.Numbers.place_rarity ordspv.Sat.Numbers.sat_rarity
    ordspv.Sat.Numbers.name_loop ordspv.Sat.Numbers.sat_name ordspv.Header.Target.expand
    ordspv.Header.Target.bits_to_target ordspv.Header.Target.size_loop
    ordspv.Header.Target.byte_size ordspv.Header.Target.mantissa_of ordspv.Header.Target.pack
    ordspv.Header.Target.target_to_bits ordspv.Header.Target.work_from_bits
    ordspv.Header.Parse.read_header ordspv.Header.Parse.parse_header
    ordspv.Header.Parse.check_proof_of_work ordspv.Header.Parse.check_limit
    ordspv.Header.Parse.check_pow_limit ordspv.Witness.is_commitment ordspv.Witness.last_commitment
    ordspv.Witness.find_witness_commitment ordspv.Witness.first_witness ordspv.Witness.reserved_item
    ordspv.Witness.witness_reserved_value ordspv.Witness.is_hex32 ordspv.Witness.all_hex32
    ordspv.Witness.check_witness_section_shape ordspv.Witness.compute_witness_commitment
    ordspv.Witness.compute_witness_root_from_wtxids ordspv.Witness.verify_witness_commitment
    ordspv.Witness.parse_hex_tx ordspv.Witness.parse_hop_tx ordspv.Witness.verify_witness_anchoring
    ordspv.Custody.Satpoint.format_satpoint ordspv.Custody.Satpoint.split_colon
    ordspv.Custody.Satpoint.two_numbers ordspv.Custody.Satpoint.match_satpoint
    ordspv.Custody.Satpoint.parse_satpoint ordspv.Custody.Flow.sum
    ordspv.Custody.Flow.values_of_outputs ordspv.Custody.Flow.total_output_sats
    ordspv.Custody.Flow.map_loop ordspv.Custody.Flow.map_to_outputs
    ordspv.Custody.Flow.check_prev_tx_count ordspv.Custody.Flow.spends
    ordspv.Custody.Flow.find_spend ordspv.Custody.Flow.coverage ordspv.Custody.Flow.position_of
    ordspv.Custody.Flow.genesis_position ordspv.Custody.Flow.in_outputs
    ordspv.Custody.Flow.genesis_satpoint ordspv.Custody.Flow.transfer_satpoint
    ordspv.Custody.Flow.spent_output ordspv.Custody.Flow.values_loop
    ordspv.Custody.Flow.proven_input_values ordspv.Custody.Binding.verify_envelope_binding
    ordspv.Custody.Bundle.ask_trust ordspv.Custody.Bundle.parse_header_hex
    ordspv.Custody.Bundle.anchor_header ordspv.Custody.Bundle.anchor_tx
    ordspv.Custody.Bundle.verify_anchored_hop ordspv.Custody.Verify.find_index
    ordspv.Custody.Verify.inscriptions_from_tx ordspv.Custody.Verify.proof_kind
    ordspv.Custody.Verify.index_proven ordspv.Custody.Verify.has_section
    ordspv.Custody.Verify.is_seen ordspv.Custody.Verify.comes_after
    ordspv.Custody.Verify.same_satpoint ordspv.Custody.Verify.check_section
    ordspv.Custody.Verify.walk_hop ordspv.Custody.Verify.walk_loop
    ordspv.Custody.Verify.verify_reveal ordspv.Custody.Verify.last_walk
    ordspv.Custody.Verify.verify_hops ordspv.Custody.Verify.verify_custody_bundle
    ordspv.Proof.lookup_error ordspv.Proof.lookup ordspv.Proof.check_level_section
    ordspv.Proof.check_commit ordspv.Proof.check_level_commit ordspv.Proof.verify_proof_bundle
    ordspv.Sat.Backward.place_of ordspv.Sat.Backward.output_space_position
    ordspv.Sat.Backward.containing_loop ordspv.Sat.Backward.place_or_refusal
    ordspv.Sat.Backward.containing_input ordspv.Sat.Backward.coinbase_sat_at
    ordspv.Sat.Backward.height_of_script ordspv.Sat.Backward.height_of_first
    ordspv.Sat.Backward.bip34_height ordspv.Sat.Genealogy.step_back
    ordspv.Sat.Genealogy.check_height ordspv.Sat.Genealogy.funding_step
    ordspv.Sat.Genealogy.funding_loop ordspv.Sat.Genealogy.verify_coinbase
    ordspv.Sat.Genealogy.reveal_place ordspv.Sat.Genealogy.verify_sat_genealogy
    mathlib.Core.Option.bind
accepted = (refl, refl, refl, refl, refl)

verify_proof_bundle-Proven_example :
    ProvenInscription zero_hash point_curve as_is proof_bundle options
      (value_of (verify_proof_bundle zero_hash point_curve as_is proof_bundle options) accepted.1).0
verify_proof_bundle-Proven_example =
    verify_proof_bundle-Proven zero_hash point_curve as_is proof_bundle options
      (value_of (verify_proof_bundle zero_hash point_curve as_is proof_bundle options) accepted.1).0
      (value_of (verify_proof_bundle zero_hash point_curve as_is proof_bundle options) accepted.1).1

verify_custody_bundle-path_example :
    IsProvenPath zero_hash options custody_bundle
      (value_of
        (verify_custody_bundle zero_hash point_curve as_is custody_bundle options)
        accepted.0).0
verify_custody_bundle-path_example =
    verify_custody_bundle-path zero_hash point_curve as_is custody_bundle options
      (value_of (verify_custody_bundle zero_hash point_curve as_is custody_bundle options)
        accepted.0).0
      (value_of (verify_custody_bundle zero_hash point_curve as_is custody_bundle options)
        accepted.0).1

verify_sat_genealogy-place_example :
    IsProvenIdentity genealogy_bundle 10
      (value_of
        (verify_sat_genealogy zero_hash point_curve as_is genealogy_bundle options 10)
        accepted.2).0
verify_sat_genealogy-place_example =
    verify_sat_genealogy-place zero_hash point_curve as_is genealogy_bundle options 10
      (value_of (verify_sat_genealogy zero_hash point_curve as_is genealogy_bundle options 10)
        accepted.2).0
      (value_of (verify_sat_genealogy zero_hash point_curve as_is genealogy_bundle options 10)
        accepted.2).1

verify_witness_anchoring-Committed_example :
    Committed sum_hash section anchor_header 2 anchor_reveal 1
verify_witness_anchoring-Committed_example =
    verify_witness_anchoring-Committed sum_hash section anchor_header 2 anchor_reveal 1 accepted.3
