-- ===== src/Tests/Builder.antt =====
-- The theorems on the custody builder at concrete inputs: under the hash that answers zeros a reveal that
-- pays to a P2TR output stands for the transaction that it spends, too.
use ordspv.Common.{
  ℕ, ◌+◌, ◌≡◌, refl, true, List, [], ◌∷◌, ◌++◌, none, some, ok, All, length, ◌==◌, zero, suc, arith,
}
use ordspv.Bytes.Hex.{IsByte, bytes_to_hex}
use ordspv.Custody.Bundle.{
  CustodyHop, CustodyBundle, CustodyVerifyOptions, nothing_said, hash_at_height, ask_trust,
  parse_header_hex, verify_anchored_hop,
}
use ordspv.Custody.Flow.{check_prev_tx_count}
use ordspv.Header.Parse.{BlockHeader, of_mainnet}
use ordspv.Fetch.CustodyBuilder.Types.{
  AnchorBackend, CustodyBackend, BuildOptions, BuildCustodyResult, when_needed,
}
use ordspv.Fetch.CustodyBuilder.Hop.{assemble_anchored_hop}
use ordspv.Fetch.CustodyBuilder.Build.{build_custody_bundle}
use ordspv.Fetch.CustodyBuilder.Accepted.{Answer, build_custody_bundle-verify}
use ordspv.Fetch.CustodyBuilder.Txids.{IsHash}
use ordspv.Fetch.CustodyBuilder.Assembled.{Fetched, assemble_anchored_hop-verify}
use ordspv.Fetch.CustodyBuilder.Walked.{Trusting}
use ordspv.Tests.Payment.{tx0}
use ordspv.Tests.Toy.{
  zero_hash, point_curve, as_is, zeros, zero_txid, ord_script, control, p2tr, header_hex, reveal_id,
  ok_value,
}
use ordspv.Text.{trim}
use ordspv.Witness.{parse_hex_tx}

abbrev self_raw : List ℕ
self_raw =
    (2 ∷ 0 ∷ 0 ∷ 0 ∷ 0 ∷ 1 ∷ 1 ∷ [])
    ++ (zeros 32
        ++ ((0 ∷ 0 ∷ 0 ∷ 0 ∷ 0 ∷ 0 ∷ 0 ∷ 0 ∷ 0 ∷ 1 ∷ 100 ∷ 0 ∷ 0 ∷ 0 ∷ 0 ∷ 0 ∷ 0 ∷ 0 ∷ 34 ∷ [])
            ++ (p2tr ++ ((2 ∷ 15 ∷ []) ++ (ord_script ++ ((33 ∷ []) ++ (control ++ zeros 4)))))))

abbrev self_hex : List ℕ
self_hex = bytes_to_hex self_raw ++ (0x0a ∷ [])

-- Hop `h` is in block `h + 5`, and the walk ends after one spend.
abbrev anchor : AnchorBackend
anchor = record {
  base_url = b'a' ∷ [];
  get_tx_hex = λ h txid. ok self_hex;
  get_tx_status = λ h txid.
      ok (record { confirmed = true; block_height = some (h + 5); block_hash = some zero_txid });
  get_merkle_proof = λ h txid. ok (record { block_height = h + 5; merkle = []; pos = 0 });
  get_header_hex = λ h block. ok (header_hex ++ (0x0a ∷ []));
  get_block_info = λ h block.
      ok
        (record { id = some zero_txid; height = none; tx_count = 1; merkle_root = some zero_txid });
  get_block_raw = none;
}

abbrev backend : CustodyBackend
backend = record {
  anchor = anchor;
  get_outspend =
      λ h txid vout. ok (record { spent = h == 1; txid = some zero_txid; confirmed = true });
}

abbrev build_options : BuildOptions
build_options = record {
  max_hops = 3;
  witness_backends = none;
  witness_section = when_needed;
  pow_limit_bits = of_mainnet;
}

abbrev verify_options : CustodyVerifyOptions
verify_options = record {
  trust_header = some (λ header height. ok hash_at_height);
  pow_limit_bits = of_mainnet;
  expected_inscription_id = none;
}

abbrev no_bundle : BuildCustodyResult
no_bundle = record {
  bundle = record { version = 0; inscription_id = []; hops = []; final_satpoint = [] };
  pending_spend_txid = none;
  served_base_urls = [];
}

abbrev result : BuildCustodyResult
result =
    ok_value (build_custody_bundle zero_hash point_curve as_is reveal_id backend build_options)
      no_bundle

abbrev no_hop : CustodyHop
no_hop = record {
  block = record { height = 0; hash = []; header = []; tx_count = 0 };
  hex = [];
  pos = 0;
  txid_branch = [];
  prev_txs = [];
  witness = none;
}

abbrev assembled : CustodyHop
assembled = ok_value (assemble_anchored_hop zero_hash anchor 2 tx0 self_hex 1 of_mainnet) no_hop

built :
    (build_custody_bundle zero_hash point_curve as_is reveal_id backend build_options ≡ ok result)
    × (length result.bundle.hops ≡ 2)
    × (assemble_anchored_hop zero_hash anchor 2 tx0 self_hex 1 of_mainnet ≡ ok assembled)
    × (length assembled.prev_txs ≡ 2)
unfolding ordspv.Bytes.Hex.is_hex_char ordspv.Bytes.Hex.all_hex ordspv.Bytes.Hex.hex_value
    ordspv.Bytes.Hex.hex_pairs ordspv.Bytes.Hex.hex_to_bytes ordspv.Bytes.Hex.hex_char
    ordspv.Bytes.Hex.bytes_to_hex ordspv.Bytes.Hex.display_to_internal
    ordspv.Bytes.Hex.internal_to_display ordspv.Bytes.Hex.same_bytes ordspv.Bytes.Hex.bytes_equal
    ordspv.Bytes.Hex.concat_bytes ordspv.Bytes.Order.le_bytes_to_big_int
    ordspv.Bytes.Order.be_bytes_to_big_int ordspv.Bytes.Order.to_le ordspv.Bytes.Order.to_int32
    ordspv.Bytes.Order.of_int32 ordspv.Bytes.Reader.remaining ordspv.Bytes.Reader.need
    ordspv.Bytes.Reader.read_bytes ordspv.Bytes.Reader.read_u8 ordspv.Bytes.Reader.peek_u8
    ordspv.Bytes.Reader.read_u16le ordspv.Bytes.Reader.read_u32le ordspv.Bytes.Reader.read_i32le
    ordspv.Bytes.Reader.read_u64le ordspv.Bytes.Reader.skip ordspv.Bytes.Reader.read_var_int_from
    ordspv.Bytes.Reader.read_var_int ordspv.Bytes.Reader.read_var_int_num
    ordspv.Bytes.Reader.read_many ordspv.Bytes.Writer.write_bytes ordspv.Bytes.Writer.write_u8
    ordspv.Bytes.Writer.write_u32le ordspv.Bytes.Writer.write_i32le ordspv.Bytes.Writer.write_u64le
    ordspv.Bytes.Writer.write_var_int ordspv.Bytes.Writer.to_bytes ordspv.Bytes.Writer.var_int
    ordspv.Tx.Hash.sha256d ordspv.Tx.Hash.tagged_hash ordspv.Tx.Types.has_items
    ordspv.Tx.Types.some_witness ordspv.Tx.Types.all_zero ordspv.Tx.Types.is_null_outpoint
    ordspv.Tx.Types.is_coinbase_of ordspv.Tx.Types.is_coinbase ordspv.Tx.Serialize.write_input
    ordspv.Tx.Serialize.write_output ordspv.Tx.Serialize.write_item ordspv.Tx.Serialize.write_each
    ordspv.Tx.Serialize.write_witness ordspv.Tx.Serialize.write_in_out
    ordspv.Tx.Serialize.serialize_stripped ordspv.Tx.Serialize.serialize_full
    ordspv.Tx.Parse.read_input ordspv.Tx.Parse.read_output ordspv.Tx.Parse.read_item
    ordspv.Tx.Parse.read_witnesses ordspv.Tx.Parse.read_flag ordspv.Tx.Parse.read_marker
    ordspv.Tx.Parse.read_stacks ordspv.Tx.Parse.read_tx ordspv.Tx.Parse.finish_tx
    ordspv.Tx.Parse.parse_tx ordspv.Merkle.Tree.height_loop ordspv.Merkle.Tree.tree_height
    ordspv.Merkle.Tree.sibling_index ordspv.Merkle.Tree.sibling ordspv.Merkle.Tree.check_width
    ordspv.Merkle.Tree.check_level ordspv.Merkle.Tree.check_count ordspv.Merkle.Tree.hash_pair
    ordspv.Merkle.Tree.next_level ordspv.Merkle.Tree.root_loop
    ordspv.Merkle.Tree.compute_merkle_root ordspv.Merkle.Tree.plain_level
    ordspv.Merkle.Tree.branch_loop ordspv.Merkle.Tree.build_merkle_branch
    ordspv.Merkle.Tree.fold_branch ordspv.Merkle.Tree.verify_merkle_branch ordspv.Text.lower_char
    ordspv.Text.to_lower_case ordspv.Text.is_digit ordspv.Text.all_digits ordspv.Text.is_decimal
    ordspv.Text.is_canonical_decimal ordspv.Text.decimal_value ordspv.Text.decimal_loop
    ordspv.Text.to_decimal ordspv.Text.is_space ordspv.Text.trim_start ordspv.Text.trim
    ordspv.InscriptionId.is_lower_hex ordspv.InscriptionId.all_lower_hex
    ordspv.InscriptionId.matches_id ordspv.InscriptionId.rejection_for
    ordspv.InscriptionId.message_for ordspv.InscriptionId.parse_normalized
    ordspv.InscriptionId.parse_inscription_id ordspv.InscriptionId.format_inscription_id
    ordspv.InscriptionId.is_accepted ordspv.InscriptionId.is_inscription_id
    ordspv.InscriptionId.message_of ordspv.InscriptionId.inscription_id_error
    ordspv.InscriptionId.has_inscription_id_shape ordspv.InscriptionId.parse_expected
    ordspv.InscriptionId.check_expected_inscription_id ordspv.Script.Parse.at
    ordspv.Script.Parse.take_push ordspv.Script.Parse.push_at ordspv.Script.Parse.pushdata1_at
    ordspv.Script.Parse.pushdata2_at ordspv.Script.Parse.pushdata4_at
    ordspv.Script.Parse.instruction_at ordspv.Script.Parse.script_loop
    ordspv.Script.Parse.parse_script ordspv.Taproot.path_nodes ordspv.Taproot.parse_control_block
    ordspv.Taproot.must_swap ordspv.Taproot.is_p2tr ordspv.Taproot.is_annex ordspv.Taproot.last_two
    ordspv.Taproot.from_top ordspv.Taproot.extract_tapscript ordspv.Taproot.tap_leaf_hash
    ordspv.Taproot.tap_branch ordspv.Taproot.tap_merkle_root ordspv.Taproot.lift_x
    ordspv.Taproot.verify_script_path_commitment ordspv.Envelope.Scan.is_empty_payload
    ordspv.Envelope.Scan.is_empty_push ordspv.Envelope.Scan.is_ord_payload
    ordspv.Envelope.Scan.is_ord_marker ordspv.Envelope.Scan.opcode_bytes
    ordspv.Envelope.Scan.item_bytes ordspv.Envelope.Scan.payload_bytes
    ordspv.Envelope.Scan.no_payload ordspv.Envelope.Scan.is_op ordspv.Envelope.Scan.stutter_at
    ordspv.Envelope.Scan.payload_loop ordspv.Envelope.Scan.from_marker
    ordspv.Envelope.Scan.from_instructions ordspv.Envelope.Scan.next_stutter
    ordspv.Envelope.Scan.keep ordspv.Envelope.Scan.scan_loop ordspv.Envelope.Scan.scan
    ordspv.Envelope.Scan.parse_envelopes_from_script ordspv.Envelope.Number.number_envelopes
    ordspv.Envelope.Number.input_envelopes ordspv.Envelope.Number.envelopes_loop
    ordspv.Envelope.Number.parse_envelopes_from_tx ordspv.Envelope.Payload.split_loop
    ordspv.Envelope.Payload.has_tag ordspv.Envelope.Payload.duplicate_loop
    ordspv.Envelope.Payload.split_payload ordspv.Envelope.Payload.parse_inscription_id_value
    ordspv.Envelope.Payload.decode_le_u64_trimmed ordspv.Envelope.Interpret.add_value
    ordspv.Envelope.Interpret.group_fields ordspv.Envelope.Interpret.values_of
    ordspv.Envelope.Interpret.delete_tag ordspv.Envelope.Interpret.set_values
    ordspv.Envelope.Interpret.take_first ordspv.Envelope.Interpret.take_array
    ordspv.Envelope.Interpret.take_chunked ordspv.Envelope.Interpret.even_tag
    ordspv.Envelope.Interpret.some_even ordspv.Envelope.Interpret.take_fields
    ordspv.Envelope.Interpret.parent_ids ordspv.Envelope.Interpret.interpret_envelope
    ordspv.Header.Target.expand ordspv.Header.Target.bits_to_target ordspv.Header.Target.size_loop
    ordspv.Header.Target.byte_size ordspv.Header.Target.mantissa_of ordspv.Header.Target.pack
    ordspv.Header.Target.target_to_bits ordspv.Header.Target.work_from_bits
    ordspv.Header.Parse.read_header ordspv.Header.Parse.parse_header
    ordspv.Header.Parse.check_proof_of_work ordspv.Header.Parse.check_limit
    ordspv.Header.Parse.check_pow_limit ordspv.Witness.is_commitment ordspv.Witness.last_commitment
    ordspv.Witness.find_witness_commitment ordspv.Witness.first_witness ordspv.Witness.reserved_item
    ordspv.Witness.witness_reserved_value ordspv.Witness.is_hex32 ordspv.Witness.all_hex32
    ordspv.Witness.check_witness_section_shape ordspv.Witness.compute_witness_commitment
    ordspv.Witness.compute_witness_root_from_wtxids ordspv.Witness.verify_witness_commitment
    ordspv.Witness.parse_hex_tx ordspv.Witness.parse_hop_tx ordspv.Witness.verify_witness_anchoring
    ordspv.Custody.Satpoint.format_satpoint ordspv.Custody.Satpoint.split_colon
    ordspv.Custody.Satpoint.two_numbers ordspv.Custody.Satpoint.match_satpoint
    ordspv.Custody.Satpoint.parse_satpoint ordspv.Custody.Flow.sum
    ordspv.Custody.Flow.values_of_outputs ordspv.Custody.Flow.total_output_sats
    ordspv.Custody.Flow.map_loop ordspv.Custody.Flow.map_to_outputs
    ordspv.Custody.Flow.check_prev_tx_count ordspv.Custody.Flow.spends
    ordspv.Custody.Flow.find_spend ordspv.Custody.Flow.coverage ordspv.Custody.Flow.position_of
    ordspv.Custody.Flow.genesis_position ordspv.Custody.Flow.in_outputs
    ordspv.Custody.Flow.genesis_satpoint ordspv.Custody.Flow.transfer_satpoint
    ordspv.Custody.Flow.spent_output ordspv.Custody.Flow.values_loop
    ordspv.Custody.Flow.proven_input_values ordspv.Custody.Binding.verify_envelope_binding
    ordspv.Custody.Bundle.ask_trust ordspv.Custody.Bundle.parse_header_hex
    ordspv.Custody.Bundle.anchor_header ordspv.Custody.Bundle.anchor_tx
    ordspv.Custody.Bundle.verify_anchored_hop ordspv.Custody.Verify.find_index
    ordspv.Custody.Verify.inscriptions_from_tx ordspv.Custody.Verify.proof_kind
    ordspv.Custody.Verify.index_proven ordspv.Custody.Verify.has_section
    ordspv.Custody.Verify.is_seen ordspv.Custody.Verify.comes_after
    ordspv.Custody.Verify.same_satpoint ordspv.Custody.Verify.check_section
    ordspv.Custody.Verify.walk_hop ordspv.Custody.Verify.walk_loop
    ordspv.Custody.Verify.verify_reveal ordspv.Custody.Verify.last_walk
    ordspv.Custody.Verify.verify_hops ordspv.Custody.Verify.verify_custody_bundle
    ordspv.Sat.Backward.place_of ordspv.Sat.Backward.output_space_position
    ordspv.Sat.Backward.containing_loop ordspv.Sat.Backward.place_or_refusal
    ordspv.Sat.Backward.containing_input ordspv.Sat.Backward.coinbase_sat_at
    ordspv.Sat.Backward.height_of_script ordspv.Sat.Backward.height_of_first
    ordspv.Sat.Backward.bip34_height ordspv.Fetch.CustodyBuilder.Hop.as_inconsistent
    ordspv.Fetch.CustodyBuilder.Hop.agrees ordspv.Fetch.CustodyBuilder.Hop.check_tx_not_ambiguous
    ordspv.Fetch.CustodyBuilder.Hop.check_merkle_root
    ordspv.Fetch.CustodyBuilder.Hop.check_hop_answers ordspv.Fetch.CustodyBuilder.Hop.fetch_prev_txs
    ordspv.Fetch.CustodyBuilder.Hop.assemble_anchored_hop
    ordspv.Fetch.CustodyBuilder.Section.find_tx ordspv.Fetch.CustodyBuilder.Section.wtxids_of
    ordspv.Fetch.CustodyBuilder.Section.needs_section
    ordspv.Fetch.CustodyBuilder.Section.section_from
    ordspv.Fetch.CustodyBuilder.Section.first_section
    ordspv.Fetch.CustodyBuilder.Section.attach_reveal_witness_section
    ordspv.Fetch.CustodyBuilder.Build.served_urls ordspv.Fetch.CustodyBuilder.Build.follow
    ordspv.Fetch.CustodyBuilder.Build.build_hop ordspv.Fetch.CustodyBuilder.Build.build_hops
    ordspv.Fetch.CustodyBuilder.Build.build_reveal
    ordspv.Fetch.CustodyBuilder.Build.build_custody_bundle ordspv.Fetch.HeaderSync.non_empty
    mathlib.Core.Option.bind
built = (refl, refl, refl, refl)

zeros-AreBytes : (n : ℕ) → All IsByte (zeros n)
zeros-AreBytes zero = tt
zeros-AreBytes (suc n) = (omega arith, zeros-AreBytes n)

zero_hash-IsHash : IsHash zero_hash
zero_hash-IsHash b = (refl, zeros-AreBytes 32)

trusting : Trusting verify_options
unfolding ordspv.Custody.Bundle.ask_trust
trusting header height = (hash_at_height, refl)

build_custody_bundle-verify_example :
    Answer zero_hash point_curve as_is verify_options result.bundle
build_custody_bundle-verify_example =
    build_custody_bundle-verify zero_hash point_curve as_is reveal_id backend build_options
      verify_options result zero_hash-IsHash built.0 refl refl trusting

assemble_anchored_hop-verify_example :
    (header : BlockHeader) × (parse_header_hex zero_hash assembled.block.header ≡ ok header)
    × (verify_anchored_hop zero_hash assembled tx0 verify_options
        ≡ ask_trust verify_options.trust_header header assembled.block.height)
    × (assembled.hex ≡ trim self_hex)
    × (assembled.witness ≡ none)
    × (check_prev_tx_count tx0 assembled.prev_txs ≡ ok tt)
    × (length assembled.prev_txs ≡ 1 + 1)
    × Fetched anchor 2 (1 + 1) tx0.inputs assembled.prev_txs
assemble_anchored_hop-verify_example =
    assemble_anchored_hop-verify zero_hash anchor 2 tx0 self_hex 1 verify_options built.2
