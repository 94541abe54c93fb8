-- ===== src/Tests/Scripts.antt =====
-- The theorems on scripts and envelopes at concrete inputs.
use ordspv.Common.{
  ℕ, ◌≡◌, refl, arith, false, List, [], ◌∷◌, ◌++◌, none, some, ok, length, All, get_elem?,
}
use ordspv.Bytes.Order.{le_bytes_to_big_int}
use ordspv.Envelope.Number.{RawEnvelope, parse_envelopes_from_tx}
use ordspv.Envelope.Numbering.{Numbered, parse_envelopes-Numbered}
use ordspv.Envelope.Payload.{split_payload}
use ordspv.Envelope.Reveal.{scan-envelope}
use ordspv.Envelope.Scan.{scan_loop, scan}
use ordspv.Envelope.Split.{flatten, Tail, HasTag, split_payload-whole}
use ordspv.Script.Parse.{ScriptOp, parse_script, script_loop}
use ordspv.Script.Tiling.{ops_bytes, ops_bytes-parse_script}
use ordspv.Tests.Payment.{tx0}

abbrev push : List ℕ → ScriptOp
push data_bytes = record { opcode = length data_bytes; payload = some data_bytes; offset = 0 }

abbrev op : ℕ → ScriptOp
op opcode = record { opcode = opcode; payload = none; offset = 0 }

scan-envelope_example :
    scan (
      push [] ∷ op 0x63 ∷ push (0x6f ∷ 0x72 ∷ 0x64 ∷ []) ∷ (push (1 ∷ []) ∷ push (2 ∷ []) ∷ [])
      ++ (op 0x68 ∷ op 0x51 ∷ []))
    ≡ record { payload = (1 ∷ []) ∷ (2 ∷ []) ∷ []; pushnum = false; stutter = false }
      ∷ scan (op 0x51 ∷ [])
unfolding ordspv.Envelope.Scan.is_op ordspv.Envelope.Scan.is_ord_marker
    ordspv.Envelope.Scan.is_empty_push
scan-envelope_example =
    scan-envelope (push []) (op 0x63) (push (0x6f ∷ 0x72 ∷ 0x64 ∷ [])) (op 0x68)
      (push (1 ∷ []) ∷ push (2 ∷ []) ∷ []) (op 0x51 ∷ []) ((1 ∷ [], refl), ((2 ∷ [], refl), tt))
      refl refl refl refl

abbrev envelope1 : RawEnvelope
envelope1 = record {
  input = 1;
  offset_in_input = 0;
  index = 1;
  payload = (1 ∷ []) ∷ (0x61 ∷ []) ∷ [] ∷ (0x68 ∷ 0x69 ∷ []) ∷ [];
  pushnum = false;
  stutter = false;
}

second : get_elem? (parse_envelopes_from_tx tx0) 1 ≡ some envelope1
unfolding ordspv.Taproot.path_nodes ordspv.Taproot.parse_control_block ordspv.Taproot.must_swap
    ordspv.Taproot.is_p2tr ordspv.Taproot.is_annex ordspv.Taproot.last_two ordspv.Taproot.from_top
    ordspv.Taproot.extract_tapscript ordspv.Taproot.tap_leaf_hash ordspv.Taproot.tap_branch
    ordspv.Taproot.tap_merkle_root ordspv.Taproot.lift_x
    ordspv.Taproot.verify_script_path_commitment ordspv.Script.Parse.at
    ordspv.Script.Parse.take_push ordspv.Script.Parse.push_at ordspv.Script.Parse.pushdata1_at
    ordspv.Script.Parse.pushdata2_at ordspv.Script.Parse.pushdata4_at
    ordspv.Script.Parse.instruction_at ordspv.Script.Parse.script_loop
    ordspv.Script.Parse.parse_script ordspv.Envelope.Scan.is_empty_payload
    ordspv.Envelope.Scan.is_empty_push ordspv.Envelope.Scan.is_ord_payload
    ordspv.Envelope.Scan.is_ord_marker ordspv.Envelope.Scan.opcode_bytes
    ordspv.Envelope.Scan.item_bytes ordspv.Envelope.Scan.payload_bytes
    ordspv.Envelope.Scan.no_payload ordspv.Envelope.Scan.is_op ordspv.Envelope.Scan.stutter_at
    ordspv.Envelope.Scan.payload_loop ordspv.Envelope.Scan.from_marker
    ordspv.Envelope.Scan.from_instructions ordspv.Envelope.Scan.next_stutter
    ordspv.Envelope.Scan.keep ordspv.Envelope.Scan.scan_loop ordspv.Envelope.Scan.scan
    ordspv.Envelope.Scan.parse_envelopes_from_script ordspv.Envelope.Number.number_envelopes
    ordspv.Envelope.Number.input_envelopes ordspv.Envelope.Number.envelopes_loop
    ordspv.Envelope.Number.parse_envelopes_from_tx ordspv.Bytes.Order.le_bytes_to_big_int
    ordspv.Bytes.Order.be_bytes_to_big_int ordspv.Bytes.Order.to_le ordspv.Bytes.Order.to_int32
    ordspv.Bytes.Order.of_int32
second = refl

parse_envelopes-Numbered_example : Numbered tx0.inputs 0 0 1 envelope1
parse_envelopes-Numbered_example = parse_envelopes-Numbered tx0 1 envelope1 second

split_payload-whole_example :
    (rest : List (List ℕ)) × ((1 ∷ []) ∷ (7 ∷ []) ∷ [] ∷ (8 ∷ []) ∷ []
      ≡ flatten (split_payload ((1 ∷ []) ∷ (7 ∷ []) ∷ [] ∷ (8 ∷ []) ∷ [])).fields ++ rest)
    × Tail
        (split_payload ((1 ∷ []) ∷ (7 ∷ []) ∷ [] ∷ (8 ∷ []) ∷ [])).body_chunks
        (split_payload ((1 ∷ []) ∷ (7 ∷ []) ∷ [] ∷ (8 ∷ []) ∷ [])).incomplete_field
        rest
    × All HasTag (split_payload ((1 ∷ []) ∷ (7 ∷ []) ∷ [] ∷ (8 ∷ []) ∷ [])).fields
split_payload-whole_example = split_payload-whole ((1 ∷ []) ∷ (7 ∷ []) ∷ [] ∷ (8 ∷ []) ∷ [])

abbrev script0 : List ℕ
script0 = 0 ∷ 2 ∷ 7 ∷ 8 ∷ 0x4c ∷ 1 ∷ 9 ∷ 0x63 ∷ []

abbrev ops0 : List ScriptOp
ops0 =
    record { opcode = 0; payload = some []; offset = 0 }
    ∷ record { opcode = 2; payload = some (7 ∷ 8 ∷ []); offset = 1 }
    ∷ record { opcode = 0x4c; payload = some (9 ∷ []); offset = 4 }
    ∷ record { opcode = 0x63; payload = none; offset = 7 }
    ∷ []

script0-parses : parse_script script0 ≡ ok ops0
unfolding ordspv.Bytes.Order.le_bytes_to_big_int ordspv.Bytes.Order.be_bytes_to_big_int
    ordspv.Bytes.Order.to_le ordspv.Bytes.Order.to_int32 ordspv.Bytes.Order.of_int32
    ordspv.Script.Parse.at ordspv.Script.Parse.take_push ordspv.Script.Parse.push_at
    ordspv.Script.Parse.pushdata1_at ordspv.Script.Parse.pushdata2_at
    ordspv.Script.Parse.pushdata4_at ordspv.Script.Parse.instruction_at
    ordspv.Script.Parse.script_loop ordspv.Script.Parse.parse_script
script0-parses = refl

ops_bytes-parse_script_example : ops_bytes ops0 ≡ script0
ops_bytes-parse_script_example =
    ops_bytes-parse_script script0 ops0
      (
        omega arith,
        (
          omega arith,
          (
            omega arith,
            (omega arith, (omega arith, (omega arith, (omega arith, (omega arith, tt))))),
          ),
        ),
      )
      script0-parses
