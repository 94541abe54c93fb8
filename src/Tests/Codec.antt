-- ===== src/Tests/Codec.antt =====
-- The theorems on encodings at concrete inputs.
use ordspv.Common.{ℕ, ◌≡◌, refl, ◌≤◌, arith, true, false, List, [], ◌∷◌, map, ok, length, replicate}
use ordspv.Common.Int.{pos}
use ordspv.Block.{ParsedBlock, parse_block, serialize_block}
use ordspv.Block.RoundTrip.{parsed, parse_block-serialize_block}
use ordspv.Bytes.Hex.{
  hex_to_bytes, bytes_to_hex, display_to_internal, internal_to_display, bytes_equal,
  hex_to_bytes-bytes_to_hex, display_to_internal-internal_to_display, bytes_equal_iff,
}
use ordspv.Bytes.Order.{le_bytes_to_big_int, to_le, le_bytes_to_big_int-to_le}
use ordspv.Bytes.Reader.{read_var_int_num}
use ordspv.Bytes.Writer.{var_int, to_bytes, write_u8, write_var_int, to_bytes-write_var_int}
use ordspv.Custody.Satpoint.{Satpoint}
use ordspv.Header.Parse.{BlockHeader, parse_header}
use ordspv.InscriptionId.{parse_inscription_id, format_inscription_id}
use ordspv.InscriptionId.RoundTrip.{parse-format_inscription_id}
use ordspv.Tests.Toy.{zero_hash, zero_txid, zeros, p2tr, header_raw}
use ordspv.Text.{to_lower_case}
use ordspv.Tx.Parse.{parse_tx}
use ordspv.Tx.RoundTrip.{IsTx, parse_tx-serialize_full}
use ordspv.Tx.Serialize.{serialize_full, serialize_stripped}
use ordspv.Tx.Types.{ParsedTx, TxInput, TxOutput, TxBody, some_witness}

abbrev input0 : TxInput
input0 = record {
  prev_txid_le = zeros 32;
  prev_txid = zero_txid;
  vout = 1;
  script_sig = 0x51 ∷ [];
  sequence = 0xffff_fffd;
  witness = (1 ∷ 2 ∷ []) ∷ [] ∷ [];
}

abbrev output0 : TxOutput
output0 = record { value = 5000; script_pub_key = p2tr }

abbrev tx0 : TxBody
tx0 = record { version = pos 2; inputs = input0 ∷ []; outputs = output0 ∷ []; locktime = 7 }

display_zeros : zero_txid ≡ internal_to_display (zeros 32)
unfolding internal_to_display bytes_to_hex ordspv.Bytes.Hex.hex_char
display_zeros = refl

tx0-IsTx : IsTx tx0
tx0-IsTx = record {
  version_fits = omega arith;
  some_input = omega arith;
  inputs_fit = omega arith;
  inputs_valid = (
    record {
      txid_length = refl;
      txid_display = display_zeros;
      vout_fits = omega arith;
      script_fits = omega arith;
      sequence_fits = omega arith;
      count_fits = omega arith;
      items_fit = (omega arith, (omega arith, tt));
    },
    tt,
  );
  outputs_fit = omega arith;
  outputs_valid = (record { value_fits = omega arith; script_fits = omega arith }, tt);
  locktime_fits = omega arith;
}

parse_tx-serialize_full_example :
    (parsed : ParsedTx) × (parse_tx zero_hash false 0 (serialize_full tx0) ≡ ok parsed)
    × (parsed.body ≡ tx0)
    × (parsed.has_witness ≡ some_witness tx0.inputs)
    × ((parsed.raw ≡ serialize_full tx0) × (parsed.stripped_raw ≡ serialize_stripped tx0))
    × ((parsed.txid_le ≡ zero_hash (zero_hash (serialize_stripped tx0)))
        × (parsed.txid ≡ internal_to_display parsed.txid_le))
    × ((parsed.wtxid_le ≡ zero_hash (zero_hash (serialize_full tx0)))
        × (parsed.wtxid ≡ internal_to_display parsed.wtxid_le))
    × (parsed.size ≡ length (serialize_full tx0))
parse_tx-serialize_full_example = parse_tx-serialize_full zero_hash tx0 tx0-IsTx

abbrev header0 : BlockHeader
header0 = record {
  version = pos 1;
  prev_block_le = zeros 32;
  prev_block = zero_txid;
  merkle_root_le = zeros 32;
  merkle_root = zero_txid;
  time = 0;
  bits = 0x1d00_ffff;
  nonce = 0;
  raw = header_raw;
  hash_le = zeros 32;
  hash = zero_txid;
}

header0-parses : parse_header zero_hash header_raw ≡ ok header0
unfolding ordspv.Bytes.Hex.is_hex_char ordspv.Bytes.Hex.all_hex ordspv.Bytes.Hex.hex_value
    ordspv.Bytes.Hex.hex_pairs ordspv.Bytes.Hex.hex_to_bytes ordspv.Bytes.Hex.hex_char
    ordspv.Bytes.Hex.bytes_to_hex ordspv.Bytes.Hex.display_to_internal
    ordspv.Bytes.Hex.internal_to_display ordspv.Bytes.Hex.same_bytes ordspv.Bytes.Hex.bytes_equal
    ordspv.Bytes.Hex.concat_bytes ordspv.Bytes.Order.le_bytes_to_big_int
    ordspv.Bytes.Order.be_bytes_to_big_int ordspv.Bytes.Order.to_le ordspv.Bytes.Order.to_int32
    ordspv.Bytes.Order.of_int32 ordspv.Bytes.Reader.remaining ordspv.Bytes.Reader.need
    ordspv.Bytes.Reader.read_bytes ordspv.Bytes.Reader.read_u8 ordspv.Bytes.Reader.peek_u8
    ordspv.Bytes.Reader.read_u16le ordspv.Bytes.Reader.read_u32le ordspv.Bytes.Reader.read_i32le
    ordspv.Bytes.Reader.read_u64le ordspv.Bytes.Reader.skip ordspv.Bytes.Reader.read_var_int_from
    ordspv.Bytes.Reader.read_var_int ordspv.Bytes.Reader.read_var_int_num
    ordspv.Bytes.Reader.read_many ordspv.Tx.Hash.sha256d ordspv.Tx.Hash.tagged_hash
    ordspv.Header.Parse.read_header ordspv.Header.Parse.parse_header
    ordspv.Header.Parse.check_proof_of_work ordspv.Header.Parse.check_limit
    ordspv.Header.Parse.check_pow_limit
header0-parses = refl

block0-fits : length (serialize_block header_raw (map serialize_full (tx0 ∷ []))) ≤ 4_000_000
unfolding ordspv.Bytes.Hex.is_hex_char ordspv.Bytes.Hex.all_hex ordspv.Bytes.Hex.hex_value
    ordspv.Bytes.Hex.hex_pairs ordspv.Bytes.Hex.hex_to_bytes ordspv.Bytes.Hex.hex_char
    ordspv.Bytes.Hex.bytes_to_hex ordspv.Bytes.Hex.display_to_internal
    ordspv.Bytes.Hex.internal_to_display ordspv.Bytes.Hex.same_bytes ordspv.Bytes.Hex.bytes_equal
    ordspv.Bytes.Hex.concat_bytes ordspv.Bytes.Order.le_bytes_to_big_int
    ordspv.Bytes.Order.be_bytes_to_big_int ordspv.Bytes.Order.to_le ordspv.Bytes.Order.to_int32
    ordspv.Bytes.Order.of_int32 ordspv.Bytes.Writer.write_bytes ordspv.Bytes.Writer.write_u8
    ordspv.Bytes.Writer.write_u32le ordspv.Bytes.Writer.write_i32le ordspv.Bytes.Writer.write_u64le
    ordspv.Bytes.Writer.write_var_int ordspv.Bytes.Writer.to_bytes ordspv.Bytes.Writer.var_int
    ordspv.Tx.Types.has_items ordspv.Tx.Types.some_witness ordspv.Tx.Types.all_zero
    ordspv.Tx.Types.is_null_outpoint ordspv.Tx.Types.is_coinbase_of ordspv.Tx.Types.is_coinbase
    ordspv.Tx.Serialize.write_input ordspv.Tx.Serialize.write_output ordspv.Tx.Serialize.write_item
    ordspv.Tx.Serialize.write_each ordspv.Tx.Serialize.write_witness
    ordspv.Tx.Serialize.write_in_out ordspv.Tx.Serialize.serialize_stripped
    ordspv.Tx.Serialize.serialize_full ordspv.Block.txs_loop ordspv.Block.parse_block
    ordspv.Block.serialize_block
block0-fits = omega arith

parse_block-serialize_block_example :
    parse_block zero_hash (serialize_block header_raw (map serialize_full (tx0 ∷ [])))
    ≡ ok (record { header = header0; txs = map (parsed zero_hash) (tx0 ∷ []) })
parse_block-serialize_block_example =
    parse_block-serialize_block zero_hash header_raw header0 (tx0 ∷ []) header0-parses
      (tx0-IsTx, tt) block0-fits

abbrev upper_txid : List ℕ
upper_txid = replicate 64 b'A'

upper_hex : ordspv.Bytes.Hex.all_hex upper_txid ≡ true
unfolding ordspv.Bytes.Hex.all_hex ordspv.Bytes.Hex.is_hex_char
upper_hex = refl

parse-format_inscription_id_example :
    (txid_le : List ℕ) × (display_to_internal (to_lower_case upper_txid) ≡ ok txid_le)
    × (parse_inscription_id (format_inscription_id upper_txid 12)
        ≡ ok (record { txid = to_lower_case upper_txid; txid_le = txid_le; index = 12 }))
parse-format_inscription_id_example =
    parse-format_inscription_id upper_txid 12 refl upper_hex (omega arith)

abbrev satpoint0 : Satpoint
satpoint0 = record { txid = upper_txid; vout = 3; offset = 250 }
