-- ===== src/Tests/Chain.antt =====
-- The theorems on headers and sats at concrete inputs.
use ordspv.Common.{
  ℕ, ◌+◌, ◌-◌, ◌*◌, ◌^◌, ◌≡◌, refl, ◌↔◌, ◌≤◌, ◌<◌, arith, true, [], ◌∷◌, none, some, ok, get_elem?,
}
use ordspv.Common.Int.{pos}
use ordspv.Bytes.Order.{le_bytes_to_big_int}
use ordspv.Custody.Conserve.{map_to_outputs_iff, map_to_outputs-none_iff}
use ordspv.Custody.Flow.{
  map_to_outputs, total_output_sats, position_of, transfer_satpoint, find_spend,
}
use ordspv.Custody.Satpoint.{Satpoint}
use ordspv.Header.Compact.{bits_to_target-target_to_bits}
use ordspv.Header.Limits.{calc_next_bits-bounds}
use ordspv.Header.Parse.{BlockHeader, of_bits, check_pow_limit, check_proof_of_work}
use ordspv.Header.Retarget.{calc_next_bits, mainnet_chain_params}
use ordspv.Header.Target.{bits_to_target, target_to_bits}
use ordspv.Sat.Backward.{output_space_position, containing_input}
use ordspv.Sat.Genealogy.{step_back}
use ordspv.Sat.Hops.{containing_input_iff, step_back-transfer_satpoint}
use ordspv.Sat.Inverse.{sat_to_height-first_sat}
use ordspv.Sat.Numbers.{
  SatPlace, total_sats, subsidy_sats, first_sat_of_block, sat_to_height, sat_name,
}
use ordspv.Tests.Toy.{zeros, zero_txid}
use ordspv.Tests.Payment.{tx0}

abbrev at : ℕ → ℕ → Satpoint
at vout offset = record { txid = zero_txid; vout = vout; offset = offset }

map_to_outputs_iff_example :
    (map_to_outputs tx0 75 ≡ some (at 1 5))
    ↔ ((zero_txid ≡ zero_txid) × (output_space_position tx0 1 5 ≡ ok 75))
map_to_outputs_iff_example = map_to_outputs_iff tx0 75 (at 1 5)

map_to_outputs-none_iff_example : (map_to_outputs tx0 105 ≡ none) ↔ (total_output_sats tx0 ≤ 105)
map_to_outputs-none_iff_example = map_to_outputs-none_iff tx0 105

containing_input_iff_example :
    (containing_input tx0 (50 ∷ 60 ∷ []) 75 ≡ ok (record { input = 1; offset_in_funding = 25 })) ↔ (
      (v : ℕ) × (get_elem? (50 ∷ 60 ∷ []) 1 ≡ some v)
      × (25 < v)
      × (25 + position_of (50 ∷ 60 ∷ []) 1 ≡ 75))
containing_input_iff_example =
    containing_input_iff tx0 (50 ∷ 60 ∷ []) 75 (record { input = 1; offset_in_funding = 25 })

-- The second input's sat 25 moves to sat 5 of the second output.
transferred :
    (find_spend (at 1 25) tx0.inputs ≡ some 1)
    × (transfer_satpoint tx0 (50 ∷ 60 ∷ []) (at 1 25) none ≡ ok (at 1 5))
unfolding ordspv.Bytes.Hex.is_hex_char ordspv.Bytes.Hex.all_hex ordspv.Bytes.Hex.hex_value
    ordspv.Bytes.Hex.hex_pairs ordspv.Bytes.Hex.hex_to_bytes ordspv.Bytes.Hex.hex_char
    ordspv.Bytes.Hex.bytes_to_hex ordspv.Bytes.Hex.display_to_internal
    ordspv.Bytes.Hex.internal_to_display ordspv.Bytes.Hex.same_bytes ordspv.Bytes.Hex.bytes_equal
    ordspv.Bytes.Hex.concat_bytes ordspv.Custody.Flow.sum ordspv.Custody.Flow.values_of_outputs
    ordspv.Custody.Flow.total_output_sats ordspv.Custody.Flow.map_loop
    ordspv.Custody.Flow.map_to_outputs ordspv.Custody.Flow.check_prev_tx_count
    ordspv.Custody.Flow.spends ordspv.Custody.Flow.find_spend ordspv.Custody.Flow.coverage
    ordspv.Custody.Flow.position_of ordspv.Custody.Flow.genesis_position
    ordspv.Custody.Flow.in_outputs ordspv.Custody.Flow.genesis_satpoint
    ordspv.Custody.Flow.transfer_satpoint ordspv.Custody.Flow.spent_output
    ordspv.Custody.Flow.values_loop ordspv.Custody.Flow.proven_input_values
transferred = (refl, refl)

step_back-transfer_satpoint_example :
    (p : ℕ) × (output_space_position tx0 1 5 ≡ ok p)
    × (step_back tx0 (50 ∷ 60 ∷ []) p ≡ ok (record { txid = zero_txid; vout = 1; offset = 25 }))
step_back-transfer_satpoint_example =
    step_back-transfer_satpoint tx0 (50 ∷ 60 ∷ []) (at 1 25) (at 1 5) none 1 60 transferred.0 refl
      (omega arith) transferred.1

subsidy-210000 : subsidy_sats 210_000 ≡ 2_500_000_000
unfolding ordspv.Sat.Numbers.epoch_subsidy ordspv.Sat.Numbers.subsidy_sats
    ordspv.Sat.Numbers.first_sat_loop ordspv.Sat.Numbers.first_sat_of_block
    ordspv.Sat.Numbers.total_sats ordspv.Sat.Numbers.last_sat ordspv.Sat.Numbers.sat_to_height_loop
    ordspv.Sat.Numbers.sat_to_height ordspv.Sat.Numbers.place_rarity ordspv.Sat.Numbers.sat_rarity
    ordspv.Sat.Numbers.name_loop ordspv.Sat.Numbers.sat_name
subsidy-210000 = refl

supply : total_sats ≡ 2_099_999_997_690_000
unfolding ordspv.Sat.Numbers.epoch_subsidy ordspv.Sat.Numbers.subsidy_sats
    ordspv.Sat.Numbers.first_sat_loop ordspv.Sat.Numbers.first_sat_of_block
    ordspv.Sat.Numbers.total_sats ordspv.Sat.Numbers.last_sat ordspv.Sat.Numbers.sat_to_height_loop
    ordspv.Sat.Numbers.sat_to_height ordspv.Sat.Numbers.place_rarity ordspv.Sat.Numbers.sat_rarity
    ordspv.Sat.Numbers.name_loop ordspv.Sat.Numbers.sat_name
supply = refl

sat_to_height-first_sat_example :
    (p : SatPlace) × (sat_to_height 7_000_000_000 ≡ ok p)
    × (first_sat_of_block p.height + p.offset ≡ 7_000_000_000)
    × (p.offset < subsidy_sats p.height)
sat_to_height-first_sat_example = sat_to_height-first_sat 7_000_000_000 (omega (arith, supply))

bits_to_target-target_to_bits_example :
    (u : ℕ) × (bits_to_target (target_to_bits 0x12345678) ≡ ok u)
    × (u ≤ 0x12345678)
    × ((0x12345678 - u) * 2 ^ 15 ≤ u)
bits_to_target-target_to_bits_example = bits_to_target-target_to_bits 0x12345678 (omega arith)

-- The first retarget of the main chain that changed the bits.
retarget_32256 :
    calc_next_bits 0x1d00_ffff 1_261_130_161 1_262_152_739 mainnet_chain_params ≡ ok 0x1d00_d86a
unfolding ordspv.Bytes.Order.le_bytes_to_big_int ordspv.Bytes.Order.be_bytes_to_big_int
    ordspv.Bytes.Order.to_le ordspv.Bytes.Order.to_int32 ordspv.Bytes.Order.of_int32
    ordspv.Header.Target.expand ordspv.Header.Target.bits_to_target ordspv.Header.Target.size_loop
    ordspv.Header.Target.byte_size ordspv.Header.Target.mantissa_of ordspv.Header.Target.pack
    ordspv.Header.Target.target_to_bits ordspv.Header.Target.work_from_bits
    ordspv.Header.Retarget.clamp_timespan ordspv.Header.Retarget.calc_next_bits
    ordspv.Header.Parse.read_header ordspv.Header.Parse.parse_header
    ordspv.Header.Parse.check_proof_of_work ordspv.Header.Parse.check_limit
    ordspv.Header.Parse.check_pow_limit
retarget_32256 = refl

calc_next_bits-bounds_example :
    (limit before target : ℕ) × (bits_to_target 0x1d00_ffff ≡ ok limit)
    × (bits_to_target 0x1d00_ffff ≡ ok before)
    × (bits_to_target 0x1d00_d86a ≡ ok target)
    × (target ≤ limit)
    × (target ≤ 4 * before)
calc_next_bits-bounds_example =
    calc_next_bits-bounds 0x1d00_ffff 1_261_130_161 1_262_152_739 mainnet_chain_params 0x1d00_d86a
      retarget_32256

abbrev header0 : BlockHeader
header0 = record {
  version = pos 1;
  prev_block_le = zeros 32;
  prev_block = zero_txid;
  merkle_root_le = zeros 32;
  merkle_root = zero_txid;
  time = 0;
  bits = 0x1c00_ffff;
  nonce = 0;
  raw = [];
  hash_le = 5 ∷ zeros 31;
  hash = zero_txid;
}

header0-passes :
    (check_pow_limit header0 (of_bits 0x1d00_ffff) ≡ ok tt)
    × (check_proof_of_work header0 ≡ ok true)
unfolding ordspv.Bytes.Order.le_bytes_to_big_int ordspv.Bytes.Order.be_bytes_to_big_int
    ordspv.Bytes.Order.to_le ordspv.Bytes.Order.to_int32 ordspv.Bytes.Order.of_int32
    ordspv.Header.Target.expand ordspv.Header.Target.bits_to_target ordspv.Header.Target.size_loop
    ordspv.Header.Target.byte_size ordspv.Header.Target.mantissa_of ordspv.Header.Target.pack
    ordspv.Header.Target.target_to_bits ordspv.Header.Target.work_from_bits
    ordspv.Header.Retarget.clamp_timespan ordspv.Header.Retarget.calc_next_bits
    ordspv.Header.Parse.read_header ordspv.Header.Parse.parse_header
    ordspv.Header.Parse.check_proof_of_work ordspv.Header.Parse.check_limit
    ordspv.Header.Parse.check_pow_limit
header0-passes = (refl, refl)
