-- ===== src/Sat/Backward.antt =====
-- One hop back in packages/core/src/satnumber.ts: `outputSpacePosition`, `containingInput`,
-- `coinbaseSatAt` and `bip34Height`.
use ordspv.Common.{
  ℕ, ◌+◌, ◌-◌, Bool, true, false, ◌&&◌, List, [], ◌∷◌, Option, none, some, Result, ok, err, require,
  failure, sat_position, sat_funding_incomplete, custody_unsupported, ◌>>◌, leb, ltb, if◌then◌else◌,
  length, get_elem?, get_or,
}
use ordspv.Bytes.Order.{le_bytes_to_big_int}
use ordspv.Bytes.Reader.{slice, max_safe_integer}
use ordspv.Custody.Flow.{position_of, values_of_outputs}
use ordspv.Sat.Numbers.{subsidy_sats, first_sat_of_block}
use ordspv.Tx.Types.{TxInput, TxOutput, ParsedTx, is_coinbase}

unfoldable pub place_of : List TxOutput → ℕ → ℕ → Option TxOutput → Result ℕ
place_of outputs vout offset none = err sat_position
place_of outputs vout offset (some out) =
    if ltb offset out.value
    then ok (offset + position_of (values_of_outputs outputs) vout)
    else err sat_position

unfoldable pub output_space_position : ParsedTx → ℕ → ℕ → Result ℕ
unfolding place_of
output_space_position tx vout offset = place_of tx.outputs vout offset (get_elem? tx.outputs vout)

pub record FundingPlace : Type 0 where
  pub input : ℕ
  pub offset_in_funding : ℕ

-- The loop over the proven values from input `i` on.
unfoldable pub containing_loop : ℕ → List ℕ → ℕ → Option FundingPlace
containing_loop i [] remaining = none
containing_loop i (v ∷ vs) remaining =
    if ltb remaining v
    then some (record { input = i; offset_in_funding = remaining })
    else containing_loop (i + 1) vs (remaining - v)

-- The refusal says whether further inputs could still reach the position.
unfoldable pub place_or_refusal : Bool → Option FundingPlace → Result FundingPlace
place_or_refusal covered (some place) = ok place
place_or_refusal true none = err sat_position
place_or_refusal false none = err sat_funding_incomplete

unfoldable pub containing_input : ParsedTx → List ℕ → ℕ → Result FundingPlace
containing_input tx values position =
    place_or_refusal (leb (length tx.inputs) (length values)) (containing_loop 0 values position)

unfoldable pub coinbase_sat_at : ParsedTx → ℕ → ℕ → Result ℕ
coinbase_sat_at coinbase position height = do
  require (is_coinbase coinbase) (failure "terminal transaction is not a coinbase")
  require (ltb position (subsidy_sats height)) (custody_unsupported (some height))
  ok (first_sat_of_block height + position)

-- The little-endian number of the first push. The sums of doubles are exact up to 2^53 - 1; above it
-- they may round, and stay above.
unfoldable pub height_of_script : List ℕ → Option ℕ
height_of_script s =
    let len = get_or s 0 0 in
    let height = le_bytes_to_big_int (slice s 1 len) in
    if leb 2 (length s)
      && ((leb 1 len && leb len 8) && (leb (1 + len) (length s) && leb height max_safe_integer))
    then some height
    else none

unfoldable pub height_of_first : List TxInput → Option ℕ
height_of_first [] = none
height_of_first (i ∷ rest) = height_of_script i.script_sig

unfoldable pub bip34_height : ParsedTx → Option ℕ
unfolding height_of_first
bip34_height coinbase = height_of_first coinbase.inputs

abbrev pub bip34_enforced_from : ℕ
bip34_enforced_from = 230_000
