-- ===== src/Sat/Numbers.antt =====
-- packages/core/src/satnumber.ts: the closed forms of the ordinal numbering. A sat number, a height
-- and an offset are natural numbers; `>>` is a division by a power of two.
use ordspv.Common.{
  ℕ, zero, suc, ◌+◌, ◌-◌, ◌*◌, ◌/◌, ◌%◌, ◌^◌, min, List, [], ◌∷◌, ◌==◌, ltb, leb, Result, ok, throw,
  if◌then◌else◌, ◌>>=◌,
}

abbrev pub epoch_blocks : ℕ
epoch_blocks = 210_000

abbrev pub cycle_blocks : ℕ
cycle_blocks = 1_260_000

abbrev pub diffchange_blocks : ℕ
diffchange_blocks = 2_016

abbrev pub initial_subsidy : ℕ
initial_subsidy = 5_000_000_000

abbrev pub final_epoch : ℕ
final_epoch = 33

-- `INITIAL_SUBSIDY >> BigInt(epoch)`
unfoldable pub epoch_subsidy : ℕ → ℕ
epoch_subsidy epoch = initial_subsidy / 2 ^ epoch

unfoldable pub subsidy_sats : ℕ → ℕ
subsidy_sats height =
    let epoch = height / epoch_blocks in if leb final_epoch epoch then 0 else epoch_subsidy epoch

-- The loop over the epochs from `epoch` on, `rounds` of which are left.
unfoldable pub first_sat_loop : ℕ → ℕ → ℕ → ℕ → ℕ
first_sat_loop zero epoch height start = start
first_sat_loop (suc rounds) epoch height start =
    let epoch_start = epoch * epoch_blocks in
    let blocks = min (height - epoch_start) epoch_blocks in
    let rest = first_sat_loop rounds (epoch + 1) height (start + blocks * epoch_subsidy epoch) in
    if leb height epoch_start then start else rest

unfoldable pub first_sat_of_block : ℕ → ℕ
first_sat_of_block height = first_sat_loop final_epoch 0 height 0

unfoldable pub total_sats : ℕ
total_sats = first_sat_of_block (final_epoch * epoch_blocks)

unfoldable pub last_sat : ℕ
last_sat = total_sats - 1

pub record SatPlace : Type 0 where
  pub height : ℕ
  pub offset : ℕ

unfoldable pub sat_to_height_loop : ℕ → ℕ → ℕ → ℕ → Result SatPlace
sat_to_height_loop zero epoch cum sat = throw "unreachable"
sat_to_height_loop (suc rounds) epoch cum sat =
    let subsidy = epoch_subsidy epoch in
    let epoch_sats = epoch_blocks * subsidy in
    let into = sat - cum in
    let rest = sat_to_height_loop rounds (epoch + 1) (cum + epoch_sats) sat in
    if ltb sat (cum + epoch_sats)
    then ok (record { height = epoch * epoch_blocks + into / subsidy; offset = into % subsidy })
    else rest

unfoldable pub sat_to_height : ℕ → Result SatPlace
sat_to_height sat =
    if leb total_sats sat then throw "sat out of range" else sat_to_height_loop final_epoch 0 0 sat

pub data SatRarity : Type 0 where
  mythic legendary epic rare uncommon common : SatRarity

unfoldable pub place_rarity : SatPlace → SatRarity
place_rarity p =
    if p.offset == 0
    then (if p.height % cycle_blocks == 0
        then legendary
        else (if p.height % epoch_blocks == 0
            then epic
            else (if p.height % diffchange_blocks == 0 then rare else uncommon)))
    else common

unfoldable pub sat_rarity : ℕ → Result SatRarity
unfolding place_rarity
sat_rarity sat = if sat == 0 then ok mythic else (sat_to_height sat >>= λ p. ok (place_rarity p))

-- `while (x > 0n)` on fuel: each round prepends a letter.
unfoldable pub name_loop : ℕ → ℕ → List ℕ → List ℕ
name_loop zero x name = name
name_loop (suc fuel) x name =
    let y = x - 1 in
    let rest = name_loop fuel (y / 26) ((97 + y % 26) ∷ name) in if ltb 0 x then rest else name

-- Each round shrinks `x`, so `x` rounds are enough.
unfoldable pub sat_name : ℕ → Result (List ℕ)
sat_name sat =
    if leb total_sats sat
    then throw "sat out of range"
    else (let x = last_sat - sat + 1 in ok (name_loop x x []))
