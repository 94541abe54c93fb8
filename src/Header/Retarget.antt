-- ===== src/Header/Retarget.antt =====
-- `ChainParams` and `calcNextBits` of packages/core/src/header.ts.
use ordspv.Common.{
  ℕ, ◌-◌, ◌*◌, ◌/◌, Bool, false, not, Result, ok, ◌>>=◌, ◌>>◌, require, failure, ltb, ◌==◌,
  if◌then◌else◌,
}
use ordspv.Header.Target.{bits_to_target, target_to_bits}
use ordspv.Header.Parse.{mainnet_pow_limit_bits}

pub record ChainParams : Type 0 where
  pub retarget_interval : ℕ
  pub target_timespan : ℕ
  pub pow_limit_bits : ℕ
  pub no_retarget : Bool

abbrev pub mainnet_chain_params : ChainParams
mainnet_chain_params = record {
  retarget_interval = 2016;
  target_timespan = 14 * 24 * 3600;
  pow_limit_bits = mainnet_pow_limit_bits;
  no_retarget = false;
}

-- A negative span and the span 0 are both raised to the lower bound, so the difference may stop at 0.
unfoldable pub clamp_timespan : ℕ → ℕ → ℕ → ℕ
clamp_timespan first_time last_time timespan =
    let actual = last_time - first_time in
    let low = timespan / 4 in
    let high = timespan * 4 in
    let raised = (if ltb actual low then low else actual) in
    if ltb high raised then high else raised

-- The division of bigints throws on a timespan of 0.
unfoldable pub calc_next_bits : ℕ → ℕ → ℕ → ChainParams → Result ℕ
calc_next_bits prev_bits first_time last_time params = do
  pow_limit ← bits_to_target params.pow_limit_bits
  prev_target ← bits_to_target prev_bits
  let span = clamp_timespan first_time last_time params.target_timespan
  require (not (params.target_timespan == 0)) (failure "Division by zero")
  let target = prev_target * span / params.target_timespan
  ok (target_to_bits (if ltb pow_limit target then pow_limit else target))
