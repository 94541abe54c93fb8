-- ===== src/Custody/Satpoint.antt =====
-- `Satpoint`, `formatSatpoint` and `parseSatpoint` of packages/core/src/custody.ts.
use ordspv.Common.{
  ℕ, ◌&&◌, List, [], ◌∷◌, ◌++◌, Option, none, some, Result, ok, require, failure, or_throw, ◌>>=◌,
  ◌>>◌, leb, ◌==◌, if◌then◌else◌, length, take, drop, get_or,
}
use ordspv.Bytes.Hex.{all_hex}
use ordspv.Bytes.Reader.{max_safe_integer}
use ordspv.Text.{to_lower_case, is_decimal, decimal_value, to_decimal}

pub record Satpoint : Type 0 where
  -- display order, in hex
  pub txid : List ℕ
  pub vout : ℕ
  pub offset : ℕ

unfoldable pub format_satpoint : Satpoint → List ℕ
format_satpoint sp = sp.txid ++ (b':' ∷ (to_decimal sp.vout ++ (b':' ∷ to_decimal sp.offset)))

abbrev pub max_vout : ℕ
max_vout = 0xffff_ffff

-- The text before the first colon, and after it.
unfoldable pub split_colon : List ℕ → Option (List ℕ × List ℕ)
split_colon [] = none
split_colon (c ∷ cs) =
    let more : Option (List ℕ × List ℕ) = elim (split_colon cs) [
      | none ↦ none
      | some (before, after) ↦ some (c ∷ before, after)
    ] in
    if c == b':' then some ([], cs) else more

-- `\d+` twice, in the two groups behind the txid.
unfoldable pub two_numbers : Option (List ℕ × List ℕ) → Option (List ℕ × List ℕ)
two_numbers none = none
two_numbers (some (before, after)) =
    if is_decimal before && is_decimal after then some (before, after) else none

-- `/^([0-9a-fA-F]{64}):(\d+):(\d+)$/`. A digit is no colon, so the first colon ends the second group.
unfoldable pub match_satpoint : List ℕ → Option (List ℕ × List ℕ)
unfolding two_numbers
match_satpoint s =
    if (length (take 64 s) == 64) && (all_hex (take 64 s) && (get_or s 64 0 == b':'))
    then two_numbers (split_colon (drop 65 s))
    else none

-- `Number` is exact up to 2^53 - 1 and rounds to an unsafe integer above.
unfoldable pub parse_satpoint : List ℕ → Result Satpoint
parse_satpoint s = do
  (vout_text, offset_text) ← or_throw (match_satpoint s) "invalid satpoint"
  let vout = decimal_value vout_text
  require (leb vout max_safe_integer && leb vout max_vout) (failure "satpoint vout out of range")
  ok (record { txid = to_lower_case (take 64 s); vout = vout; offset = decimal_value offset_text })
