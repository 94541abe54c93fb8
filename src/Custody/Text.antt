-- ===== src/Custody/Text.antt =====
-- `formatSatpoint` and `parseSatpoint` of packages/core/src/custody.ts are inverse.
use ordspv.Common.{
  ℕ, suc, ◌≤◌, ◌≡◌, refl, subst, arith, true, false, List, [], ◌∷◌, ◌++◌, some, ok, leb, ◌==◌,
  length, take, drop, get_or, &&-parts, take-length-append, get_or-append, drop_after,
}
use ordspv.Bytes.Hex.{all_hex}
use ordspv.Bytes.Reader.{max_safe_integer}
use ordspv.Custody.Satpoint.{
  Satpoint, format_satpoint, max_vout, split_colon, two_numbers, match_satpoint, parse_satpoint,
}
use ordspv.Text.{
  to_lower_case, is_digit, all_digits, to_decimal, to_decimal-digits, to_decimal-is_decimal,
  decimal_value-to_decimal,
}

digit_no_colon : (c : ℕ) → is_digit c ≡ true → (c == b':') ≡ false
unfolding is_digit
digit_no_colon c h = ground arith

split_colon-digits :
    (digits rest : List ℕ)
    → all_digits digits ≡ true
    → split_colon (digits ++ (b':' ∷ rest)) ≡ some (digits, rest)
unfolding split_colon all_digits
split_colon-digits [] rest h = refl
split_colon-digits (c ∷ cs) rest h =
    let (d, ds) = &&-parts (is_digit c) _ h in
    rw (split_colon-digits cs rest ds, digit_no_colon c d) refl

match_satpoint-text :
    (txid : List ℕ) (vout offset : ℕ)
    → length txid ≡ 64
    → all_hex txid ≡ true
    → match_satpoint (txid ++ (b':' ∷ (to_decimal vout ++ (b':' ∷ to_decimal offset))))
      ≡ some (to_decimal vout, to_decimal offset)
unfolding match_satpoint two_numbers
match_satpoint-text txid vout offset len hex =
    let rest = to_decimal vout ++ (b':' ∷ to_decimal offset) in
    let s = txid ++ (b':' ∷ rest) in
    let a : take 64 s ≡ txid =
      subst (λ n. take n s ≡ txid) len (take-length-append txid (b':' ∷ rest)) in
    let b : get_or s 64 0 ≡ b':' =
      subst (λ n. get_or s n 0 ≡ b':') len (get_or-append txid b':' rest 0) in
    let c : drop 65 s ≡ rest = subst (λ n. drop (suc n) s ≡ rest) len (drop_after txid b':' rest) in
    let split = split_colon-digits (to_decimal vout) (to_decimal offset) (to_decimal-digits vout) in
    rw (a, b, c, len, hex, split, to_decimal-is_decimal vout, to_decimal-is_decimal offset) refl

vout_fits :
    (vout : ℕ) → vout ≤ max_vout → (leb vout max_safe_integer ≡ true) × (leb vout max_vout ≡ true)
vout_fits vout fits = (ground arith, ground arith)

-- The text of a satpoint whose txid is 64 hex digits, in either case, and whose output index has 32
-- bits parses back to it, with the txid in lower case; the offset has no bound.
pub parse-format_satpoint :
    (sp : Satpoint)
    → length sp.txid ≡ 64
    → all_hex sp.txid ≡ true
    → sp.vout ≤ max_vout
    → parse_satpoint (format_satpoint sp)
      ≡ ok (record { txid = to_lower_case sp.txid; vout = sp.vout; offset = sp.offset })
unfolding parse_satpoint format_satpoint
parse-format_satpoint sp len hex fits =
    let rest = to_decimal sp.vout ++ (b':' ∷ to_decimal sp.offset) in
    let a : take 64 (sp.txid ++ (b':' ∷ rest)) ≡ sp.txid =
      subst (λ n. take n (sp.txid ++ (b':' ∷ rest)) ≡ sp.txid) len
        (take-length-append sp.txid (b':' ∷ rest)) in
    let (safe, narrow) = vout_fits sp.vout fits in
    rw
      (
        match_satpoint-text sp.txid sp.vout sp.offset len hex,
        decimal_value-to_decimal sp.vout,
        decimal_value-to_decimal sp.offset,
        a,
        safe,
        narrow,
      )
      refl
