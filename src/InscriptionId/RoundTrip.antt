-- ===== src/InscriptionId/RoundTrip.antt =====
-- `formatInscriptionId` and `parseInscriptionId` of packages/core/src/inscriptionId.ts are inverse.
use ordspv.Common.{
  ℕ, suc, ◌≤◌, ◌≡◌, refl, ap, ◌∙◌, arith, true, false, List, [], ◌∷◌, ◌++◌, none, ok, leb, ltb,
  length, take, drop, get_or, length-map, take-length-append, &&-parts, get_or-append, drop_after,
  subst,
}
use ordspv.Bytes.Hex.{
  is_hex_char, all_hex, hex_to_bytes, display_to_internal, hex_pairs, reverse_bytes,
}
use ordspv.Bytes.Reader.{max_safe_integer}
use ordspv.InscriptionId.{
  is_lower_hex, all_lower_hex, matches_id, max_index, rejection_for, parse_inscription_id,
  format_inscription_id,
}
use ordspv.Text.{
  lower_char, to_lower_case, is_digit, all_digits, to_decimal, to_lower_case-append,
  to_lower_case_idem, to_lower_case-digits, to_decimal-digits, to_decimal-canonical,
  decimal_value-to_decimal,
}

lower_hex_char : (c : ℕ) → is_hex_char c ≡ true → is_lower_hex (lower_char c) ≡ true
unfolding is_hex_char is_lower_hex is_digit lower_char
lower_hex_char c h = ground arith

pub all_lower_hex-to_lower_case :
    (s : List ℕ) → all_hex s ≡ true → all_lower_hex (to_lower_case s) ≡ true
unfolding all_hex all_lower_hex to_lower_case
all_lower_hex-to_lower_case [] h = refl
all_lower_hex-to_lower_case (c ∷ cs) h =
    let (a, b) = &&-parts (is_hex_char c) _ h in
    rw (lower_hex_char c a, all_lower_hex-to_lower_case cs b) refl

lower_is_hex : (c : ℕ) → is_lower_hex c ≡ true → is_hex_char c ≡ true
unfolding is_hex_char is_lower_hex is_digit
lower_is_hex c h = ground arith

pub all_hex-lower : (s : List ℕ) → all_lower_hex s ≡ true → all_hex s ≡ true
unfolding all_hex all_lower_hex
all_hex-lower [] h = refl
all_hex-lower (c ∷ cs) h =
    let (a, b) = &&-parts (is_lower_hex c) _ h in rw (lower_is_hex c a, all_hex-lower cs b) refl

pub display_to_internal-hex :
    (s : List ℕ)
    → length s ≡ 64
    → all_lower_hex s ≡ true
    → display_to_internal s ≡ ok (reverse_bytes (hex_pairs s))
unfolding display_to_internal hex_to_bytes
display_to_internal-hex s len h = rw (len, all_hex-lower s h) refl

-- The parts of a normalized id.
id_text-parts :
    (txid dec : List ℕ)
    → length txid ≡ 64
    → (take 64 (txid ++ (b'i' ∷ dec)) ≡ txid)
      × (get_or (txid ++ (b'i' ∷ dec)) 64 0 ≡ b'i')
      × (drop 65 (txid ++ (b'i' ∷ dec)) ≡ dec)
id_text-parts txid dec len =
    let s = txid ++ (b'i' ∷ dec) in
    (
      subst (λ n. take n s ≡ txid) len (take-length-append txid (b'i' ∷ dec)),
      subst (λ n. get_or s n 0 ≡ b'i') len (get_or-append txid b'i' dec 0),
      subst (λ n. drop (suc n) s ≡ dec) len (drop_after txid b'i' dec),
    )

index_fits :
    (index : ℕ)
    → index ≤ max_index
    → (leb index max_safe_integer ≡ true) × (ltb max_index index ≡ false)
index_fits index fits = (ground arith, ground arith)

rejection_for-id :
    (txid : List ℕ) (index : ℕ)
    → length txid ≡ 64
    → all_lower_hex txid ≡ true
    → index ≤ max_index
    → rejection_for (txid ++ (b'i' ∷ to_decimal index)) ≡ none
unfolding rejection_for matches_id
rejection_for-id txid index len hex fits =
    let (a, b, c) = id_text-parts txid (to_decimal index) len in
    let (safe, narrow) = index_fits index fits in
    rw (a, b, c, len, hex, to_decimal-canonical index, decimal_value-to_decimal index, safe, narrow)
      refl

lower_tail : (dec : List ℕ) → all_digits dec ≡ true → to_lower_case (b'i' ∷ dec) ≡ b'i' ∷ dec
lower_tail dec h = unfold to_lower_case lower_char in ap (◌∷◌ b'i') (to_lower_case-digits dec h)

-- The id printed for a txid of 64 hex digits, in either case, and an index of 32 bits parses back to
-- the txid in lower case, its bytes in internal order, and the index.
pub parse-format_inscription_id :
    (txid : List ℕ) (index : ℕ)
    → length txid ≡ 64
    → all_hex txid ≡ true
    → index ≤ max_index
    → (txid_le : List ℕ) × (display_to_internal (to_lower_case txid) ≡ ok txid_le)
      × (parse_inscription_id (format_inscription_id txid index)
          ≡ ok (record { txid = to_lower_case txid; txid_le = txid_le; index = index }))
unfolding parse_inscription_id format_inscription_id
parse-format_inscription_id txid index len hex fits =
    let low = to_lower_case txid in
    let dec = to_decimal index in
    let low_len : length low ≡ 64 = unfold to_lower_case in length-map txid lower_char ∙ len in
    let low_hex = all_lower_hex-to_lower_case txid hex in
    let bytes = display_to_internal-hex low low_len low_hex in
    let (a, b, c) = id_text-parts low dec low_len in
    let tail : to_lower_case (b'i' ∷ dec) ≡ b'i' ∷ dec = lower_tail dec (to_decimal-digits index) in
    let same : to_lower_case (low ++ (b'i' ∷ dec)) ≡ low ++ (b'i' ∷ dec) =
      rw (to_lower_case-append, to_lower_case_idem txid, tail) refl in
    (
      reverse_bytes (hex_pairs low),
      bytes,
      rw
          (
            same,
            rejection_for-id low index low_len low_hex fits,
            a,
            c,
            bytes,
            decimal_value-to_decimal index,
          )
          refl,
    )
