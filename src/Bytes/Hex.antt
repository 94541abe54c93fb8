-- ===== src/Bytes/Hex.antt =====
-- Hex strings, byte order and comparison of packages/core/src/bytes.ts.
use ordspv.Common.{
  ℕ, ◌+◌, ◌-◌, ◌*◌, ◌/◌, ◌%◌, ◌<◌, ◌≡◌, refl, ap, ◌∙◌, sym, Bool, true, false, not, ◌&&◌, ◌||◌,
  List, [], ◌∷◌, ◌++◌, reverse, Result, ok, throw, ◌>>=◌, arith, ltb, leb, ◌==◌, if◌then◌else◌,
  length, All, ◌↔◌, Bool-cases, inl, inr,
}
use mathlib.Core.List.{reverse-reverse, reverse-append}

abbrev pub IsByte : ℕ → Type 0
IsByte b = b < 256

-- `/^[0-9a-fA-F]*$/`, a character at a time.
unfoldable pub is_hex_char : ℕ → Bool
is_hex_char c =
    (leb b'0' c && leb c b'9') || (leb b'a' c && leb c b'f') || (leb b'A' c && leb c b'F')

unfoldable pub all_hex : List ℕ → Bool
all_hex [] = true
all_hex (c ∷ cs) = is_hex_char c && all_hex cs

-- The value of one character under `parseInt(_, 16)`.
unfoldable pub hex_value : ℕ → ℕ
hex_value c = if leb c b'9' then c - b'0' else (if leb b'a' c then c - b'a' + 10 else c - b'A' + 10)

-- The loop of `hexToBytes`, two characters a round.
unfoldable pub hex_pairs : List ℕ → List ℕ
hex_pairs [] = []
hex_pairs (a ∷ []) = []
hex_pairs (a ∷ b ∷ rest) = (hex_value a * 16 + hex_value b) ∷ hex_pairs rest

unfoldable pub hex_to_bytes : List ℕ → Result (List ℕ)
hex_to_bytes hex =
    if not (length hex % 2 == 0)
    then throw "hex length must be even"
    else (if all_hex hex then ok (hex_pairs hex) else throw "invalid hex characters")

-- A digit of `toString(16)`.
unfoldable pub hex_char : ℕ → ℕ
hex_char d = if ltb d 10 then b'0' + d else b'a' + (d - 10)

unfoldable pub bytes_to_hex : List ℕ → List ℕ
bytes_to_hex [] = []
bytes_to_hex (b ∷ bs) = hex_char (b / 16) ∷ hex_char (b % 16) ∷ bytes_to_hex bs

abbrev pub reverse_bytes : List ℕ → List ℕ
reverse_bytes = reverse

unfoldable pub display_to_internal : List ℕ → Result (List ℕ)
display_to_internal hex = do bytes ← hex_to_bytes hex; ok (reverse_bytes bytes)

unfoldable pub internal_to_display : List ℕ → List ℕ
internal_to_display bytes = bytes_to_hex (reverse_bytes bytes)

-- The loop of `bytesEqual`, on arrays of one length.
unfoldable pub same_bytes : List ℕ → List ℕ → Bool
same_bytes [] ys = true
same_bytes (x ∷ xs) [] = false
same_bytes (x ∷ xs) (y ∷ ys) = (x == y) && same_bytes xs ys

unfoldable pub bytes_equal : List ℕ → List ℕ → Bool
unfolding same_bytes
bytes_equal a b = (length a == length b) && same_bytes a b

unfoldable pub concat_bytes : List (List ℕ) → List ℕ
concat_bytes [] = []
concat_bytes (a ∷ rest) = a ++ concat_bytes rest

digit_value : (d : ℕ) → d < 16 → (hex_value (hex_char d) ≡ d) × (is_hex_char (hex_char d) ≡ true)
unfolding hex_value hex_char is_hex_char
digit_value d h = ground arith

length-bytes_to_hex : (bs : List ℕ) → length (bytes_to_hex bs) ≡ 2 * length bs
unfolding bytes_to_hex
length-bytes_to_hex [] = omega arith
length-bytes_to_hex (b ∷ bs) = omega (arith, length-bytes_to_hex bs)

hex_pairs-bytes_to_hex :
    (bs : List ℕ)
    → All IsByte bs
    → (hex_pairs (bytes_to_hex bs) ≡ bs) × (all_hex (bytes_to_hex bs) ≡ true)
unfolding hex_pairs bytes_to_hex all_hex
hex_pairs-bytes_to_hex [] h = (refl, refl)
hex_pairs-bytes_to_hex (b ∷ bs) (hb, hbs) = ground (
  arith,
  digit_value (b / 16) (omega arith),
  digit_value (b % 16) (omega arith),
  hex_pairs-bytes_to_hex bs hbs,
)

-- Bytes printed in hex are read back.
pub hex_to_bytes-bytes_to_hex :
    (bs : List ℕ) → All IsByte bs → hex_to_bytes (bytes_to_hex bs) ≡ ok bs
unfolding hex_to_bytes
hex_to_bytes-bytes_to_hex bs h = ground (arith, length-bytes_to_hex bs, hex_pairs-bytes_to_hex bs h)

All-append : (P : ℕ → Type 0) (xs ys : List ℕ) → All P xs → All P ys → All P (xs ++ ys)
All-append P [] ys h k = k
All-append P (x ∷ xs) ys (hx, hxs) k = (hx, All-append P xs ys hxs k)

pub All-reverse : (P : ℕ → Type 0) (xs : List ℕ) → All P xs → All P (reverse xs)
All-reverse P [] h = h
All-reverse P (x ∷ xs) (hx, hxs) =
    rw (reverse-append (x ∷ []) xs)
      (All-append P (reverse xs) (x ∷ []) (All-reverse P xs hxs) (hx, tt))

-- A digest printed in display order is read back in internal order.
pub display_to_internal-internal_to_display :
    (bs : List ℕ) → All IsByte bs → display_to_internal (internal_to_display bs) ≡ ok bs
unfolding display_to_internal internal_to_display
display_to_internal-internal_to_display bs h =
    rw (hex_to_bytes-bytes_to_hex (reverse_bytes bs) (All-reverse IsByte bs h))
      (ap ok (reverse-reverse bs))

same_bytes_iff : (a b : List ℕ) → length a ≡ length b → same_bytes a b ≡ true → a ≡ b
unfolding same_bytes
same_bytes_iff [] [] l h = refl
same_bytes_iff [] (y ∷ ys) l h = absurd (omega arith)
same_bytes_iff (x ∷ xs) [] l h = cc
same_bytes_iff (x ∷ xs) (y ∷ ys) l h = ground (arith, same_bytes_iff xs ys (omega arith))

same_bytes_refl : (a : List ℕ) → same_bytes a a ≡ true
unfolding same_bytes
same_bytes_refl [] = refl
same_bytes_refl (x ∷ xs) = ground (arith, same_bytes_refl xs)

-- `bytesEqual` decides equality of arrays.
pub bytes_equal_iff : (a b : List ℕ) → (bytes_equal a b ≡ true) ↔ (a ≡ b)
unfolding bytes_equal
bytes_equal_iff a b = (
  λ h. same_bytes_iff a b (ground arith) (ground arith),
  λ e. rw (← e) (ground (arith, same_bytes_refl a)),
)

pub bytes_equal_comm : (a b : List ℕ) → bytes_equal a b ≡ bytes_equal b a
bytes_equal_comm a b =
    let there = bytes_equal_iff a b in
    let back = bytes_equal_iff b a in
    elim (Bool-cases (bytes_equal a b)) [
      | inl h ↦ h ∙ sym (back.1 (sym (there.0 h)))
      | inr h ↦ elim (Bool-cases (bytes_equal b a)) [
        | inl k ↦ absurd (let same = there.1 (sym (back.0 k)) in cc)
        | inr k ↦ h ∙ sym k
      ]
    ]
