-- ===== src/Text.antt =====
-- What the program uses of strings: lower case, and decimal numbers in template literals, `Number`
-- and `BigInt`. A string is a list of character codes; the program's strings are ASCII where it
-- looks into them.
use ordspv.Common.{
  ℕ, zero, suc, ◌+◌, ◌-◌, ◌*◌, ◌/◌, ◌%◌, ◌≤◌, ◌<◌, ◌≡◌, refl, ap, ◌∙◌, Bool, true, false, not, ◌&&◌,
  ◌||◌, reverse, List, [], ◌∷◌, map, foldl, arith, ltb, leb, ◌==◌, if◌then◌else◌, Bool-cases, inl,
  inr, ltb→lt, ltb→ge, ◌++◌, &&-parts,
}

-- `toLowerCase`
unfoldable pub lower_char : ℕ → ℕ
lower_char c = if leb b'A' c && leb c b'Z' then c + 32 else c

unfoldable pub to_lower_case : List ℕ → List ℕ
to_lower_case = map lower_char

unfoldable pub is_digit : ℕ → Bool
is_digit c = leb b'0' c && leb c b'9'

unfoldable pub all_digits : List ℕ → Bool
all_digits [] = true
all_digits (c ∷ cs) = is_digit c && all_digits cs

-- `\d+`
unfoldable pub is_decimal : List ℕ → Bool
unfolding all_digits
is_decimal [] = false
is_decimal (c ∷ cs) = is_digit c && all_digits cs

-- `(0|[1-9][0-9]*)`
unfoldable pub is_canonical_decimal : List ℕ → Bool
is_canonical_decimal [] = false
is_canonical_decimal (c ∷ []) = is_digit c
is_canonical_decimal (c ∷ d ∷ rest) = is_digit c && (not (c == b'0') && all_digits (d ∷ rest))

-- `Number(digits)` and `BigInt(digits)`, exactly.
unfoldable pub decimal_value : List ℕ → ℕ
decimal_value = foldl (λ v c. v * 10 + (c - b'0')) 0

unfoldable pub decimal_loop : ℕ → ℕ → List ℕ → List ℕ
decimal_loop zero n text = (b'0' + n % 10) ∷ text
decimal_loop (suc fuel) n text =
    let more = decimal_loop fuel (n / 10) ((b'0' + n % 10) ∷ text) in
    if ltb n 10 then (b'0' + n % 10) ∷ text else more

-- A natural number in a template literal. Each round drops a digit, so `n` rounds are enough.
unfoldable pub to_decimal : ℕ → List ℕ
to_decimal n = decimal_loop n n []

-- The white space and line ends of ECMAScript.
unfoldable pub is_space : ℕ → Bool
is_space c =
    (leb 9 c && leb c 13)
    || ((c == 32)
        || ((c == 0xa0)
            || ((c == 0x1680)
                || ((leb 0x2000 c && leb c 0x200a)
                    || ((c == 0x2028)
                        || ((c == 0x2029)
                            || ((c == 0x202f)
                                || ((c == 0x205f) || ((c == 0x3000) || (c == 0xfeff))))))))))

unfoldable pub trim_start : List ℕ → List ℕ
unfolding is_space
trim_start [] = []
trim_start (c ∷ cs) = if is_space c then trim_start cs else c ∷ cs

unfoldable pub trim : List ℕ → List ℕ
unfolding trim_start
trim s = reverse (trim_start (reverse (trim_start s)))

digits_from : ℕ → List ℕ → ℕ
digits_from = foldl (λ v c. v * 10 + (c - b'0'))

decimal_loop-value :
    (f n : ℕ) (text : List ℕ) → n ≤ f → digits_from 0 (decimal_loop f n text) ≡ digits_from n text
unfolding decimal_loop digits_from
decimal_loop-value zero n text h =
    let e : 0 * 10 + (b'0' + n % 10 - b'0') ≡ n = omega arith in
    ap (λ (t : ℕ). digits_from t text) e
decimal_loop-value (suc f) n text h = elim (Bool-cases (ltb n 10)) [
  | inl small ↦
      let e : 0 * 10 + (b'0' + n % 10 - b'0') ≡ n = omega (arith, ltb→lt _ _ small) in
      rw small (ap (λ (t : ℕ). digits_from t text) e)
  | inr big ↦
      let ih =
        decimal_loop-value f (n / 10) ((b'0' + n % 10) ∷ text) (omega (arith, ltb→ge _ _ big)) in
      let e : n / 10 * 10 + (b'0' + n % 10 - b'0') ≡ n = omega arith in
      rw big (ih ∙ ap (λ (t : ℕ). digits_from t text) e)
]

-- A printed number is read back.
pub decimal_value-to_decimal : (n : ℕ) → decimal_value (to_decimal n) ≡ n
unfolding decimal_value to_decimal
decimal_value-to_decimal n = unfold digits_from in decimal_loop-value n n [] (omega arith)

digit_of : (n : ℕ) → is_digit (b'0' + n % 10) ≡ true
unfolding is_digit
digit_of n = ground arith

decimal_loop-digits :
    (f n : ℕ) (text : List ℕ) → all_digits text ≡ true → all_digits (decimal_loop f n text) ≡ true
unfolding decimal_loop all_digits
decimal_loop-digits zero n text h = rw digit_of h
decimal_loop-digits (suc f) n text h =
    ground (arith, digit_of n, decimal_loop-digits f (n / 10) ((b'0' + n % 10) ∷ text))

all_digits_cons :
    (c : ℕ) (cs : List ℕ) → is_digit c ≡ true → all_digits cs ≡ true → all_digits (c ∷ cs) ≡ true
unfolding all_digits
all_digits_cons c cs h k = rw (h, k)

-- The first digit of a number of several digits is not 0.
decimal_loop-canonical :
    (f n : ℕ) (c : ℕ) (text : List ℕ)
    → n ≤ f
    → 0 < n
    → all_digits (c ∷ text) ≡ true
    → is_canonical_decimal (decimal_loop f n (c ∷ text)) ≡ true
unfolding decimal_loop is_canonical_decimal
decimal_loop-canonical zero n c text le pos h = absurd (omega arith)
decimal_loop-canonical (suc f) n c text le pos h =
    let here = digit_of n in
    let rest = all_digits_cons (b'0' + n % 10) (c ∷ text) here h in
    ground (arith, here, rest, decimal_loop-canonical f (n / 10) (b'0' + n % 10) (c ∷ text))

-- A number prints in the canonical decimal form.
pub to_decimal-canonical : (n : ℕ) → is_canonical_decimal (to_decimal n) ≡ true
unfolding to_decimal decimal_loop is_canonical_decimal is_digit all_digits
to_decimal-canonical zero = refl
to_decimal-canonical (suc m) =
    ground (arith, decimal_loop-canonical m (suc m / 10) (b'0' + suc m % 10) [])

pub to_lower_case-append :
    (s t : List ℕ) → to_lower_case (s ++ t) ≡ to_lower_case s ++ to_lower_case t
unfolding to_lower_case
to_lower_case-append [] t = refl
to_lower_case-append (c ∷ cs) t = ap (◌∷◌ (lower_char c)) (to_lower_case-append cs t)

lower_char_idem : (c : ℕ) → lower_char (lower_char c) ≡ lower_char c
unfolding lower_char
lower_char_idem c = ground arith

pub to_lower_case_idem : (s : List ℕ) → to_lower_case (to_lower_case s) ≡ to_lower_case s
unfolding to_lower_case
to_lower_case_idem [] = refl
to_lower_case_idem (c ∷ cs) = rw (lower_char_idem c, to_lower_case_idem cs) refl

lower_digit : (c : ℕ) → is_digit c ≡ true → lower_char c ≡ c
unfolding lower_char is_digit
lower_digit c h = ground arith

pub to_lower_case-digits : (s : List ℕ) → all_digits s ≡ true → to_lower_case s ≡ s
unfolding to_lower_case all_digits
to_lower_case-digits [] h = refl
to_lower_case-digits (c ∷ cs) h =
    let (d, ds) = &&-parts (is_digit c) _ h in rw (lower_digit c d, to_lower_case-digits cs ds) refl

pub to_decimal-digits : (n : ℕ) → all_digits (to_decimal n) ≡ true
unfolding to_decimal
to_decimal-digits n = decimal_loop-digits n n [] (unfold all_digits in refl)

nonempty_digits :
    (s : List ℕ) → is_canonical_decimal s ≡ true → all_digits s ≡ true → is_decimal s ≡ true
unfolding is_decimal is_canonical_decimal all_digits
nonempty_digits [] h k = cc
nonempty_digits (c ∷ cs) h k = k

pub to_decimal-is_decimal : (n : ℕ) → is_decimal (to_decimal n) ≡ true
to_decimal-is_decimal n =
    nonempty_digits (to_decimal n) (to_decimal-canonical n) (to_decimal-digits n)
