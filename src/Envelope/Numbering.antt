-- ===== src/Envelope/Numbering.antt =====
-- Theorems on `parseEnvelopesFromTx` of packages/core/src/envelope.ts: how envelopes are numbered.
use ordspv.Common.{
  ℕ, zero, suc, ◌+◌, ◌-◌, ◌≡◌, refl, sym, ap, inl, inr, arith, true, false, List, [], ◌∷◌, ◌++◌,
  some, Bool-cases, ltb, if◌then◌else◌, length, get_elem?, ltb→ge, some-injective,
}
use ordspv.Envelope.Number.{
  RawEnvelope, number_envelopes, input_envelopes, envelopes_loop, parse_envelopes_from_tx,
}
use ordspv.Envelope.Scan.{ScriptEnvelope}
use ordspv.Tx.Types.{TxInput, ParsedTx}

-- An envelope without its number.
abbrev pub unnumbered : RawEnvelope → ScriptEnvelope
unnumbered e = record { payload = e.payload; pushnum = e.pushnum; stutter = e.stutter }

get-append :
    {A : Type 0} (xs ys : List A) (i : ℕ)
    → get_elem? (xs ++ ys) i
      ≡ (if ltb i (length xs) then get_elem? xs i else get_elem? ys (i - length xs))
get-append [] ys i =
    let e : i - 0 ≡ i = omega arith in let f : ltb i 0 ≡ false = ground arith in rw (e, f) refl
get-append (x ∷ xs) ys zero = let f : ltb 0 (suc (length xs)) ≡ true = ground arith in rw f refl
get-append (x ∷ xs) ys (suc i) =
    let e : suc i - suc (length xs) ≡ i - length xs = omega arith in
    let f : ltb (suc i) (suc (length xs)) ≡ ltb i (length xs) = ground arith in
    rw (e, f) (get-append xs ys i)

length-number_envelopes :
    (vin offset index : ℕ) (es : List ScriptEnvelope)
    → length (number_envelopes vin offset index es) ≡ length es
unfolding number_envelopes
length-number_envelopes vin offset index [] = refl
length-number_envelopes vin offset index (e ∷ es) =
    ap suc (length-number_envelopes vin (offset + 1) (index + 1) es)

number_envelopes-at :
    (vin offset index : ℕ) (es : List ScriptEnvelope) (i : ℕ) (e : RawEnvelope)
    → get_elem? (number_envelopes vin offset index es) i ≡ some e
    → (e.index ≡ index + i)
      × (e.input ≡ vin)
      × (e.offset_in_input ≡ offset + i)
      × (get_elem? es i ≡ some (unnumbered e))
unfolding number_envelopes
number_envelopes-at vin offset index [] i e h = cc
number_envelopes-at vin offset index (x ∷ es) zero e h =
    let same = some-injective h in
    let a = ap (λ (r : RawEnvelope). r.index) same in
    let b = ap (λ (r : RawEnvelope). r.input) same in
    let c = ap (λ (r : RawEnvelope). r.offset_in_input) same in
    (omega (arith, a), sym b, omega (arith, c), ap (λ (r : RawEnvelope). some (unnumbered r)) same)
number_envelopes-at vin offset index (x ∷ es) (suc i) e h =
    let (a, b, c, d) = number_envelopes-at vin (offset + 1) (index + 1) es i e h in
    (omega (arith, a), b, omega (arith, c), d)

-- The envelope at place `i` of a transaction's list: its index is `i`, and its input and its offset
-- name where it was found.
pub record Numbered (inputs : List TxInput) (vin index i : ℕ) (e : RawEnvelope) : Type 0 where
  pub index_is : e.index ≡ index + i
  pub place : ℕ
  pub input_is : e.input ≡ vin + place
  pub source : TxInput
  pub source_at : get_elem? inputs place ≡ some source
  pub found_at : get_elem? (input_envelopes source) e.offset_in_input ≡ some (unnumbered e)

envelopes_loop-Numbered :
    (vin index : ℕ) (inputs : List TxInput) (i : ℕ) (e : RawEnvelope)
    → get_elem? (envelopes_loop vin index inputs) i ≡ some e
    → Numbered inputs vin index i e
unfolding envelopes_loop
envelopes_loop-Numbered vin index [] i e h = cc
envelopes_loop-Numbered vin index (x ∷ rest) i e h =
    let found = input_envelopes x in
    let first = number_envelopes vin 0 index found in
    let others = envelopes_loop (vin + 1) (index + length found) rest in
    let len = length-number_envelopes vin 0 index found in
    let split = get-append first others i in
    elim (Bool-cases (ltb i (length first))) [
      | inl here ↦
          let at : get_elem? first i ≡ some e = rw (split, here) at h in
          let (a, b, c, d) = number_envelopes-at vin 0 index found i e at in
          let off : e.offset_in_input ≡ i = omega (arith, c) in
          record {
            index_is = a;
            place = 0;
            input_is = omega (arith, b);
            source = x;
            source_at = refl;
            found_at = rw off d;
          }
      | inr later ↦
          let at : get_elem? others (i - length first) ≡ some e = rw (split, later) at h in
          let n =
            envelopes_loop-Numbered (vin + 1) (index + length found) rest (i - length first) e at in
          record {
            index_is = omega (arith, n.index_is, len, ltb→ge _ _ later);
            place = suc n.place;
            input_is = omega (arith, n.input_is);
            source = n.source;
            source_at = n.source_at;
            found_at = n.found_at;
          }
    ]

-- The envelope at place `i` of what a transaction's parse answers has the index `i`, and it is the
-- envelope at its own offset among those of the input that it names.
pub parse_envelopes-Numbered :
    (tx : ParsedTx) (i : ℕ) (e : RawEnvelope)
    → get_elem? (parse_envelopes_from_tx tx) i ≡ some e
    → Numbered tx.inputs 0 0 i e
unfolding parse_envelopes_from_tx
parse_envelopes-Numbered tx i e h = envelopes_loop-Numbered 0 0 tx.inputs i e h
