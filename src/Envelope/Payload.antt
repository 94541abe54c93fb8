-- ===== src/Envelope/Payload.antt =====
-- `splitPayload` and the field decoders of packages/core/src/envelope.ts.
use ordspv.Common.{
  ℕ, ◌+◌, ◌*◌, ◌-◌, Bool, true, false, not, ◌&&◌, ◌||◌, List, [], ◌∷◌, Option, none, some, foldr,
  ltb, ◌==◌, if◌then◌else◌, length, take, drop, get_or, min,
}
use ordspv.Bytes.Hex.{bytes_equal, internal_to_display}
use ordspv.InscriptionId.{format_inscription_id}
use ordspv.Tx.Types.{all_zero}

abbrev pub Field : Type 0
Field = List ℕ × List ℕ

pub record EnvelopeFields : Type 0 where
  pub fields : List Field
  pub body_chunks : Option (List (List ℕ))
  pub incomplete_field : Bool
  pub duplicate_field : Bool

-- What the loop over the payload collects.
pub record Split : Type 0 where
  pub fields : List Field
  pub body_chunks : Option (List (List ℕ))
  pub incomplete_field : Bool

abbrev pub body_of : List (List ℕ) → Split
body_of chunks = record { fields = []; body_chunks = some chunks; incomplete_field = false }

abbrev pub with_field : List ℕ → List ℕ → Split → Split
with_field tag value s = record s { fields = (tag, value) ∷ s.fields }

-- An empty item in tag position separates the body.
unfoldable pub split_loop : List (List ℕ) → Split
split_loop [] = record { fields = []; body_chunks = none; incomplete_field = false }
split_loop ([] ∷ rest) = body_of rest
split_loop ((t ∷ ts) ∷ []) = record { fields = []; body_chunks = none; incomplete_field = true }
split_loop ((t ∷ ts) ∷ value ∷ rest) = with_field (t ∷ ts) value (split_loop rest)

unfoldable pub has_tag : List ℕ → List (List ℕ) → Bool
has_tag tag [] = false
has_tag tag (s ∷ seen) = bytes_equal s tag || has_tag tag seen

-- The loop over the fields with the set of the tags seen so far.
unfoldable pub duplicate_loop : List Field → List (List ℕ) → Bool
unfolding has_tag
duplicate_loop [] seen = false
duplicate_loop ((tag, value) ∷ rest) seen = has_tag tag seen || duplicate_loop rest (tag ∷ seen)

unfoldable pub split_payload : List (List ℕ) → EnvelopeFields
unfolding split_loop duplicate_loop
split_payload payload =
    let s = split_loop payload in
    record {
      fields = s.fields;
      body_chunks = s.body_chunks;
      incomplete_field = s.incomplete_field;
      duplicate_field = duplicate_loop s.fields [];
    }

-- 32 bytes of txid and up to 4 little-endian index bytes. A trailing zero index byte is refused in
-- the forms of 1 to 3 index bytes.
unfoldable pub parse_inscription_id_value : List ℕ → Option (List ℕ)
parse_inscription_id_value value =
    let index_len = length value - 32 in
    let last = get_or value (length value - 1) 0 in
    if ltb (length value) 32 || ltb 36 (length value)
    then none
    else (if not (index_len == 0) && (not (index_len == 4) && last == 0)
        then none
        else some (
            format_inscription_id (internal_to_display (take 32 value))
              (foldr (λ b v. v * 256 + b) 0 (drop 32 value))))

-- A little-endian u64; bytes beyond the eighth must be zero.
unfoldable pub decode_le_u64_trimmed : List ℕ → Option ℕ
unfolding all_zero
decode_le_u64_trimmed value =
    if all_zero (drop 8 value)
    then some (foldr (λ b v. v * 256 + b) 0 (take (min (length value) 8) value))
    else none
