-- ===== src/InscriptionId/Agree.antt =====
-- The validators of packages/core/src/inscriptionId.ts agree with its parser.
use ordspv.Common.{
  ℕ, ◌≡◌, refl, sym, ap, ◌∙◌, ◌↔◌, ◌⊎◌, inl, inr, true, List, none, some, ok, throw, Option-cases,
  ◌==◌, ==_iff, length, take, drop, &&-parts, Bool-cases, some-injective, throw-injective, String,
}
use ordspv.Bytes.Hex.{display_to_internal, reverse_bytes, hex_pairs}
use ordspv.InscriptionId.{
  InscriptionId, IdRejection, all_lower_hex, matches_id, rejection_for, message_for,
  parse_inscription_id, is_inscription_id, inscription_id_error,
}
use ordspv.InscriptionId.RoundTrip.{display_to_internal-hex}
use ordspv.Text.{to_lower_case, decimal_value}

rejection_none-shape : (s : List ℕ) → rejection_for s ≡ none → matches_id s ≡ true
unfolding rejection_for
rejection_none-shape s h = elim (Bool-cases (matches_id s)) [
  | inl good ↦ good
  | inr bad ↦ cc (rw bad at h)
]

matched-bytes :
    (s : List ℕ)
    → matches_id s ≡ true
    → display_to_internal (take 64 s) ≡ ok (reverse_bytes (hex_pairs (take 64 s)))
unfolding matches_id
matched-bytes s h =
    let (a, h1) = &&-parts (length (take 64 s) == 64) _ h in
    let (b, _) = &&-parts (all_lower_hex (take 64 s)) _ h1 in
    display_to_internal-hex (take 64 s) ((==_iff _ _).0 a) b

-- The parser answers exactly where no rejection holds, and throws the rejection's message else.
parse-cases :
    (s : List ℕ)
    → ((id : InscriptionId) × (rejection_for (to_lower_case s) ≡ none)
        × (parse_inscription_id s ≡ ok id))
      ⊎ ((r : IdRejection) × (rejection_for (to_lower_case s) ≡ some r)
          × (parse_inscription_id s ≡ throw (message_for r)))
unfolding parse_inscription_id
parse-cases s = elim (Option-cases (rejection_for (to_lower_case s))) [
  | inl fine ↦
      let normalized = to_lower_case s in
      let bytes = reverse_bytes (hex_pairs (take 64 normalized)) in
      let id : InscriptionId = record {
        txid = take 64 normalized;
        txid_le = bytes;
        index = decimal_value (drop 65 normalized);
      } in
      inl
        (id, fine, rw (fine, matched-bytes normalized (rejection_none-shape normalized fine)) refl)
  | inr (r, e) ↦ inr (r, e, rw e refl)
]

-- `isInscriptionId` accepts exactly the strings that parse, and `inscriptionIdError` answers exactly
-- the message that the parser throws.
pub is_inscription_id-parse :
    (s : List ℕ)
    → ((is_inscription_id s ≡ true) ↔ ((id : InscriptionId) × (parse_inscription_id s ≡ ok id)))
      × ((m : String) → (inscription_id_error s ≡ some m) ↔ (parse_inscription_id s ≡ throw m))
unfolding is_inscription_id inscription_id_error
is_inscription_id-parse s = elim (parse-cases s) [
  | inl (id, fine, e) ↦
      rw fine (((λ _. (id, e)), (λ _. refl)), (λ m. ((λ h. cc h), (λ h. cc (e, h)))))
  | inr (r, bad, e) ↦ rw bad (
    ((λ h. cc h), (λ (id, f). cc (e, f))),
    (λ m. ((λ h. e ∙ ap throw (some-injective h)), (λ h. ap some (throw-injective (sym e ∙ h))))),
  )
]
