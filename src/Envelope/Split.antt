-- ===== src/Envelope/Split.antt =====
-- Theorems on `splitPayload` of packages/core/src/envelope.ts: no item of the payload is lost.
use ordspv.Common.{
  ℕ, ◌≡◌, refl, ap, Bool, true, false, List, [], ◌∷◌, ◌++◌, Option, none, some, All,
}
use ordspv.Envelope.Payload.{Field, split_loop, split_payload}

-- The fields as the payload holds them.
abbrev pub flatten : List Field → List (List ℕ)
flatten [] = []
flatten ((tag, value) ∷ rest) = tag ∷ value ∷ flatten rest

-- What stands behind the fields: nothing, the separator and the body, or a tag without a value.
pub data Tail : Option (List (List ℕ)) → Bool → List (List ℕ) → Type 0 where
  tail_none : Tail none false []
  tail_body : {chunks : List (List ℕ)} → Tail (some chunks) false ([] ∷ chunks)
  tail_dangling : {t : ℕ} {ts : List ℕ} → Tail none true ((t ∷ ts) ∷ [])

abbrev pub HasTag : Field → Type 0
HasTag f = (t : ℕ) × (ts : List ℕ) × (f.0 ≡ t ∷ ts)

split_loop-whole :
    (payload : List (List ℕ))
    → (rest : List (List ℕ)) × (payload ≡ flatten (split_loop payload).fields ++ rest)
      × Tail (split_loop payload).body_chunks (split_loop payload).incomplete_field rest
      × All HasTag (split_loop payload).fields
unfolding split_loop
split_loop-whole [] = ([], refl, tail_none, tt)
split_loop-whole ([] ∷ rest) = ([] ∷ rest, refl, tail_body, tt)
split_loop-whole ((t ∷ ts) ∷ []) = ((t ∷ ts) ∷ [], refl, tail_dangling, tt)
split_loop-whole ((t ∷ ts) ∷ value ∷ rest) =
    let (tail, same, kind, tags) = split_loop-whole rest in
    (tail, ap (λ (p : List (List ℕ)). (t ∷ ts) ∷ value ∷ p) same, kind, ((t, ts, refl), tags))

-- A payload is its fields, each under a tag that is not empty, and behind them nothing, the empty
-- separator with the body chunks, or the one tag that the incomplete flag reports.
pub split_payload-whole :
    (payload : List (List ℕ))
    → (rest : List (List ℕ)) × (payload ≡ flatten (split_payload payload).fields ++ rest)
      × Tail (split_payload payload).body_chunks (split_payload payload).incomplete_field rest
      × All HasTag (split_payload payload).fields
unfolding split_payload
split_payload-whole payload = split_loop-whole payload
