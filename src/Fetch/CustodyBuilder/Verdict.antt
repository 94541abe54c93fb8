-- ===== src/Fetch/CustodyBuilder/Verdict.antt =====
-- What `verifyCustodyBundle` may refuse of a bundle of `buildCustodyBundle` in
-- packages/fetch/src/custodybuilder.ts.
use mathlib.Core.List.{Memᴰ}
use mathlib.Core.List.Memᴰ
use ordspv.Common.{
  ℕ, ◌≡◌, ◌⊎◌, inl, inr, true, List, [], ◌∷◌, some, Error, failure, custody_unsupported, Result, ok,
  err,
}
use ordspv.Custody.Bundle.{CustodyHop}
use ordspv.Tx.Types.{ParsedTx, is_coinbase}
use ordspv.Witness.{parse_hop_tx}

-- The tests of the verifier that the builder does not make, each at one of the hops: a transaction
-- that repeats, a coinbase, and an offset that is not inside the value that is spent.
pub data Unmade (sha256 : List ℕ → List ℕ) (hops : List CustodyHop) : Error → Type 0 where
  repeated :
      {e : Error} (hop : CustodyHop)
      → Memᴰ hop hops
      → e ≡ failure "duplicate transaction"
      → Unmade sha256 hops e
  of_coinbase :
      {e : Error} (hop : CustodyHop) (tx : ParsedTx)
      → Memᴰ hop hops
      → parse_hop_tx sha256 hop.hex ≡ ok tx
      → is_coinbase tx ≡ true
      → e ≡ custody_unsupported (some hop.block.height)
      → Unmade sha256 hops e
  outside :
      {e : Error} (hop : CustodyHop)
      → Memᴰ hop hops
      → e ≡ failure "tracked offset outside spent output value"
      → Unmade sha256 hops e

pub Unmade-more :
    (sha256 : List ℕ → List ℕ) (hops more : List CustodyHop) {e : Error}
    → ((hop : CustodyHop) → Memᴰ hop hops → Memᴰ hop more)
    → Unmade sha256 hops e
    → Unmade sha256 more e
Unmade-more sha256 hops more f (repeated hop m h) = repeated hop (f hop m) h
Unmade-more sha256 hops more f (of_coinbase hop tx m parsed is_one h) =
    of_coinbase hop tx (f hop m) parsed is_one h
Unmade-more sha256 hops more f (outside hop m h) = outside hop (f hop m) h

pub Unmade-later :
    (sha256 : List ℕ → List ℕ) (hop : CustodyHop) (hops : List CustodyHop) {e : Error}
    → Unmade sha256 hops e
    → Unmade sha256 (hop ∷ hops) e
Unmade-later sha256 hop hops u = Unmade-more sha256 hops (hop ∷ hops) (λ k m. Memᴰ.tail m) u

pub Unmade-here :
    (sha256 : List ℕ → List ℕ) (hop : CustodyHop) (hops : List CustodyHop) {e : Error}
    → Unmade sha256 (hop ∷ []) e
    → Unmade sha256 (hop ∷ hops) e
Unmade-here sha256 hop hops u =
    Unmade-more sha256 (hop ∷ []) (hop ∷ hops) (λ k m. Memᴰ.append_left hops m) u

-- A result, or the error of a test that the builder does not make.
abbrev pub Verdict {ℓ κ} :
    (List ℕ → List ℕ) → List CustodyHop → {A : Type ℓ} → Result A → (A → Type κ) → Type (ℓ ⊔ κ)
Verdict sha256 hops {A = A} r Good =
    ((a : A) × (r ≡ ok a) × Good a) ⊎ ((e : Error) × (r ≡ err e) × Unmade sha256 hops e)

pub Verdict-map {ℓ κ κ'} :
    {A : Type ℓ} {Good : A → Type κ} {Better : A → Type κ'} (sha256 : List ℕ → List ℕ)
    (hops : List CustodyHop) (r : Result A)
    → Verdict sha256 hops r Good
    → ((a : A) → Good a → Better a)
    → Verdict sha256 hops r Better
Verdict-map sha256 hops r (inl (a, e, good)) f = inl (a, e, f a good)
Verdict-map sha256 hops r (inr (e, refused, unmade)) f = inr (e, refused, unmade)
