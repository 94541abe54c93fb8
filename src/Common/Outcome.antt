-- ===== src/Common/Outcome.antt =====
-- What a function of the program returns or throws.
use Prim.Native.Nat.{ℕ}
use Prim.Native.String.{String}
use mathlib.Core.Bool.{Bool, true, false}
use mathlib.Core.Option.{Option, none, some}
use mathlib.Core.List.{List, [], ◌∷◌}
use mathlib.Core.Logic.{◌⊎◌, inl, inr}
use mathlib.Core.Path.{◌≡◌, refl, ap}

-- `failure` is a plain `Error` with the fixed part of its message; the others are the classes of
-- packages/core/src/custody.ts, satnumber.ts and gallery.ts and of packages/fetch/src/headersync.ts,
-- headertrust.ts and custodybuilder.ts. `custody_unsupported` carries the height, `gallery_encoding` the
-- encoding, and `custody_hop_limit` the cap and the hop.
pub data Error : Type 0 where
  failure : String → Error
  custody_unsupported : Option ℕ → Error
  envelope_index_unproven : Error
  sat_position : Error
  sat_funding_incomplete : Error
  coinbase_height_unproven : Error
  sat_step_limit : Error
  reorg_link : Error
  header_trust : String → Error
  header_trust_disagreement : Error
  gallery_encoding : List ℕ → Error
  custody_build : String → Error
  hop_consistency : String → Error
  custody_hop_limit : ℕ → ℕ → Error
  witness_section_unavailable : Error

pub data Result {ℓ} (A : Type ℓ) : Type ℓ where
  ok : A → Result A
  err : Error → Result A

-- `throw new Error(message)`
abbrev pub throw {ℓ} : {A : Type ℓ} → String → Result A
throw message = err (failure message)

-- `if (!test) throw ...`
abbrev pub require : Bool → Error → Result (Unit {0})
require false error = err error
require true error = ok tt

-- What follows a statement that may throw.
infixl 5 ◌>>=◌ ◌>>◌
abbrev pub ◌>>=◌ {ℓ κ} : {B : Type ℓ} {C : Type κ} → Result B → (B → Result C) → Result C
err error >>= next = err error
ok value >>= next = next value

abbrev pub ◌>>◌ {ℓ} : {C : Type ℓ} → Result (Unit {0}) → Result C → Result C
first >> second = first >>= λ done. second

-- `try { ... } catch { throw new Error(message) }`
abbrev pub relabel {ℓ} : {A : Type ℓ} → String → Result A → Result A
relabel message (ok a) = ok a
relabel message (err e) = throw message

-- `if (x === undefined) throw ...`
abbrev pub or_throw {ℓ} : {A : Type ℓ} → Option A → String → Result A
or_throw (some a) message = ok a
or_throw none message = throw message

-- `xs.map(f)` where `f` may throw.
abbrev pub map_result {ℓ κ} : {A : Type ℓ} {B : Type κ} → (A → Result B) → List A → Result (List B)
map_result f [] = ok []
map_result f (x ∷ xs) = f x >>= λ y. map_result f xs >>= λ ys. ok (y ∷ ys)

pub Result-cases {ℓ} :
    {A : Type ℓ} (r : Result A) → ((a : A) × (r ≡ ok a)) ⊎ ((e : Error) × (r ≡ err e))
Result-cases (ok a) = inl (a, refl)
Result-cases (err e) = inr (e, refl)

-- Inversion of a successful bind and of a passed test.
pub >>=-eq-ok {ℓ κ} :
    {B : Type ℓ} {C : Type κ} (first : Result B) (next : B → Result C) {answer : C}
    → (first >>= next) ≡ ok answer
    → (value : B) × (first ≡ ok value) × (next value ≡ ok answer)
>>=-eq-ok (err error) next h = cc
>>=-eq-ok (ok value) next h = (value, refl, h)

pub >>-eq-ok {ℓ} :
    {B : Type ℓ} (test : Bool) (e : Error) (k : Result B) {b : B}
    → (require test e >> k) ≡ ok b
    → (test ≡ true) × (k ≡ ok b)
>>-eq-ok true e k h = (refl, h)
>>-eq-ok false e k h = cc

value_or {ℓ} : {A : Type ℓ} → A → Result A → A
value_or a (ok b) = b
value_or a (err e) = a

pub ok-injective {ℓ} : {A : Type ℓ} {a b : A} → ok a ≡ ok b → a ≡ b
unfolding value_or
ok-injective {a = a} h = ap (value_or a) h

pub require-eq-ok : (test : Bool) (e : Error) → require test e ≡ ok tt → test ≡ true
require-eq-ok true e h = refl
require-eq-ok false e h = cc

message_or {ℓ} : {A : Type ℓ} → String → Result A → String
message_or s (ok a) = s
message_or s (err (failure t)) = t
message_or s (err _) = s

pub throw-injective {ℓ} : {A : Type ℓ} {s t : String} → throw {A = A} s ≡ throw t → s ≡ t
unfolding message_or
throw-injective {s = s} h = ap (message_or s) h

pub or_throw-eq-ok {ℓ} :
    {A : Type ℓ} (o : Option A) (m : String) {a : A} → or_throw o m ≡ ok a → o ≡ some a
or_throw-eq-ok (some b) m h = ap some (ok-injective h)
or_throw-eq-ok none m h = cc
