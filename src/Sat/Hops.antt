-- ===== src/Sat/Hops.antt =====
-- Theorems on the backward hop of packages/core/src/satnumber.ts, and on its agreement with the
-- forward hop of custody.ts.
use ordspv.Common.{
  ℕ, zero, suc, ◌+◌, ◌-◌, ◌<◌, ◌≡◌, refl, ap, ◌↔◌, inl, inr, arith, Bool, true, false, List, [],
  ◌∷◌, Option, none, some, ok, Bool-cases, Option-cases, >>-eq-ok, ltb, ◌==◌, ==_iff, get_elem?,
  ltb→lt, lt→ltb, ltb→ge,
}
use ordspv.Bytes.Hex.{bytes_equal, bytes_equal_iff}
use ordspv.Custody.Conserve.{map_to_outputs_iff}
use ordspv.Custody.Flow.{
  sum, map_to_outputs, position_of, find_spend, spends, transfer_satpoint, coverage, in_outputs,
}
use ordspv.Custody.Satpoint.{Satpoint}
use ordspv.Sat.Backward.{
  output_space_position, FundingPlace, containing_loop, containing_input, place_or_refusal,
}
use ordspv.Sat.Genealogy.{step_back}
use ordspv.Tx.Types.{TxInput, ParsedTx}

containing_loop_at :
    (first : ℕ) (values : List ℕ) (i offset v : ℕ)
    → get_elem? values i ≡ some v
    → offset < v
    → containing_loop first values (offset + position_of values i)
      ≡ some (record { input = first + i; offset_in_funding = offset })
unfolding containing_loop position_of sum
containing_loop_at first [] i offset v at fits = cc
containing_loop_at first (x ∷ xs) zero offset v at fits =
    let e : x ≡ v = cc in
    let e0 : offset + 0 ≡ offset = omega arith in
    let e1 : first + 0 ≡ first = omega arith in
    let t : ltb offset x ≡ true = rw e (lt→ltb _ _ fits) in rw (e0, e1, t)
containing_loop_at first (x ∷ xs) (suc i) offset v at fits =
    let q = position_of xs i in
    let f : ltb (offset + (x + q)) x ≡ false = ground arith in
    let e : offset + (x + q) - x ≡ offset + q = omega arith in
    let e1 : first + suc i ≡ first + 1 + i = omega arith in
    rw (f, e, e1) (containing_loop_at (first + 1) xs i offset v at fits)

containing_loop_sound :
    (first : ℕ) (values : List ℕ) (p : ℕ) (place : FundingPlace)
    → containing_loop first values p ≡ some place
    → (i v : ℕ) × (place.input ≡ first + i)
      × (get_elem? values i ≡ some v)
      × (place.offset_in_funding < v)
      × (place.offset_in_funding + position_of values i ≡ p)
unfolding containing_loop position_of sum
containing_loop_sound first [] p place h = cc
containing_loop_sound first (x ∷ xs) p place h = elim (Bool-cases (ltb p x)) [
  | inl small ↦
      let here : FundingPlace = record { input = first; offset_in_funding = p } in
      let e : some here ≡ some place = rw small at h in
      let e1 : here ≡ place = cc in
      let e2 : first ≡ place.input = ap (λ (q : FundingPlace). q.input) e1 in
      let e3 : p ≡ place.offset_in_funding = ap (λ (q : FundingPlace). q.offset_in_funding) e1 in
      (0, x, omega arith, refl, omega (arith, ltb→lt _ _ small), omega arith)
  | inr big ↦
      let (i, v, at, has, fits, adds) =
        containing_loop_sound (first + 1) xs (p - x) place (rw big at h) in
      (suc i, v, omega arith, has, fits, omega (arith, ltb→ge _ _ big))
]

place_or_refusal-eq-ok :
    (covered : Bool) (o : Option FundingPlace) (place : FundingPlace)
    → place_or_refusal covered o ≡ ok place
    → o ≡ some place
unfolding place_or_refusal
place_or_refusal-eq-ok covered (some found) place h = cc
place_or_refusal-eq-ok true none place h = cc
place_or_refusal-eq-ok false none place h = cc

-- The backward hop answers an input and an offset exactly when the offset lies in that input's
-- proven value and the values before it and the offset make up the position.
pub containing_input_iff :
    (tx : ParsedTx) (values : List ℕ) (p : ℕ) (place : FundingPlace)
    → (containing_input tx values p ≡ ok place) ↔ (
        (v : ℕ) × (get_elem? values place.input ≡ some v)
        × (place.offset_in_funding < v)
        × (place.offset_in_funding + position_of values place.input ≡ p))
unfolding containing_input
containing_input_iff tx values p place = (
  λ h.
      let found = place_or_refusal-eq-ok _ _ place h in
      let (i, v, e, at, fits, adds) = containing_loop_sound 0 values p place found in
      let same : place.input ≡ i = omega (arith, e) in (v, rw same at, fits, rw same adds),
  λ (v, at, fits, adds).
      let e : 0 + place.input ≡ place.input = omega arith in
      unfold place_or_refusal in
      rw (← adds, containing_loop_at 0 values place.input place.offset_in_funding v at fits, e)
        refl,
)

spends_parts :
    (sp : Satpoint) (i : TxInput)
    → spends sp i ≡ true
    → (i.prev_txid ≡ sp.txid) × (i.vout ≡ sp.vout)
unfolding spends
spends_parts sp i h =
    let e : bytes_equal i.prev_txid sp.txid ≡ true = ground arith in
    let e' : (i.vout == sp.vout) ≡ true = ground arith in
    ((bytes_equal_iff _ _).0 e, (==_iff _ _).0 e')

find_spend_sound :
    (sp : Satpoint) (inputs : List TxInput) (j : ℕ)
    → find_spend sp inputs ≡ some j
    → (i : TxInput) × (get_elem? inputs j ≡ some i) × (i.prev_txid ≡ sp.txid) × (i.vout ≡ sp.vout)
unfolding find_spend
find_spend_sound sp [] j h = cc
find_spend_sound sp (i ∷ rest) j h = elim (Bool-cases (spends sp i)) [
  | inl hit ↦
      let e : some 0 ≡ some j = rw hit at h in
      let e0 : 0 ≡ j = cc in
      let (txids, vouts) = spends_parts sp i hit in (i, rw (← e0) refl, txids, vouts)
  | inr miss ↦ elim (Option-cases (find_spend sp rest)) [
    | inl gone ↦ let e : none ≡ some j = rw (miss, gone) at h in cc
    | inr (k, found) ↦
        let e : some (suc k) ≡ some j = rw (miss, found) at h in
        let e0 : suc k ≡ j = cc in
        let (i', at, txids, vouts) = find_spend_sound sp rest k found in
        (i', rw (← e0) at, txids, vouts)
  ]
]

pub in_outputs-eq-ok :
    (o : Option Satpoint) (height : Option ℕ) (sp : Satpoint)
    → in_outputs o height ≡ ok sp
    → o ≡ some sp
unfolding in_outputs
in_outputs-eq-ok (some q) height sp h = cc
in_outputs-eq-ok none height sp h = cc

-- The backward hop undoes the forward hop: where `transferSatpoint` moves a satpoint through input
-- `j`, and the satpoint's offset lies in that input's value, the position of the new satpoint leads
-- back to the old one.
pub step_back-transfer_satpoint :
    (tx : ParsedTx) (values : List ℕ) (from to : Satpoint) (height : Option ℕ) (j v : ℕ)
    → find_spend from tx.inputs ≡ some j
    → get_elem? values j ≡ some v
    → from.offset < v
    → transfer_satpoint tx values from height ≡ ok to
    → (pos : ℕ) × (output_space_position tx to.vout to.offset ≡ ok pos)
      × (step_back tx values pos
          ≡ ok (record { txid = from.txid; vout = from.vout; offset = from.offset }))
unfolding transfer_satpoint
step_back-transfer_satpoint tx values from to height j v spent at fits h =
    let pos = from.offset + position_of values j in
    let moved : (_ : (coverage values j ≡ true)) × (in_outputs (map_to_outputs tx pos) height
          ≡ ok to) =
      >>-eq-ok (coverage values j) _ _ (rw spent at h) in
    let place : FundingPlace = record { input = j; offset_in_funding = from.offset } in
    let back : containing_input tx values pos ≡ ok place =
      (containing_input_iff tx values pos place).1 (v, at, fits, refl) in
    let (i, has, txids, vouts) = find_spend_sound from tx.inputs j spent in
    (
      pos,
      ((map_to_outputs_iff tx pos to).0 (in_outputs-eq-ok _ height to moved.1)).1,
      unfold step_back in rw (back, has, txids, vouts) refl,
    )
