-- ===== src/Custody/Conserve.antt =====
-- Theorems on the sat arithmetic of packages/core/src/custody.ts and of the backward hop in
-- packages/core/src/satnumber.ts: forward and backward hops undo each other.
use ordspv.Common.{
  ℕ, zero, suc, ◌+◌, ◌-◌, ◌≤◌, ◌<◌, ◌≡◌, refl, ap, subst, ◌↔◌, inl, inr, arith, true, false, List,
  [], ◌∷◌, Option, none, some, ok, err, Bool-cases, ltb, get_elem?, ltb→lt, lt→ltb, ltb→ge,
  sat_position,
}
use ordspv.Custody.Flow.{
  sum, values_of_outputs, total_output_sats, map_loop, map_to_outputs, position_of,
}
use ordspv.Custody.Satpoint.{Satpoint}
use ordspv.Sat.Backward.{place_of, output_space_position}
use ordspv.Tx.Types.{TxOutput, ParsedTx}

-- Where the loop of `mapToOutputs` lands.
record Lands (outs : List TxOutput) (first : ℕ) (p : ℕ) (sp : Satpoint) : Type 0 where
  place : ℕ
  vout_is : sp.vout ≡ first + place
  value_at : (out : TxOutput) × (get_elem? outs place ≡ some out) × (sp.offset < out.value)
  adds_up : sp.offset + position_of (values_of_outputs outs) place ≡ p

map_loop-Lands :
    (txid : List ℕ) (v : ℕ) (outs : List TxOutput) (p : ℕ)
    → {sp : Satpoint} → map_loop txid v outs p ≡ some sp
    → Lands outs v p sp × (sp.txid ≡ txid)
unfolding map_loop position_of sum values_of_outputs
map_loop-Lands txid v [] p {sp} h = cc
map_loop-Lands txid v (out ∷ outs) p {sp} h = elim (Bool-cases (ltb p out.value)) [
  | inl small ↦
      let here : Satpoint = record { txid = txid; vout = v; offset = p } in
      let e : some here ≡ some sp = rw small at h in
      let e' : here ≡ sp = cc in
      subst (λ t. Lands (out ∷ outs) v p t × (t.txid ≡ txid)) e'
        (
          record {
            place = 0;
            vout_is = omega arith;
            value_at = (out, refl, ltb→lt _ _ small);
            adds_up = omega arith;
          },
          refl,
        )
  | inr big ↦
      let (l, e) = map_loop-Lands txid (v + 1) outs (p - out.value) (rw big at h) in
      let (o, at, fits) = l.value_at in
      (
        record {
          place = suc l.place;
          vout_is = omega (arith, l.vout_is);
          value_at = (o, at, fits);
          adds_up = omega (arith, l.adds_up, ltb→ge _ _ big);
        },
        e,
      )
]

map_loop_at :
    (txid : List ℕ) (v : ℕ) (outs : List TxOutput) (place offset : ℕ) (out : TxOutput)
    → get_elem? outs place ≡ some out
    → offset < out.value
    → map_loop txid v outs (offset + position_of (values_of_outputs outs) place)
      ≡ some (record { txid = txid; vout = v + place; offset = offset })
unfolding map_loop position_of sum values_of_outputs
map_loop_at txid v [] place offset out at fits = cc
map_loop_at txid v (o ∷ outs) zero offset out at fits =
    let e : o ≡ out = cc in
    let e0 : offset + 0 ≡ offset = omega arith in
    let e1 : v + 0 ≡ v = omega arith in
    let t : ltb offset o.value ≡ true = rw e (ground arith) in rw (e0, e1, t)
map_loop_at txid v (o ∷ outs) (suc place) offset out at fits =
    let q = position_of (values_of_outputs outs) place in
    let f : ltb (offset + (o.value + q)) o.value ≡ false = ground arith in
    let e : offset + (o.value + q) - o.value ≡ offset + q = omega arith in
    let e1 : v + suc place ≡ v + 1 + place = omega arith in
    rw (f, e, e1) (map_loop_at txid (v + 1) outs place offset out at fits)

map_loop-none :
    (txid : List ℕ) (v : ℕ) (outs : List TxOutput) (p : ℕ)
    → (map_loop txid v outs p ≡ none) ↔ (sum (values_of_outputs outs) ≤ p)
unfolding map_loop sum values_of_outputs
map_loop-none txid v [] p = ((λ _. omega arith), (λ _. refl))
map_loop-none txid v (out ∷ outs) p = elim (Bool-cases (ltb p out.value)) [
  | inl small ↦ ((λ h. cc (rw small at h)), (λ h. absurd (omega (arith, ltb→lt _ _ small))))
  | inr big ↦
      let (to, back) = map_loop-none txid (v + 1) outs (p - out.value) in
      let le = ltb→ge _ _ big in
      ((λ h. let below = to (rw big at h) in omega arith), (λ h. rw big (back (omega arith))))
]

place_of-eq-ok :
    (outs : List TxOutput) (vout offset : ℕ) (o : Option TxOutput) (p : ℕ)
    → place_of outs vout offset o ≡ ok p
    → (out : TxOutput) × (o ≡ some out)
      × (offset < out.value)
      × (offset + position_of (values_of_outputs outs) vout ≡ p)
unfolding place_of
place_of-eq-ok outs vout offset none p h = cc
place_of-eq-ok outs vout offset (some out) p h = elim (Bool-cases (ltb offset out.value)) [
  | inl small ↦
      let e : ok (offset + position_of (values_of_outputs outs) vout) ≡ ok p = rw small at h in
      (out, refl, ltb→lt _ _ small, cc)
  | inr big ↦ let e : err sat_position ≡ ok p = rw big at h in cc
]

-- A satpoint is where a position lands exactly when its txid is the transaction's and its own
-- position in the output space is that position.
pub map_to_outputs_iff :
    (tx : ParsedTx) (p : ℕ) (sp : Satpoint)
    → (map_to_outputs tx p ≡ some sp)
      ↔ ((sp.txid ≡ tx.txid) × (output_space_position tx sp.vout sp.offset ≡ ok p))
unfolding map_to_outputs output_space_position
map_to_outputs_iff tx p sp = (
  λ h.
      let (l, same) = map_loop-Lands tx.txid 0 tx.outputs p h in
      let (out, at, fits) = l.value_at in
      let e : sp.vout ≡ l.place = omega (arith, l.vout_is) in
      (same, unfold place_of in rw (e, at, lt→ltb _ _ fits) (ap ok l.adds_up)),
  λ (same, h).
      let (out, at, fits, adds) = place_of-eq-ok tx.outputs sp.vout sp.offset _ p h in
      let e : 0 + sp.vout ≡ sp.vout = omega arith in
      rw (← adds, map_loop_at tx.txid 0 tx.outputs sp.vout sp.offset out at fits, e, ← same) refl,
)

-- A position has no place in the outputs exactly when it is at or past the total of their values.
pub map_to_outputs-none_iff :
    (tx : ParsedTx) (p : ℕ) → (map_to_outputs tx p ≡ none) ↔ (total_output_sats tx ≤ p)
unfolding map_to_outputs total_output_sats
map_to_outputs-none_iff tx p = map_loop-none tx.txid 0 tx.outputs p
