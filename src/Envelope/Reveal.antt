-- ===== src/Envelope/Reveal.antt =====
-- Theorems on `parseEnvelopesFromScript` of packages/core/src/envelope.ts: the fuel of the scan, and
-- the envelope that a reveal script carries.
use ordspv.Common.{
  ℕ, zero, suc, ◌+◌, ◌≤◌, ◌≡◌, refl, ap, ◌∙◌, inl, inr, arith, Bool, true, false, ◌||◌, List, [],
  ◌∷◌, ◌++◌, append-nil, append_assoc, some, Bool-cases, Option-cases, length, All, length-append,
}
use ordspv.Script.Parse.{ScriptOp, op_if, op_endif}
use ordspv.Envelope.Scan.{
  ScriptEnvelope, is_empty_push, is_ord_marker, item_bytes, payload_bytes, no_payload, is_op,
  payload_loop, from_marker, from_instructions, next_stutter, keep, scan_loop, scan,
}

-- An attempt never gives instructions back.
payload_loop-cursor :
    (ops : List ScriptOp) (payload : List (List ℕ)) (num stutter : Bool)
    → length (payload_loop ops payload num stutter).cursor ≤ length ops
unfolding payload_loop
payload_loop-cursor [] payload num stutter = omega arith
payload_loop-cursor (op ∷ ops) payload num stutter = elim (Bool-cases (is_op op op_endif)) [
  | inl stop ↦ rw stop (omega arith)
  | inr more ↦ elim (Option-cases (payload_bytes op)) [
    | inl bad ↦ rw (more, bad) (omega arith)
    | inr ((bs, n), good) ↦
        rw (more, good)
          (omega (arith, payload_loop-cursor ops (payload ++ (bs ∷ [])) (num || n) stutter))
  ]
]

from_marker-cursor :
    (ops : List ScriptOp) (stutter : Bool) → length (from_marker ops stutter).cursor ≤ length ops
unfolding from_marker
from_marker-cursor [] stutter = omega arith
from_marker-cursor (op ∷ ops) stutter = elim (Bool-cases (is_ord_marker op)) [
  | inl ord ↦ rw ord (omega (arith, payload_loop-cursor ops [] false stutter))
  | inr other ↦ rw other (omega arith)
]

from_instructions-cursor :
    (ops : List ScriptOp) (stutter : Bool)
    → length (from_instructions ops stutter).cursor ≤ length ops
unfolding from_instructions
from_instructions-cursor [] stutter = omega arith
from_instructions-cursor (op ∷ ops) stutter = elim (Bool-cases (is_op op op_if)) [
  | inl start ↦ rw start (omega (arith, from_marker-cursor ops stutter))
  | inr other ↦ rw other (omega arith)
]

-- Once the fuel is the number of instructions, more of it changes nothing.
pub scan_loop_fuel :
    (f g : ℕ) (ops : List ScriptOp) (stuttered : Bool)
    → length ops ≤ f
    → length ops ≤ g
    → scan_loop f ops stuttered ≡ scan_loop g ops stuttered
unfolding scan_loop
scan_loop_fuel f g [] stuttered p q = refl
scan_loop_fuel zero g (op ∷ ops) stuttered p q = absurd (omega arith)
scan_loop_fuel (suc f) zero (op ∷ ops) stuttered p q = absurd (omega arith)
scan_loop_fuel (suc f) (suc g) (op ∷ ops) stuttered p q =
    let attempt = from_instructions ops stuttered in
    let shrinks = from_instructions-cursor ops stuttered in
    let st = next_stutter attempt.envelope attempt.stutter stuttered in
    let tried =
      scan_loop_fuel f g attempt.cursor st (omega (arith, shrinks)) (omega (arith, shrinks)) in
    let passed = scan_loop_fuel f g ops stuttered (omega arith) (omega arith) in
    rw (tried, passed) refl

-- A round of the scan.
scan_loop-found :
    (f : ℕ) (op : ScriptOp) (ops rest : List ScriptOp) (stuttered : Bool) (e : ScriptEnvelope)
    → is_empty_push op ≡ true
    → from_instructions ops stuttered ≡ record { cursor = rest; stutter = false; envelope = some e }
    → scan_loop (suc f) (op ∷ ops) stuttered ≡ e ∷ scan_loop f rest stuttered
unfolding scan_loop next_stutter keep
scan_loop-found f op ops rest stuttered e empty found = rw (found, empty) refl

abbrev pub IsPush : ScriptOp → Type 0
IsPush op = (bs : List ℕ) × (op.payload ≡ some bs)

-- The data of a list of pushes.
abbrev pub pushed : (ops : List ScriptOp) → All IsPush ops → List (List ℕ)
pushed [] h = []
pushed (op ∷ ops) (p, ps) = p.0 ∷ pushed ops ps

payload_loop-pushed :
    (ops : List ScriptOp) (ps : All IsPush ops) (last : ScriptOp) (rest : List ScriptOp)
    (payload : List (List ℕ)) (stutter : Bool)
    → is_op last op_endif ≡ true
    → payload_loop (ops ++ (last ∷ rest)) payload false stutter ≡ record {
      cursor = rest;
      stutter = false;
      envelope =
          some (record { payload = payload ++ pushed ops ps; pushnum = false; stutter = stutter });
    }
unfolding payload_loop
payload_loop-pushed [] ps last rest payload stutter stop = rw (stop, append-nil payload) refl
payload_loop-pushed (op ∷ ops) ((bs, e), ps) last rest payload stutter stop =
    let data_push : is_op op op_endif ≡ false = unfold is_op no_payload in rw e refl in
    let bytes : payload_bytes op ≡ some (bs, false) =
      unfold payload_bytes item_bytes in rw e refl in
    let ih = payload_loop-pushed ops ps last rest (payload ++ (bs ∷ [])) stutter stop in
    rw (data_push, bytes, ih, append_assoc payload (bs ∷ []) (pushed ops ps)) refl

from_instructions-envelope :
    (start marker last : ScriptOp) (ops rest : List ScriptOp) (ps : All IsPush ops) (stutter : Bool)
    → is_op start op_if ≡ true
    → is_ord_marker marker ≡ true
    → is_op last op_endif ≡ true
    → from_instructions (start ∷ marker ∷ (ops ++ (last ∷ rest))) stutter ≡ record {
      cursor = rest;
      stutter = false;
      envelope = some (record { payload = pushed ops ps; pushnum = false; stutter = stutter });
    }
unfolding from_instructions from_marker
from_instructions-envelope start marker last ops rest ps stutter s m stop =
    rw (s, m) (payload_loop-pushed ops ps last rest [] stutter stop)

-- A script that holds an empty push, OP_IF, the push of "ord", data pushes and OP_ENDIF has the
-- envelope of those pushes first, and behind it what the rest of the script has.
pub scan-envelope :
    (empty start marker last : ScriptOp) (ops rest : List ScriptOp) (ps : All IsPush ops)
    → is_empty_push empty ≡ true
    → is_op start op_if ≡ true
    → is_ord_marker marker ≡ true
    → is_op last op_endif ≡ true
    → scan (empty ∷ start ∷ marker ∷ (ops ++ (last ∷ rest)))
      ≡ record { payload = pushed ops ps; pushnum = false; stutter = false } ∷ scan rest
unfolding scan
scan-envelope empty start marker last ops rest ps e s m stop =
    let all = ops ++ (last ∷ rest) in
    let len : length all ≡ length ops + suc (length rest) = length-append ops (last ∷ rest) in
    let found = from_instructions-envelope start marker last ops rest ps false s m stop in
    let less =
      scan_loop_fuel (suc (suc (length all))) (length rest) rest false (omega (arith, len))
        (omega arith) in
    scan_loop-found (suc (suc (length all))) empty (start ∷ marker ∷ all) rest false _ e found
    ∙ ap (◌∷◌ (record { payload = pushed ops ps; pushnum = false; stutter = false })) less
