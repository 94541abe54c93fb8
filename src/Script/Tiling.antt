-- ===== src/Script/Tiling.antt =====
-- The instructions of `parseScript` of packages/core/src/script.ts cover the script without a gap.
use ordspv.Common.{
  ℕ, zero, suc, ◌+◌, ◌*◌, ◌^◌, ◌≤◌, ◌<◌, ◌≡◌, refl, ap, ◌∙◌, sym, true, List, [], ◌∷◌, ◌++◌,
  append_assoc, Option, none, some, Result, ok, throw, Result-cases, ltb→lt, ltb→ge, >>=-eq-ok,
  arith, leb, ltb, ◌==◌, if◌then◌else◌, length, get_or, drop, All, Bool-cases, inl, inr,
}
use ordspv.Bytes.Hex.{IsByte}
use ordspv.Bytes.Order.{to_le}
use ordspv.Script.Parse.{
  ScriptOp, op_pushdata1, op_pushdata2, op_pushdata4, at, push_at, pushdata1_at, pushdata2_at,
  pushdata4_at, instruction_at, script_loop, parse_script,
}
use ordspv.Script.Bytes.{drop_here, at-drop, push_at_lem, two_le, four_le, byte_at, drop_all}

-- The bytes between the opcode and the pushed bytes.
unfoldable pub length_bytes : ℕ → ℕ → List ℕ
length_bytes opcode len =
    if opcode == op_pushdata1
    then len ∷ []
    else (if opcode == op_pushdata2
        then to_le 2 len
        else (if opcode == op_pushdata4 then to_le 4 len else []))

unfoldable pub pushed_bytes : ℕ → Option (List ℕ) → List ℕ
pushed_bytes opcode none = []
pushed_bytes opcode (some bs) = length_bytes opcode (length bs) ++ bs

-- The bytes of an instruction.
unfoldable pub op_bytes : ScriptOp → List ℕ
op_bytes op = op.opcode ∷ pushed_bytes op.opcode op.payload

unfoldable pub ops_bytes : List ScriptOp → List ℕ
ops_bytes [] = []
ops_bytes (op ∷ ops) = op_bytes op ++ ops_bytes ops

-- An instruction's bytes end where the next one begins.
abbrev Covers : List ℕ → ℕ → ScriptOp → ℕ → Type 0
Covers s offset op next =
    (op_bytes op ++ drop next s ≡ drop offset s) × (offset < next) × (next ≤ length s)

-- Opcode, length bytes and pushed bytes, put together.
covers_push :
    (s : List ℕ) (offset opcode : ℕ) (op : ScriptOp) (next : ℕ) (bs : List ℕ)
    → offset < length s
    → get_or s offset 0 ≡ opcode
    → op.opcode ≡ opcode
    → op.payload ≡ some bs
    → length_bytes opcode (length bs) ++ (bs ++ drop next s) ≡ drop (offset + 1) s
    → op_bytes op ++ drop next s ≡ drop offset s
unfolding op_bytes pushed_bytes
covers_push s offset opcode op next bs lt e code has cover =
    rw (has, code, append_assoc (length_bytes opcode (length bs)) bs (drop next s), cover)
      (sym (drop_here offset s lt ∙ ap (λ c. c ∷ drop (offset + 1) s) e))

plain_push :
    (s : List ℕ) (offset opcode : ℕ) (op : ScriptOp) (next : ℕ)
    → offset < length s
    → get_or s offset 0 ≡ opcode
    → leb opcode 0x4b ≡ true
    → push_at s offset opcode (offset + 1) opcode ≡ ok (op, next)
    → Covers s offset op next
plain_push s offset opcode op next lt e small h =
    let (code, end, le, bs, has, size, cover) =
      push_at_lem s offset opcode (offset + 1) opcode op next h in
    let bare : length_bytes opcode (length bs) ≡ [] = unfold length_bytes in ground arith in
    (covers_push s offset opcode op next bs lt e code has (rw bare cover), omega (arith, end), le)

pushdata1_Covers :
    (s : List ℕ) (offset : ℕ) (op : ScriptOp) (next : ℕ)
    → offset < length s
    → get_or s offset 0 ≡ op_pushdata1
    → pushdata1_at s offset (offset + 1) ≡ ok (op, next)
    → Covers s offset op next
unfolding pushdata1_at
pushdata1_Covers s offset op next lt e h =
    let (len, read, push) = >>=-eq-ok (at s (offset + 1)) _ h in
    let (_, first) = at-drop s (offset + 1) len read in
    let (code, end, le, bs, has, size, cover) =
      push_at_lem s offset op_pushdata1 (offset + 1 + 1) len op next push in
    let enc : length_bytes op_pushdata1 (length bs) ≡ len ∷ [] =
      unfold length_bytes in rw size refl in
    (
      covers_push s offset op_pushdata1 op next bs lt e code has (rw (enc, cover, first)),
      omega (arith, end),
      le,
    )

not_negative :
    {A : Type 0} (len : ℕ) (r : Result A) (a : A)
    → (if leb (2 ^ 31) len then throw "push length overflow" else r) ≡ ok a
    → r ≡ ok a
not_negative len r a h = ground arith

module _ (s : List ℕ) (bytes : All IsByte s) where
  pushdata2_Covers :
      (offset : ℕ) (op : ScriptOp) (next : ℕ)
      → offset < length s
      → get_or s offset 0 ≡ op_pushdata2
      → pushdata2_at s offset (offset + 1) ≡ ok (op, next)
      → Covers s offset op next
  unfolding pushdata2_at
  pushdata2_Covers offset op next lt e h =
      let i = offset + 1 in
      let (a, read_a, h1) = >>=-eq-ok (at s i) _ h in
      let (b, read_b, push) = >>=-eq-ok (at s (i + 1)) _ h1 in
      let (_, first) = at-drop s i a read_a in
      let (_, second) = at-drop s (i + 1) b read_b in
      let len = a + b * 2 ^ 8 in
      let (code, end, le, bs, has, size, cover) =
        push_at_lem s offset op_pushdata2 (i + 2) len op next push in
      let enc : length_bytes op_pushdata2 (length bs) ≡ a ∷ b ∷ [] =
        unfold length_bytes in
        rw size (two_le a b (byte_at s i a bytes read_a) (byte_at s (i + 1) b bytes read_b)) in
      let place : i + 1 + 1 ≡ i + 2 = omega arith in
      (
        covers_push s offset op_pushdata2 op next bs lt e code has
            (rw (enc, cover, first, second, place)),
        omega (arith, end),
        le,
      )

  pushdata4_Covers :
      (offset : ℕ) (op : ScriptOp) (next : ℕ)
      → offset < length s
      → get_or s offset 0 ≡ op_pushdata4
      → pushdata4_at s offset (offset + 1) ≡ ok (op, next)
      → Covers s offset op next
  unfolding pushdata4_at
  pushdata4_Covers offset op next lt e h =
      let i = offset + 1 in
      let (a, read_a, h1) = >>=-eq-ok (at s i) _ h in
      let (b, read_b, h2) = >>=-eq-ok (at s (i + 1)) _ h1 in
      let (c, read_c, h3) = >>=-eq-ok (at s (i + 2)) _ h2 in
      let (d, read_d, h4) = >>=-eq-ok (at s (i + 3)) _ h3 in
      let (_, first) = at-drop s i a read_a in
      let (_, second) = at-drop s (i + 1) b read_b in
      let (_, third) = at-drop s (i + 2) c read_c in
      let (_, fourth) = at-drop s (i + 3) d read_d in
      let len = a + b * 2 ^ 8 + c * 2 ^ 16 + d * 2 ^ 24 in
      let push = not_negative len (push_at s offset op_pushdata4 (i + 4) len) (op, next) h4 in
      let (code, end, le, bs, has, size, cover) =
        push_at_lem s offset op_pushdata4 (i + 4) len op next push in
      let enc : length_bytes op_pushdata4 (length bs) ≡ a ∷ b ∷ c ∷ d ∷ [] =
        unfold length_bytes in
        rw size (
          four_le a b c d (byte_at s i a bytes read_a) (byte_at s (i + 1) b bytes read_b)
            (byte_at s (i + 2) c bytes read_c) (byte_at s (i + 3) d bytes read_d)) in
      let p1 : i + 1 + 1 ≡ i + 2 = omega arith in
      let p2 : i + 2 + 1 ≡ i + 3 = omega arith in
      let p3 : i + 3 + 1 ≡ i + 4 = omega arith in
      (
        covers_push s offset op_pushdata4 op next bs lt e code has
            (rw (enc, cover, first, second, p1, third, p2, fourth, p3)),
        omega (arith, end),
        le,
      )

  instruction_Covers :
      (offset : ℕ) (op : ScriptOp) (next : ℕ)
      → offset < length s
      → instruction_at s offset ≡ ok (op, next)
      → Covers s offset op next
  unfolding instruction_at op_bytes pushed_bytes length_bytes
  instruction_Covers offset op next lt h = ground (
    arith,
    drop_here offset s lt,
    plain_push s offset (get_or s offset 0) op next lt refl,
    pushdata1_Covers s offset op next lt,
    pushdata2_Covers offset op next lt,
    pushdata4_Covers offset op next lt,
  )

  script_loop_Covers :
      (f i : ℕ) (ops : List ScriptOp)
      → length s ≤ i + f
      → script_loop f s i ≡ ok ops
      → ops_bytes ops ≡ drop i s
  unfolding script_loop ops_bytes
  script_loop_Covers zero i ops le h = ground (arith, drop_all i s (omega arith))
  script_loop_Covers (suc f) i ops le h = elim (Bool-cases (ltb i (length s))) [
    | inr done ↦ ground (arith, drop_all i s (ltb→ge _ _ done))
    | inl more ↦
        let (p, read, h1) = >>=-eq-ok (instruction_at s i) _ (rw more at h) in
        let (rest, parsed, h2) = >>=-eq-ok (script_loop f s p.1) _ h1 in
        let (cover, ahead, _) = instruction_Covers i p.0 p.1 (ltb→lt _ _ more) read in
        let later = script_loop_Covers f p.1 rest (omega arith) parsed in
        let same : ops ≡ p.0 ∷ rest = cc h2 in rw same (rw (later, cover))
  ]

-- Where a script parses, its instructions written out one behind the other, each with the push
-- encoding that its opcode names, are the script.
pub ops_bytes-parse_script :
    (script : List ℕ) (ops : List ScriptOp)
    → All IsByte script
    → parse_script script ≡ ok ops
    → ops_bytes ops ≡ script
unfolding parse_script
ops_bytes-parse_script script ops bytes h =
    script_loop_Covers script bytes (length script) 0 ops (omega arith) h

-- The loop ends by its own test: more rounds than the script has bytes change nothing.
pub script_loop_fuel :
    (s : List ℕ)
    → All IsByte s
    → (f g i : ℕ) → length s ≤ i + f
    → length s ≤ i + g
    → script_loop f s i ≡ script_loop g s i
unfolding script_loop
script_loop_fuel s bytes zero zero i p q = refl
script_loop_fuel s bytes zero (suc g) i p q = ground arith
script_loop_fuel s bytes (suc f) zero i p q = ground arith
script_loop_fuel s bytes (suc f) (suc g) i p q = elim (Bool-cases (ltb i (length s))) [
  | inr done ↦ rw done
  | inl more ↦ rw more (elim (Result-cases (instruction_at s i)) [
    | inl (r, read) ↦
        let (_, ahead, _) = instruction_Covers s bytes i r.0 r.1 (ltb→lt _ _ more) read in
        rw (read, script_loop_fuel s bytes f g r.1 (omega arith) (omega arith))
    | inr (e, failed) ↦ rw failed
  ])
]
