-- ===== src/Envelope/Scan.antt =====
-- `parseEnvelopesFromScript` of packages/core/src/envelope.ts. The cursor is the list of instructions
-- that are not consumed yet.
use ordspv.Common.{
  ℕ, zero, suc, ◌+◌, ◌-◌, Bool, true, false, ◌&&◌, ◌||◌, List, [], ◌∷◌, ◌++◌, Option, none, some,
  ok, err, leb, ◌==◌, if◌then◌else◌, length,
}
use ordspv.Script.Parse.{ScriptOp, op_if, op_endif, op_1negate, op_1, op_16, parse_script}

-- What one attempt makes: a RawEnvelope before it is numbered.
pub record ScriptEnvelope : Type 0 where
  pub payload : List (List ℕ)
  pub pushnum : Bool
  pub stutter : Bool

pub record Attempt : Type 0 where
  pub cursor : List ScriptOp
  pub stutter : Bool
  pub envelope : Option ScriptEnvelope

unfoldable pub is_empty_payload : Option (List ℕ) → Bool
is_empty_payload (some []) = true
is_empty_payload _ = false

unfoldable pub is_empty_push : ScriptOp → Bool
unfolding is_empty_payload
is_empty_push op = is_empty_payload op.payload

unfoldable pub is_ord_payload : Option (List ℕ) → Bool
is_ord_payload (some (a ∷ b ∷ c ∷ [])) = (a == 0x6f) && ((b == 0x72) && (c == 0x64))
is_ord_payload _ = false

unfoldable pub is_ord_marker : ScriptOp → Bool
unfolding is_ord_payload
is_ord_marker op = is_ord_payload op.payload

-- The bytes of a payload item, and whether a pushnum opcode made them.
abbrev pub Item : Type 0
Item = List ℕ × Bool

unfoldable pub opcode_bytes : ℕ → Option Item
opcode_bytes opcode =
    if opcode == op_1negate
    then some (0x81 ∷ [], true)
    else (if leb op_1 opcode && leb opcode op_16
        then some ((opcode - op_1 + 1) ∷ [], true)
        else none)

unfoldable pub item_bytes : ℕ → Option (List ℕ) → Option Item
unfolding opcode_bytes
item_bytes opcode (some bs) = some (bs, false)
item_bytes opcode none = opcode_bytes opcode

unfoldable pub payload_bytes : ScriptOp → Option Item
unfolding item_bytes
payload_bytes op = item_bytes op.opcode op.payload

unfoldable pub no_payload : Option (List ℕ) → Bool
no_payload none = true
no_payload (some bs) = false

-- A push never equals an opcode.
unfoldable pub is_op : ScriptOp → ℕ → Bool
unfolding no_payload
is_op op opcode = no_payload op.payload && op.opcode == opcode

-- The probed instruction is left for the outer scan.
unfoldable pub stutter_at : List ScriptOp → Bool
stutter_at [] = false
stutter_at (op ∷ ops) = is_empty_push op

abbrev pub refuse : List ScriptOp → Attempt
refuse cursor = record { cursor = cursor; stutter = stutter_at cursor; envelope = none }

abbrev pub abandon : List ScriptOp → Attempt
abandon cursor = record { cursor = cursor; stutter = false; envelope = none }

-- The payload loop of `fromInstructions`; what it consumes stays consumed.
unfoldable pub payload_loop : List ScriptOp → List (List ℕ) → Bool → Bool → Attempt
payload_loop [] payload pushnum stutter = abandon []
payload_loop (op ∷ ops) payload pushnum stutter =
    let found : Attempt = record {
      cursor = ops;
      stutter = false;
      envelope = some (record { payload = payload; pushnum = pushnum; stutter = stutter });
    } in
    let more : Attempt = elim (payload_bytes op) [
      | none ↦ abandon ops
      | some (bs, num) ↦ payload_loop ops (payload ++ (bs ∷ [])) (pushnum || num) stutter
    ] in
    if is_op op op_endif then found else more

unfoldable pub from_marker : List ScriptOp → Bool → Attempt
from_marker [] stutter = refuse []
from_marker (op ∷ ops) stutter =
    if is_ord_marker op then payload_loop ops [] false stutter else refuse (op ∷ ops)

-- Called with the cursor just past an empty push.
unfoldable pub from_instructions : List ScriptOp → Bool → Attempt
unfolding from_marker
from_instructions [] stutter = refuse []
from_instructions (op ∷ ops) stutter =
    if is_op op op_if then from_marker ops stutter else refuse (op ∷ ops)

-- `stuttered` is assigned after a failed attempt only.
unfoldable pub next_stutter : Option ScriptEnvelope → Bool → Bool → Bool
next_stutter (some e) tried stuttered = stuttered
next_stutter none tried stuttered = tried

-- `envelopes.push(result.envelope)`, when there is one.
unfoldable pub keep : Option ScriptEnvelope → List ScriptEnvelope → List ScriptEnvelope
keep (some e) rest = e ∷ rest
keep none rest = rest

-- `while (cursor < ops.length)`
unfoldable pub scan_loop : ℕ → List ScriptOp → Bool → List ScriptEnvelope
scan_loop fuel [] stuttered = []
scan_loop zero (op ∷ ops) stuttered = []
scan_loop (suc fuel) (op ∷ ops) stuttered =
    let attempt = from_instructions ops stuttered in
    let stuttered' = next_stutter attempt.envelope attempt.stutter stuttered in
    let tried = scan_loop fuel attempt.cursor stuttered' in
    let passed = scan_loop fuel ops stuttered in
    if is_empty_push op then keep attempt.envelope tried else passed

-- Each round consumes an instruction at least.
unfoldable pub scan : List ScriptOp → List ScriptEnvelope
scan ops = scan_loop (length ops) ops false

-- A script that does not parse has no envelopes.
unfoldable pub parse_envelopes_from_script : List ℕ → List ScriptEnvelope
parse_envelopes_from_script script = elim (parse_script script) [ ok ops ↦ scan ops | err e ↦ [] ]
