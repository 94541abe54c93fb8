-- ===== src/Script/Parse.antt =====
-- `parseScript` of packages/core/src/script.ts.
use ordspv.Common.{
  ℕ, zero, suc, ◌+◌, ◌*◌, ◌^◌, ◌&&◌, List, [], ◌∷◌, Option, none, some, Result, ok, throw, ◌>>=◌,
  leb, ltb, ◌==◌, if◌then◌else◌, length, get_or,
}
use ordspv.Bytes.Reader.{slice}

abbrev pub op_0 : ℕ
op_0 = 0x00

abbrev pub op_pushdata1 : ℕ
op_pushdata1 = 0x4c

abbrev pub op_pushdata2 : ℕ
op_pushdata2 = 0x4d

abbrev pub op_pushdata4 : ℕ
op_pushdata4 = 0x4e

abbrev pub op_1negate : ℕ
op_1negate = 0x4f

abbrev pub op_1 : ℕ
op_1 = 0x51

abbrev pub op_16 : ℕ
op_16 = 0x60

abbrev pub op_if : ℕ
op_if = 0x63

abbrev pub op_endif : ℕ
op_endif = 0x68

-- `payload` is the source's `data`, present for pushes.
pub record ScriptOp : Type 0 where
  pub opcode : ℕ
  pub payload : Option (List ℕ)
  pub offset : ℕ

unfoldable pub at : List ℕ → ℕ → Result ℕ
at script i = if leb (length script) i then throw "script truncated" else ok (get_or script i 0)

unfoldable pub take_push : List ℕ → ℕ → ℕ → Result (List ℕ)
take_push script i len =
    if ltb (length script) (i + len)
    then throw "script push overruns end"
    else ok (slice script i len)

-- An instruction and the index behind it.
abbrev pub Instruction : Type 0
Instruction = ScriptOp × ℕ

-- A push of `len` bytes at `i`.
unfoldable pub push_at : List ℕ → ℕ → ℕ → ℕ → ℕ → Result Instruction
unfolding take_push
push_at script offset opcode i len = do
  pushed ← take_push script i len
  ok (record { opcode = opcode; payload = some pushed; offset = offset }, i + len)

-- `OP_PUSHDATA1`, `2` and `4`; a length whose top bit is set is negative in the source.
unfoldable pub pushdata1_at : List ℕ → ℕ → ℕ → Result Instruction
unfolding at
pushdata1_at script offset i = do len ← at script i; push_at script offset op_pushdata1 (i + 1) len

unfoldable pub pushdata2_at : List ℕ → ℕ → ℕ → Result Instruction
unfolding at
pushdata2_at script offset i = do
  a ← at script i
  b ← at script (i + 1)
  push_at script offset op_pushdata2 (i + 2) (a + b * 2 ^ 8)

unfoldable pub pushdata4_at : List ℕ → ℕ → ℕ → Result Instruction
unfolding at
pushdata4_at script offset i = do
  a ← at script i
  b ← at script (i + 1)
  c ← at script (i + 2)
  d ← at script (i + 3)
  let len = a + b * 2 ^ 8 + c * 2 ^ 16 + d * 2 ^ 24
  if leb (2 ^ 31) len
      then throw "push length overflow"
      else push_at script offset op_pushdata4 (i + 4) len

-- The body of the loop, at an index inside the script.
unfoldable pub instruction_at : List ℕ → ℕ → Result Instruction
instruction_at script offset =
    let opcode = get_or script offset 0 in
    let i = offset + 1 in
    if opcode == op_0
    then ok (record { opcode = opcode; payload = some []; offset = offset }, i)
    else (if leb 0x01 opcode && leb opcode 0x4b
        then push_at script offset opcode i opcode
        else (if opcode == op_pushdata1
            then pushdata1_at script offset i
            else (if opcode == op_pushdata2
                then pushdata2_at script offset i
                else (if opcode == op_pushdata4
                    then pushdata4_at script offset i
                    else ok (record { opcode = opcode; payload = none; offset = offset }, i)))))

-- `while (i < script.length)`. Each round consumes a byte at least.
unfoldable pub script_loop : ℕ → List ℕ → ℕ → Result (List ScriptOp)
script_loop zero script i = ok []
script_loop (suc fuel) script i =
    let body = do
      (op, next) ← instruction_at script i
      rest ← script_loop fuel script next
      ok (op ∷ rest)
    in if ltb i (length script) then body else ok []

unfoldable pub parse_script : List ℕ → Result (List ScriptOp)
parse_script script = script_loop (length script) script 0
