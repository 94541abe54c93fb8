-- ===== src/Tx/Serialize.antt =====
-- `serializeStripped` and `serializeFull` of packages/core/src/tx.ts.
use ordspv.Common.{ℕ, List, [], ◌∷◌, length, if◌then◌else◌}
use ordspv.Bytes.Writer.{
  Writer, write_bytes, write_u8, write_u32le, write_i32le, write_u64le, write_var_int, to_bytes,
}
use ordspv.Tx.Types.{TxInput, TxOutput, TxBody, some_witness}

unfoldable pub write_input : TxInput → Writer → Writer
write_input i w =
    let w1 = write_bytes i.prev_txid_le w in
    let w2 = write_u32le i.vout w1 in
    let w3 = write_var_int (length i.script_sig) w2 in
    let w4 = write_bytes i.script_sig w3 in write_u32le i.sequence w4

unfoldable pub write_output : TxOutput → Writer → Writer
write_output o w =
    let w1 = write_u64le o.value w in
    let w2 = write_var_int (length o.script_pub_key) w1 in write_bytes o.script_pub_key w2

-- `for (const item of input.witness)`
unfoldable pub write_item : List ℕ → Writer → Writer
write_item item w = write_bytes item (write_var_int (length item) w)

-- A `for` loop that writes each element.
unfoldable pub write_each {ℓ} : {A : Type ℓ} → (A → Writer → Writer) → List A → Writer → Writer
write_each write [] w = w
write_each write (x ∷ xs) w = write_each write xs (write x w)

unfoldable pub write_witness : TxInput → Writer → Writer
write_witness i w = write_each write_item i.witness (write_var_int (length i.witness) w)

-- The counts, inputs and outputs, which both formats share.
unfoldable pub write_in_out : TxBody → Writer → Writer
write_in_out tx w =
    let w1 = write_each write_input tx.inputs (write_var_int (length tx.inputs) w) in
    write_each write_output tx.outputs (write_var_int (length tx.outputs) w1)

unfoldable pub serialize_stripped : TxBody → List ℕ
serialize_stripped tx =
    to_bytes (write_u32le tx.locktime (write_in_out tx (write_i32le tx.version [])))

unfoldable pub serialize_full : TxBody → List ℕ
serialize_full tx =
    if some_witness tx.inputs
    then (let w = write_u8 0x01 (write_u8 0x00 (write_i32le tx.version [])) in
        let w1 = write_each write_witness tx.inputs (write_in_out tx w) in
        to_bytes (write_u32le tx.locktime w1))
    else serialize_stripped tx
