-- ===== src/Tx/Encode.antt =====
-- The bytes that the serializers of packages/core/src/tx.ts write, as plain appends.
use ordspv.Common.{
  ℕ, ◌≡◌, refl, ap, ◌∙◌, sym, List, [], ◌∷◌, ◌++◌, append-nil, append_assoc, length, true,
}
use ordspv.Bytes.Hex.{concat_bytes}
use ordspv.Bytes.Order.{to_le, of_int32}
use ordspv.Bytes.Writer.{
  Writer, to_bytes, var_int, to_bytes-write_bytes, to_bytes-write_u8, to_bytes-write_u32le,
  to_bytes-write_i32le, to_bytes-write_u64le, to_bytes-write_var_int, write_var_int,
}
use ordspv.Bytes.Reads.{encode_all}
use ordspv.Tx.Types.{TxInput, TxOutput, TxBody, some_witness}
use ordspv.Tx.Serialize.{
  write_input, write_output, write_item, write_each, write_witness, write_in_out,
  serialize_stripped, serialize_full,
}

abbrev pub input_bytes : TxInput → List ℕ
input_bytes i =
    i.prev_txid_le
    ++ (to_le 4 i.vout ++ (var_int (length i.script_sig) ++ (i.script_sig ++ to_le 4 i.sequence)))

abbrev pub output_bytes : TxOutput → List ℕ
output_bytes o = to_le 8 o.value ++ (var_int (length o.script_pub_key) ++ o.script_pub_key)

abbrev pub item_bytes : List ℕ → List ℕ
item_bytes item = var_int (length item) ++ item

abbrev pub witness_bytes : TxInput → List ℕ
witness_bytes i = var_int (length i.witness) ++ encode_all item_bytes i.witness

abbrev pub in_out_bytes : TxBody → List ℕ
in_out_bytes tx =
    var_int (length tx.inputs)
    ++ (encode_all input_bytes tx.inputs
        ++ (var_int (length tx.outputs) ++ encode_all output_bytes tx.outputs))

abbrev pub stripped_bytes : TxBody → List ℕ
stripped_bytes tx = to_le 4 (of_int32 tx.version) ++ (in_out_bytes tx ++ to_le 4 tx.locktime)

abbrev pub full_bytes : TxBody → List ℕ
full_bytes tx =
    to_le 4 (of_int32 tx.version)
    ++ ((0 ∷ 1 ∷ [])
        ++ (in_out_bytes tx ++ (encode_all witness_bytes tx.inputs ++ to_le 4 tx.locktime)))

-- A writer function appends `enc`.
abbrev Appends : (Writer → Writer) → List ℕ → Type 0
Appends write enc = (w : Writer) → to_bytes (write w) ≡ to_bytes w ++ enc

to_bytes-write_input : (i : TxInput) → Appends (write_input i) (input_bytes i)
unfolding write_input
to_bytes-write_input i w =
    simp (to_bytes-write_u32le, to_bytes-write_bytes, to_bytes-write_var_int, append_assoc)

to_bytes-write_output : (o : TxOutput) → Appends (write_output o) (output_bytes o)
unfolding write_output
to_bytes-write_output o w =
    simp (to_bytes-write_u64le, to_bytes-write_bytes, to_bytes-write_var_int, append_assoc)

to_bytes-write_item : (b : List ℕ) → Appends (write_item b) (item_bytes b)
unfolding write_item
to_bytes-write_item b w = simp (to_bytes-write_bytes, to_bytes-write_var_int, append_assoc)

to_bytes-write_each {ℓ} :
    {A : Type ℓ} (write : A → Writer → Writer) (enc : A → List ℕ) (xs : List A)
    → ((x : A) → Appends (write x) (enc x))
    → Appends (write_each write xs) (encode_all enc xs)
unfolding write_each
to_bytes-write_each write enc [] h w = sym (append-nil (to_bytes w))
to_bytes-write_each write enc (x ∷ xs) h w =
    to_bytes-write_each write enc xs h (write x w)
    ∙ ap (λ p. p ++ encode_all enc xs) (h x w)
    ∙ append_assoc (to_bytes w) (enc x) (encode_all enc xs)

to_bytes-write_witness : (i : TxInput) → Appends (write_witness i) (witness_bytes i)
unfolding write_witness
to_bytes-write_witness i w =
    to_bytes-write_each write_item item_bytes i.witness to_bytes-write_item
      (write_var_int (length i.witness) w)
    ∙ simp (to_bytes-write_var_int, append_assoc)

to_bytes-write_in_out : (tx : TxBody) → Appends (write_in_out tx) (in_out_bytes tx)
unfolding write_in_out
to_bytes-write_in_out tx w = simp (
  to_bytes-write_each write_output output_bytes tx.outputs to_bytes-write_output,
  to_bytes-write_each write_input input_bytes tx.inputs to_bytes-write_input,
  to_bytes-write_var_int,
  append_assoc,
)

pub serialize_stripped-bytes : (tx : TxBody) → serialize_stripped tx ≡ stripped_bytes tx
unfolding serialize_stripped
serialize_stripped-bytes tx =
    simp (to_bytes-write_u32le, to_bytes-write_in_out, to_bytes-write_i32le, append_assoc)
      (unfold to_bytes concat_bytes in refl)

pub serialize_full-bytes :
    (tx : TxBody) → some_witness tx.inputs ≡ true → serialize_full tx ≡ full_bytes tx
unfolding serialize_full
serialize_full-bytes tx h = rw h (
    simp
      (
        to_bytes-write_u32le,
        to_bytes-write_each write_witness witness_bytes tx.inputs to_bytes-write_witness,
        to_bytes-write_in_out,
        to_bytes-write_u8,
        to_bytes-write_i32le,
        append_assoc,
      )
      (unfold to_bytes concat_bytes in refl))
