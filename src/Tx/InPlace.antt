-- ===== src/Tx/InPlace.antt =====
-- Transactions read in place inside a longer buffer, as `parseBlock` reads them, and their least
-- size.
use ordspv.Common.{
  ℕ, zero, suc, ◌+◌, ◌-◌, ◌≤◌, ◌<◌, ◌≡◌, refl, inl, inr, arith, true, List, [], ◌∷◌, ◌++◌, ok,
  Bool-cases, length, length-append, take-length-append, drop-length-append, All,
}
use ordspv.Bytes.Order.{length-to_le}
use ordspv.Bytes.Reads.{Reads, encode_all}
use ordspv.Bytes.Writer.{var_int, var_int-head}
use ordspv.Tx.Encode.{
  input_bytes, in_out_bytes, stripped_bytes, serialize_stripped-bytes, serialize_full-bytes,
}
use ordspv.Tx.Parse.{read_tx, finish_tx, parse_tx}
use ordspv.Tx.RoundTrip.{IsInput, IsTx, Reads-full, Reads-stripped}
use ordspv.Tx.Serialize.{serialize_full}
use ordspv.Tx.Types.{TxInput, TxBody, some_witness}

pub Reads-serialize_full :
    (tx : TxBody) → IsTx tx → Reads read_tx (serialize_full tx) (some_witness tx.inputs, tx)
Reads-serialize_full tx v = elim (Bool-cases (some_witness tx.inputs)) [
  | inl h ↦ rw (serialize_full-bytes tx h, h) (Reads-full tx v h)
  | inr h ↦
      let same : serialize_full tx ≡ stripped_bytes tx =
        unfold serialize_full in rw h (serialize_stripped-bytes tx) in
      rw (same, h) (Reads-stripped tx v h)
]

-- A transaction's bytes are found wherever they stand.
pub parse_tx-in_place :
    (sha256 : List ℕ → List ℕ) (tx : TxBody) (pre rest : List ℕ)
    → IsTx tx
    → parse_tx sha256 true (length pre) (pre ++ (serialize_full tx ++ rest))
      ≡ ok (finish_tx sha256 (some_witness tx.inputs) tx (serialize_full tx))
unfolding parse_tx
parse_tx-in_place sha256 tx pre rest v =
    let enc = serialize_full tx in
    let reads = (Reads-serialize_full tx v).runs pre rest in
    let all_of : length pre + length enc - length pre ≡ length enc = omega arith in
    rw (reads, all_of, drop-length-append pre (enc ++ rest), take-length-append enc rest) refl

pub var_int-size : (n : ℕ) → 0 < length (var_int n)
var_int-size zero = unfold var_int in omega arith
var_int-size (suc n) = let (b, t, e, _) = var_int-head (suc n) (omega arith) in rw e (omega arith)

input-size : (i : TxInput) → IsInput i → 41 ≤ length (input_bytes i)
input-size i v =
    simp (length-append, length-to_le)
      (omega (arith, v.txid_length, var_int-size (length i.script_sig)))

inputs-size :
    (is : List TxInput) → All IsInput is → 0 < length is → 41 ≤ length (encode_all input_bytes is)
inputs-size [] h p = absurd (omega arith)
inputs-size (i ∷ is) (h, hs) p =
    omega (arith, length-append (input_bytes i) (encode_all input_bytes is), input-size i h)

in_out-size : (tx : TxBody) → IsTx tx → 43 ≤ length (in_out_bytes tx)
in_out-size tx v = simp length-append (
    omega (
      arith,
      inputs-size tx.inputs v.inputs_valid v.some_input,
      var_int-size (length tx.inputs),
      var_int-size (length tx.outputs),
    ))

-- The bound that `parseBlock` takes for a claimed count.
pub serialize_full-size : (tx : TxBody) → IsTx tx → 51 ≤ length (serialize_full tx)
serialize_full-size tx v =
    let core = simp length-append at (in_out-size tx v) in
    elim (Bool-cases (some_witness tx.inputs)) [
      | inl h ↦
          rw (serialize_full-bytes tx h) (simp (length-append, length-to_le) (omega (arith, core)))
      | inr h ↦
          let same : serialize_full tx ≡ stripped_bytes tx =
            unfold serialize_full in rw h (serialize_stripped-bytes tx) in
          rw same (simp (length-append, length-to_le) (omega (arith, core)))
    ]
