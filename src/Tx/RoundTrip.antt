-- ===== src/Tx/RoundTrip.antt =====
-- `parseTx` reads back what `serializeFull` of packages/core/src/tx.ts writes.
use ordspv.Common.{
  ℕ, ◌+◌, ◌^◌, ◌≤◌, ◌<◌, ◌≡◌, refl, sym, List, [], ◌∷◌, ◌++◌, append-nil, append_assoc, length,
  Bool, true, false, All, All-map, ok, arith, map, not, ap, if◌then◌else◌, ◌-◌, take,
  take-length-append, Bool-cases, inl, inr, ◌==◌, ◌||◌,
}
use ordspv.Bytes.Hex.{internal_to_display}
use ordspv.Bytes.Order.{IsInt32}
use ordspv.Bytes.Reader.{remaining, skip, Read, pure, ◌>>=◌, max_safe_integer, read_many}
use ordspv.Bytes.Reads.{
  Reads, Reads-pure, Reads-bind, Reads-read_bytes, Reads-u32, Reads-u64, Reads-i32, Reads-many,
  encode_all, peek_here, peek_next, Reads-check,
}
use ordspv.Bytes.Writer.{var_int, var_int-head}
use ordspv.Bytes.VarInt.{Reads-var_int_num}
use ordspv.Tx.Hash.{sha256d}
use ordspv.Tx.Types.{TxInput, TxOutput, TxBody, ParsedTx, some_witness, has_items}
use ordspv.Tx.Parse.{
  read_input, read_output, read_item, read_witnesses, read_marker, read_stacks, read_tx, finish_tx,
  parse_tx,
}
use ordspv.Tx.Serialize.{serialize_full, serialize_stripped}
use ordspv.Tx.Encode.{
  input_bytes, output_bytes, item_bytes, witness_bytes, in_out_bytes, stripped_bytes, full_bytes,
  serialize_stripped-bytes, serialize_full-bytes,
}

-- The bounds of the wire format. `prev_txid` is the display form of `prev_txid_le`.
pub record IsInput (i : TxInput) : Type 0 where
  pub txid_length : length i.prev_txid_le ≡ 32
  pub txid_display : i.prev_txid ≡ internal_to_display i.prev_txid_le
  pub vout_fits : i.vout < 2 ^ 32
  pub script_fits : length i.script_sig ≤ max_safe_integer
  pub sequence_fits : i.sequence < 2 ^ 32
  pub count_fits : length i.witness ≤ max_safe_integer
  pub items_fit : All (λ b. length b ≤ max_safe_integer) i.witness

pub record IsOutput (o : TxOutput) : Type 0 where
  pub value_fits : o.value < 2 ^ 64
  pub script_fits : length o.script_pub_key ≤ max_safe_integer

-- An input as `parseTx` first reads it.
abbrev pub bare : TxInput → TxInput
bare i = record i { witness = [] }

Reads-last :
    {A B : Type 0} (m : Read A) (f : A → B) (enc : List ℕ) (a : A)
    → Reads m enc a
    → Reads (m >>= λ x. pure (f x)) enc (f a)
Reads-last m f enc a h =
    rw (sym (append-nil enc)) (Reads-bind m (λ x. pure (f x)) enc [] a (f a) h (Reads-pure (f a)))

Reads-output : (o : TxOutput) → IsOutput o → Reads read_output (output_bytes o) o
unfolding read_output
Reads-output o v = Reads-bind _ _ _ _ _ _ (Reads-u64 o.value v.value_fits) (
    Reads-bind _ _ _ _ _ _ (Reads-var_int_num (length o.script_pub_key) v.script_fits)
      (Reads-last _ _ _ _ (Reads-read_bytes o.script_pub_key)))

Reads-input : (i : TxInput) → IsInput i → Reads read_input (input_bytes i) (bare i)
unfolding read_input
Reads-input i v = rw v.txid_display (
    Reads-bind _ _ _ _ _ _ (rw v.txid_length at (Reads-read_bytes i.prev_txid_le)) (
      Reads-bind _ _ _ _ _ _ (Reads-u32 i.vout v.vout_fits) (
        Reads-bind _ _ _ _ _ _ (Reads-var_int_num (length i.script_sig) v.script_fits) (
          Reads-bind _ _ _ _ _ _ (Reads-read_bytes i.script_sig)
            (Reads-last _ _ _ _ (Reads-u32 i.sequence v.sequence_fits))))))

Reads-item : (b : List ℕ) → length b ≤ max_safe_integer → Reads read_item (item_bytes b) b
unfolding read_item
Reads-item b h = Reads-bind _ _ _ _ _ _ (Reads-var_int_num (length b) h) (Reads-read_bytes b)

Reads-stack :
    (ws : List (List ℕ))
    → All (λ b. length b ≤ max_safe_integer) ws
    → Reads (read_many read_item (length ws)) (encode_all item_bytes ws) ws
Reads-stack ws h = Reads-many read_item item_bytes ws (All-map _ _ ws Reads-item h)

Reads-witnesses :
    (is : List TxInput)
    → All IsInput is
    → Reads (read_witnesses (map bare is)) (encode_all witness_bytes is) is
unfolding read_witnesses
Reads-witnesses [] h = Reads-pure []
Reads-witnesses (i ∷ is) (v, vs) =
    rw
      (append_assoc (var_int (length i.witness)) (encode_all item_bytes i.witness)
        (encode_all witness_bytes is))
      (Reads-bind _ _ _ _ _ _ (Reads-var_int_num (length i.witness) v.count_fits) (
        Reads-bind _ _ _ _ _ _ (Reads-stack i.witness v.items_fit)
          (Reads-last _ _ _ _ (Reads-witnesses is vs))))

Reads-bare :
    (is : List TxInput)
    → All IsInput is
    → Reads (read_many read_input (length is)) (encode_all input_bytes is) (map bare is)
unfolding read_many
Reads-bare [] h = Reads-pure []
Reads-bare (i ∷ is) (v, vs) =
    Reads-bind _ _ _ _ _ _ (Reads-input i v) (Reads-last _ _ _ _ (Reads-bare is vs))

-- The marker and the flag are consumed.
Reads-marker : Reads read_marker (0 ∷ 1 ∷ []) true
unfolding read_marker skip
Reads-marker = record { runs = λ pre rest. rw (peek_here 0 pre (1 ∷ rest), peek_next 0 1 pre rest) }

-- A positive input count is no marker, and is left in place.
Reads-no_marker :
    {A : Type 0} (k : Bool → Read A) (count : ℕ) (enc : List ℕ) (a : A)
    → 0 < count
    → Reads (k false) (var_int count ++ enc) a
    → Reads (read_marker >>= k) (var_int count ++ enc) a
unfolding read_marker
Reads-no_marker k count enc a h r =
    let (b, t, head, ne) = var_int-head count h in
    let other : (b == 0) ≡ false = ground arith in
    record {
      runs = λ pre rest.
          rw head (rw (peek_here b pre ((t ++ enc) ++ rest), other) ((rw head at r).runs pre rest));
    }

pub record IsTx (tx : TxBody) : Type 0 where
  pub version_fits : IsInt32 tx.version
  pub some_input : 0 < length tx.inputs
  pub inputs_fit : length tx.inputs ≤ max_safe_integer
  pub inputs_valid : All IsInput tx.inputs
  pub outputs_fit : length tx.outputs ≤ max_safe_integer
  pub outputs_valid : All IsOutput tx.outputs
  pub locktime_fits : tx.locktime < 2 ^ 32

-- The reads behind the input count, with the stacks' bytes given.
no_items : (ws : List (List ℕ)) → has_items ws ≡ false → ws ≡ []
unfolding has_items
no_items [] e = refl
no_items (w ∷ ws) e = cc

or_false : (a b : Bool) → (a || b) ≡ false → (a ≡ false) × (b ≡ false)
or_false a b e = ground arith

bare_no_items : (i : TxInput) → has_items i.witness ≡ false → bare i ≡ i
bare_no_items i e = λ j. record i { witness = sym (no_items i.witness e) j }

no_stacks : (is : List TxInput) → some_witness is ≡ false → map bare is ≡ is
unfolding some_witness
no_stacks [] e = refl
no_stacks (i ∷ is) e =
    let (here, later) = or_false (has_items i.witness) (some_witness is) e in
    cc (bare_no_items i here, no_stacks is later)

Reads-stacks :
    (is : List TxInput)
    → All IsInput is
    → some_witness is ≡ true
    → Reads (read_stacks true (map bare is)) (encode_all witness_bytes is) is
unfolding read_stacks
Reads-stacks is vs h =
    rw (sym (append-nil (encode_all witness_bytes is)))
      (Reads-bind _ _ _ _ _ _ (Reads-witnesses is vs) (Reads-check _ _ _ _ _ h (Reads-pure is)))

regroup :
    (tx : TxBody) (rest : List ℕ)
    → in_out_bytes tx ++ rest
      ≡ var_int (length tx.inputs)
        ++ (encode_all input_bytes tx.inputs
            ++ (var_int (length tx.outputs) ++ (encode_all output_bytes tx.outputs ++ rest)))
regroup tx rest = simp append_assoc

module _ (tx : TxBody) (v : IsTx tx) where
  Reads-outputs :
      Reads
        (read_many read_output (length tx.outputs))
        (encode_all output_bytes tx.outputs)
        tx.outputs
  Reads-outputs =
      Reads-many read_output output_bytes tx.outputs
        (All-map _ _ tx.outputs Reads-output v.outputs_valid)

  count_ne_zero : not (length tx.inputs == 0) ≡ true
  count_ne_zero = let p = v.some_input in ground arith

  pub Reads-full : some_witness tx.inputs ≡ true → Reads read_tx (full_bytes tx) (true, tx)
  unfolding read_tx
  Reads-full h = rw regroup (
      Reads-bind _ _ _ _ _ _ (Reads-i32 tx.version v.version_fits) (
        Reads-bind _ _ _ _ _ _ Reads-marker (
          Reads-bind _ _ _ _ _ _ (Reads-var_int_num (length tx.inputs) v.inputs_fit) (
            Reads-check _ _ _ _ _ count_ne_zero (
              Reads-bind _ _ _ _ _ _ (Reads-bare tx.inputs v.inputs_valid) (
                Reads-bind _ _ _ _ _ _ (Reads-var_int_num (length tx.outputs) v.outputs_fit) (
                  Reads-bind _ _ _ _ _ _ Reads-outputs (
                    Reads-bind _ _ _ _ _ _ (Reads-stacks tx.inputs v.inputs_valid h)
                      (Reads-last _ _ _ _ (Reads-u32 tx.locktime v.locktime_fits))))))))))

  pub Reads-stripped :
      some_witness tx.inputs ≡ false → Reads read_tx (stripped_bytes tx) (false, tx)
  unfolding read_tx
  Reads-stripped h = rw regroup (
      Reads-bind _ _ _ _ _ _ (Reads-i32 tx.version v.version_fits) (
        Reads-no_marker _ _ _ _ v.some_input (
          Reads-bind _ _ _ _ _ _ (Reads-var_int_num (length tx.inputs) v.inputs_fit) (
            Reads-check _ _ _ _ _ count_ne_zero (
              Reads-bind _ _ _ _ _ _ (Reads-bare tx.inputs v.inputs_valid) (
                Reads-bind _ _ _ _ _ _ (Reads-var_int_num (length tx.outputs) v.outputs_fit) (
                  Reads-bind _ _ _ _ _ _ Reads-outputs (
                    rw (no_stacks tx.inputs h)
                      (Reads-last _ _ _ _ (Reads-u32 tx.locktime v.locktime_fits))))))))))

-- A buffer that holds one transaction and nothing else.
parse_of_Reads :
    (sha256 : List ℕ → List ℕ) (raw : List ℕ) (flag : Bool) (tx : TxBody)
    → Reads read_tx raw (flag, tx)
    → parse_tx sha256 false 0 raw ≡ ok (finish_tx sha256 flag tx raw)
unfolding parse_tx remaining
parse_of_Reads sha256 raw flag tx r =
    let reads = rw append-nil at (r.runs [] []) in
    let none_left : (length raw - (0 + length raw) == 0) ≡ true = ground arith in
    let all_of : 0 + length raw - 0 ≡ length raw = omega arith in
    let whole : take (length raw) raw ≡ raw = rw append-nil at (take-length-append raw []) in
    rw (reads, none_left, all_of, whole)

parse_tx-finished :
    (sha256 : List ℕ → List ℕ) (tx : TxBody)
    → IsTx tx
    → parse_tx sha256 false 0 (serialize_full tx)
      ≡ ok (finish_tx sha256 (some_witness tx.inputs) tx (serialize_full tx))
parse_tx-finished sha256 tx v = elim (Bool-cases (some_witness tx.inputs)) [
  | inl h ↦
      rw (serialize_full-bytes tx h, h)
        (parse_of_Reads sha256 (full_bytes tx) true tx (Reads-full tx v h))
  | inr h ↦
      let same : serialize_full tx ≡ stripped_bytes tx =
        unfold serialize_full in rw h (serialize_stripped-bytes tx) in
      rw (same, h) (parse_of_Reads sha256 (stripped_bytes tx) false tx (Reads-stripped tx v h))
]

-- The full serialization of a transaction without witnesses is the stripped one.
serialize_full-stripped :
    (tx : TxBody) → some_witness tx.inputs ≡ false → serialize_full tx ≡ serialize_stripped tx
unfolding serialize_full
serialize_full-stripped tx h = rw h refl

-- A transaction within the bounds of the wire format is read back from its serialization, with or
-- without witnesses: the parsed fields are those of the transaction, its bytes are the two
-- serializations, its txid is the double hash of the stripped one and its wtxid that of the full one.
pub parse_tx-serialize_full :
    (sha256 : List ℕ → List ℕ) (tx : TxBody)
    → IsTx tx
    → (parsed : ParsedTx) × (parse_tx sha256 false 0 (serialize_full tx) ≡ ok parsed)
      × (parsed.body ≡ tx)
      × (parsed.has_witness ≡ some_witness tx.inputs)
      × ((parsed.raw ≡ serialize_full tx) × (parsed.stripped_raw ≡ serialize_stripped tx))
      × ((parsed.txid_le ≡ sha256 (sha256 (serialize_stripped tx)))
          × (parsed.txid ≡ internal_to_display parsed.txid_le))
      × ((parsed.wtxid_le ≡ sha256 (sha256 (serialize_full tx)))
          × (parsed.wtxid ≡ internal_to_display parsed.wtxid_le))
      × (parsed.size ≡ length (serialize_full tx))
unfolding finish_tx sha256d
parse_tx-serialize_full sha256 tx v =
    let hashed : (if some_witness tx.inputs
          then sha256 (sha256 (serialize_full tx))
          else sha256 (sha256 (serialize_stripped tx)))
        ≡ sha256 (sha256 (serialize_full tx)) =
      (elim (Bool-cases (some_witness tx.inputs)) [
        | inl h ↦ rw h refl
        | inr h ↦ rw h (ap (λ (b : List ℕ). sha256 (sha256 b)) (sym (serialize_full-stripped tx h)))
      ]) in
    (
      finish_tx sha256 (some_witness tx.inputs) tx (serialize_full tx),
      parse_tx-finished sha256 tx v,
      refl,
      refl,
      (refl, refl),
      (refl, refl),
      (hashed, refl),
      refl,
    )
