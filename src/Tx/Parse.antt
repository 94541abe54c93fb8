-- ===== src/Tx/Parse.antt =====
-- `parseTx` of packages/core/src/tx.ts.
use ordspv.Common
use ordspv.Common.{
  ℕ, zero, suc, ◌-◌, Bool, true, false, not, ◌||◌, List, [], ◌∷◌, Result, ok, err, throw, require,
  failure, ◌==◌, length, if◌then◌else◌,
}
use ordspv.Bytes.Hex.{internal_to_display}
use ordspv.Bytes.Reader.{
  reader, Read, pure, ◌>>=◌, ◌>>◌, check, slice, remaining, peek_u8, read_bytes, read_i32le,
  read_u32le, read_u64le, read_var_int_num, read_many, skip,
}
use ordspv.Tx.Types.{TxInput, TxOutput, TxBody, ParsedTx, some_witness}
use ordspv.Tx.Hash.{sha256d}
use ordspv.Tx.Serialize.{serialize_stripped}

unfoldable pub read_input : Read TxInput
read_input = do
  prev_txid_le ← read_bytes 32
  vout ← read_u32le
  script_len ← read_var_int_num
  script_sig ← read_bytes script_len
  sequence ← read_u32le
  pure (record {
    prev_txid_le = prev_txid_le;
    prev_txid = internal_to_display prev_txid_le;
    vout = vout;
    script_sig = script_sig;
    sequence = sequence;
    witness = [];
  })

unfoldable pub read_output : Read TxOutput
read_output = do
  value ← read_u64le
  script_len ← read_var_int_num
  script_pub_key ← read_bytes script_len
  pure (record { value = value; script_pub_key = script_pub_key })

unfoldable pub read_item : Read (List ℕ)
read_item = do len ← read_var_int_num; read_bytes len

-- The witness stacks of the inputs, in their order.
unfoldable pub read_witnesses : List TxInput → Read (List TxInput)
unfolding read_item
read_witnesses [] = pure []
read_witnesses (i ∷ rest) = do
  count ← read_var_int_num
  items ← read_many read_item count
  more ← read_witnesses rest
  pure (record i { witness = items } ∷ more)

-- BIP-144: the marker 0x00 and the flag 0x01 announce witnesses.
unfoldable pub read_flag : ℕ → Read Bool
read_flag marker =
    if marker == 0x00
    then (do flag ← peek_u8 1; check (flag == 0x01) "invalid segwit flag"; skip 2; pure true)
    else pure false

unfoldable pub read_marker : Read Bool
unfolding read_flag
read_marker = do marker ← peek_u8 0; read_flag marker

unfoldable pub read_stacks : Bool → List TxInput → Read (List TxInput)
unfolding read_witnesses
read_stacks false inputs = pure inputs
read_stacks true inputs = do
  filled ← read_witnesses inputs
  check (some_witness filled) "segwit marker present but all witness stacks empty"
  pure filled

-- The reads of `parseTx`, from the version to the locktime.
unfoldable pub read_tx : Read (Bool × TxBody)
unfolding read_marker read_input read_output read_stacks
read_tx = do
  version ← read_i32le
  has_witness ← read_marker
  vin_count ← read_var_int_num
  check (not (vin_count == 0)) "transaction has zero inputs"
  bare ← read_many read_input vin_count
  vout_count ← read_var_int_num
  outputs ← read_many read_output vout_count
  inputs ← read_stacks has_witness bare
  locktime ← read_u32le
  pure (
    has_witness,
    record { version = version; inputs = inputs; outputs = outputs; locktime = locktime },
  )

module _ (sha256 : List ℕ → List ℕ) where
  -- The identifiers: the txid is of the re-serialization, the wtxid of the bytes as received.
  unfoldable pub finish_tx : Bool → TxBody → List ℕ → ParsedTx
  finish_tx has_witness body exact_raw =
      let stripped = serialize_stripped body in
      let txid_le = sha256d sha256 stripped in
      let wtxid_le = if has_witness then sha256d sha256 exact_raw else txid_le in
      record {
        body = body;
        has_witness = has_witness;
        raw = exact_raw;
        stripped_raw = stripped;
        txid_le = txid_le;
        txid = internal_to_display txid_le;
        wtxid_le = wtxid_le;
        wtxid = internal_to_display wtxid_le;
        size = length exact_raw;
      }

  unfoldable pub parse_tx : Bool → ℕ → List ℕ → Result ParsedTx
  parse_tx allow_trailing offset raw = Common.◌>>=◌ (read_tx (reader raw offset)) λ (t, r).
      Common.◌>>◌
        (require (allow_trailing || remaining r == 0) (failure "trailing bytes after transaction"))
        (ok (finish_tx t.0 t.1 (slice raw offset (r.pos - offset))))
