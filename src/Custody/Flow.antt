-- ===== src/Custody/Flow.antt =====
-- The sat arithmetic of packages/core/src/custody.ts. Values and positions are bigints that are
-- never negative here, so the test `position < 0n` has no counterpart.
use ordspv.Common.{
  ℕ, suc, ◌+◌, ◌-◌, Bool, not, ◌&&◌, ◌||◌, List, [], ◌∷◌, Option, none, some, Result, ok, err,
  require, failure, custody_unsupported, relabel, or_throw, ◌>>=◌, ◌>>◌, leb, ltb, ◌==◌,
  if◌then◌else◌, length, take, get_elem?, get_or, map,
}
use ordspv.Bytes.Hex.{bytes_equal}
use ordspv.Custody.Satpoint.{Satpoint}
use ordspv.Envelope.Interpret.{Inscription}
use ordspv.Tx.Types.{TxInput, TxOutput, ParsedTx, is_coinbase}
use ordspv.Witness.{parse_hex_tx}

unfoldable pub sum : List ℕ → ℕ
sum [] = 0
sum (v ∷ vs) = v + sum vs

unfoldable pub values_of_outputs : List TxOutput → List ℕ
values_of_outputs = map (λ out. out.value)

unfoldable pub total_output_sats : ParsedTx → ℕ
unfolding sum values_of_outputs
total_output_sats tx = sum (values_of_outputs tx.outputs)

-- The loop of `mapToOutputs` from output `vout` on.
unfoldable pub map_loop : List ℕ → ℕ → List TxOutput → ℕ → Option Satpoint
map_loop txid vout [] remaining = none
map_loop txid vout (out ∷ outs) remaining =
    if ltb remaining out.value
    then some (record { txid = txid; vout = vout; offset = remaining })
    else map_loop txid (vout + 1) outs (remaining - out.value)

unfoldable pub map_to_outputs : ParsedTx → ℕ → Option Satpoint
map_to_outputs tx position = map_loop tx.txid 0 tx.outputs position

-- The list's type is given.
unfoldable pub check_prev_tx_count : ParsedTx → List (List ℕ) → Result (Unit {0})
check_prev_tx_count tx prev_txs =
    require (leb (length prev_txs) (length tx.inputs))
      (failure "an entry past the input count corresponds to no input")

-- `tx.inputs.findIndex((inp) => inp.prevTxid === from.txid && inp.vout === from.vout)`
unfoldable pub spends : Satpoint → TxInput → Bool
spends sp i = bytes_equal i.prev_txid sp.txid && i.vout == sp.vout

unfoldable pub find_spend : Satpoint → List TxInput → Option ℕ
find_spend sp [] = none
find_spend sp (i ∷ rest) =
    let more : Option ℕ = elim (find_spend sp rest) [ none ↦ none | some j ↦ some (suc j) ] in
    if spends sp i then some 0 else more

unfoldable pub coverage : List ℕ → ℕ → Bool
coverage values upto = leb (upto + 1) (length values)

unfoldable pub position_of : List ℕ → ℕ → ℕ
unfolding sum
position_of values input = sum (take input values)

-- The pointer when it is valid, and the first sat of the envelope's input else.
unfoldable pub genesis_position : ParsedTx → Inscription → List ℕ → ℕ
genesis_position reveal inscription values = elim inscription.pointer [
  | none ↦ position_of values inscription.input
  | some p ↦ if ltb p (total_output_sats reveal) then p else position_of values inscription.input
]

-- A place in the outputs, or the refusal of a sat in the fee.
unfoldable pub in_outputs : Option Satpoint → Option ℕ → Result Satpoint
in_outputs (some sp) height = ok sp
in_outputs none height = err (custody_unsupported height)

-- A valid pointer always lands in an output, so the source's second refusal, that one left the
-- outputs, is never reached.
unfoldable pub genesis_satpoint : ParsedTx → Inscription → List ℕ → Option ℕ → Result Satpoint
unfolding in_outputs
genesis_satpoint reveal inscription values height = do
  require (not (is_coinbase reveal)) (failure "coinbase transactions cannot carry inscriptions")
  require (ltb inscription.input (length reveal.inputs)) (failure "envelope input out of range")
  require (coverage values inscription.input) (failure "need input values")
  require (not (inscription.unbound_by_even_field || get_or values inscription.input 0 == 0))
      (custody_unsupported height)
  in_outputs (map_to_outputs reveal (genesis_position reveal inscription values)) height

unfoldable pub transfer_satpoint : ParsedTx → List ℕ → Satpoint → Option ℕ → Result Satpoint
unfolding in_outputs
transfer_satpoint tx values from height = do
  j ← or_throw (find_spend from tx.inputs) "transaction does not spend the satpoint"
  require (coverage values j) (failure "need input values")
  in_outputs (map_to_outputs tx (from.offset + position_of values j)) height

module _ (sha256 : List ℕ → List ℕ) where
  -- The transaction that an input spends, proven by its hash, and the output spent.
  unfoldable pub spent_output : TxInput → List ℕ → Result TxOutput
  spent_output input prev_hex = do
    prev ← relabel "prev tx: cannot parse" (parse_hex_tx sha256 prev_hex)
    require (bytes_equal prev.txid input.prev_txid) (failure "prev tx hashes to another txid")
    or_throw (get_elem? prev.outputs input.vout) "prev tx has no such output"

  -- The loop of `provenInputValues`, with `count` inputs to go; both lists are long enough.
  unfoldable pub values_loop : ℕ → List TxInput → List (List ℕ) → Result (List ℕ)
  values_loop (suc count) (i ∷ inputs) (p ∷ prevs) = do
    spent ← spent_output i p
    rest ← values_loop count inputs prevs
    ok (spent.value ∷ rest)
  values_loop _ _ _ = ok []

  unfoldable pub proven_input_values : ParsedTx → List (List ℕ) → ℕ → Result (List ℕ)
  proven_input_values tx prev_txs upto = do
    require (ltb upto (length tx.inputs)) (failure "input index out of range")
    require (leb (upto + 1) (length prev_txs)) (failure "need prev txs")
    values_loop (upto + 1) tx.inputs prev_txs
