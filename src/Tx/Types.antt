-- ===== src/Tx/Types.antt =====
-- The records of packages/core/src/tx.ts.
use ordspv.Common.{ℕ, Bool, true, false, List, [], ◌∷◌, ◌&&◌, ◌||◌, ◌==◌}
use ordspv.Common.Int.{ℤ}

pub record TxInput : Type 0 where
  pub prev_txid_le : List ℕ
  -- display order
  pub prev_txid : List ℕ
  pub vout : ℕ
  pub script_sig : List ℕ
  pub sequence : ℕ
  pub witness : List (List ℕ)

pub record TxOutput : Type 0 where
  pub value : ℕ
  pub script_pub_key : List ℕ

-- What the serializers take of a transaction.
pub record TxBody : Type 0 where
  pub version : ℤ
  pub inputs : List TxInput
  pub outputs : List TxOutput
  pub locktime : ℕ

pub record ParsedTx : Type 0 where
  pub body : TxBody
  pub open body use *
  pub has_witness : Bool
  pub raw : List ℕ
  pub stripped_raw : List ℕ
  pub txid_le : List ℕ
  pub txid : List ℕ
  pub wtxid_le : List ℕ
  pub wtxid : List ℕ
  pub size : ℕ

unfoldable pub has_items : List (List ℕ) → Bool
has_items [] = false
has_items (w ∷ ws) = true

-- `inputs.some((i) => i.witness.length > 0)`
unfoldable pub some_witness : List TxInput → Bool
unfolding has_items
some_witness [] = false
some_witness (i ∷ rest) = has_items i.witness || some_witness rest

-- `every((b) => b === 0)`
unfoldable pub all_zero : List ℕ → Bool
all_zero [] = true
all_zero (b ∷ bs) = (b == 0) && all_zero bs

unfoldable pub is_null_outpoint : TxInput → Bool
unfolding all_zero
is_null_outpoint i = (i.vout == 0xffff_ffff) && all_zero i.prev_txid_le

unfoldable pub is_coinbase_of : List TxInput → Bool
unfolding is_null_outpoint
is_coinbase_of [] = false
is_coinbase_of (i ∷ []) = is_null_outpoint i
is_coinbase_of (i ∷ j ∷ rest) = false

-- A single input that spends the null outpoint.
unfoldable pub is_coinbase : ParsedTx → Bool
unfolding is_coinbase_of
is_coinbase tx = is_coinbase_of tx.inputs
