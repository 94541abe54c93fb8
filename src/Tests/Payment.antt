-- ===== src/Tests/Payment.antt =====
-- Test data: a transaction of two inputs and two outputs.
use ordspv.Common.{ℕ, true, [], ◌∷◌}
use ordspv.Common.Int.{pos}
use ordspv.Tests.Toy.{zeros, zero_txid, ord_script, control}
use ordspv.Tx.Types.{TxInput, TxOutput, ParsedTx}

-- Two inputs of 50 and 60 sats that fund outputs of 70 and 30.
abbrev spend : ℕ → TxInput
spend vout = record {
  prev_txid_le = zeros 32;
  prev_txid = zero_txid;
  vout = vout;
  script_sig = [];
  sequence = 0;
  witness = ord_script ∷ control ∷ [];
}

abbrev pay : ℕ → TxOutput
pay value = record { value = value; script_pub_key = [] }

abbrev pub tx0 : ParsedTx
tx0 = record {
  body = record {
    version = pos 2;
    inputs = spend 0 ∷ spend 1 ∷ [];
    outputs = pay 70 ∷ pay 30 ∷ [];
    locktime = 0;
  };
  has_witness = true;
  raw = [];
  stripped_raw = [];
  txid_le = zeros 32;
  txid = zero_txid;
  wtxid_le = zeros 32;
  wtxid = zero_txid;
  size = 0;
}
