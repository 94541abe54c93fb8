-- ===== src/Tests/Commitments.antt =====
-- The search for a witness commitment at a concrete input.
use ordspv.Common.{ℕ, ◌≡◌, refl, ◌↔◌, true, List, [], ◌∷◌, ◌++◌, some, ok}
use ordspv.Common.Int.{pos}
use ordspv.Tests.Toy.{zeros, zero_txid}
use ordspv.Tx.Types.{TxOutput, ParsedTx, is_coinbase}
use ordspv.Witness.{find_witness_commitment}
use ordspv.Witness.Last.{LastCommitment, find_witness_commitment_iff}

-- `OP_RETURN <aa21a9ed, 31 zero bytes, b>`
abbrev commit : ℕ → TxOutput
commit b = record {
  value = 0;
  script_pub_key = (0x6a ∷ 0x24 ∷ 0xaa ∷ 0x21 ∷ 0xa9 ∷ 0xed ∷ []) ++ (zeros 31 ++ (b ∷ []));
}

-- Two commitments, then an output that is none.
abbrev outputs : List TxOutput
outputs = commit 1 ∷ commit 2 ∷ record { value = 50; script_pub_key = zeros 38 } ∷ []

abbrev coinbase : ParsedTx
coinbase = record {
  body = record {
    version = pos 2;
    inputs =
        record {
          prev_txid_le = zeros 32;
          prev_txid = zero_txid;
          vout = 0xffff_ffff;
          script_sig = [];
          sequence = 0;
          witness = zeros 32 ∷ [];
        }
        ∷ [];
    outputs = outputs;
    locktime = 0;
  };
  has_witness = true;
  raw = [];
  stripped_raw = [];
  txid_le = zeros 32;
  txid = zero_txid;
  wtxid_le = zeros 32;
  wtxid = zero_txid;
  size = 0;
}

find_witness_commitment_iff_example :
    (find_witness_commitment coinbase ≡ ok (some (zeros 31 ++ (2 ∷ []))))
    ↔ ((is_coinbase coinbase ≡ true) × LastCommitment outputs (zeros 31 ++ (2 ∷ [])))
find_witness_commitment_iff_example = find_witness_commitment_iff coinbase (zeros 31 ++ (2 ∷ []))

second_commitment : find_witness_commitment coinbase ≡ ok (some (zeros 31 ++ (2 ∷ [])))
unfolding ordspv.Witness.is_commitment ordspv.Witness.last_commitment
    ordspv.Witness.find_witness_commitment ordspv.Bytes.Hex.same_bytes ordspv.Bytes.Hex.bytes_equal
    ordspv.Tx.Types.all_zero ordspv.Tx.Types.is_coinbase
second_commitment = refl
