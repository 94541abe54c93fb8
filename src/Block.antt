-- ===== src/Block.antt =====
-- packages/core/src/block.ts: whole blocks.
pub mod RoundTrip
use ordspv.Common.{
  ℕ, zero, suc, ◌+◌, ◌*◌, Bool, true, List, [], ◌∷◌, ◌++◌, Result, ok, err, require, failure, ◌>>=◌,
  ◌>>◌, leb, ltb, ◌==◌, length, take, map,
}
use ordspv.Bytes.Hex.{concat_bytes}
use ordspv.Bytes.Reader.{Reader, reader, remaining, read_var_int_num, slice}
use ordspv.Bytes.Writer.{write_bytes, write_var_int, to_bytes}
use ordspv.Header.Parse.{BlockHeader, parse_header}
use ordspv.Tx.Types.{ParsedTx}
use ordspv.Tx.Parse.{parse_tx}

pub record ParsedBlock : Type 0 where
  pub header : BlockHeader
  pub txs : List ParsedTx

abbrev pub max_block_bytes : ℕ
max_block_bytes = 4_000_000

abbrev pub min_tx_bytes : ℕ
min_tx_bytes = 51

module _ (sha256 : List ℕ → List ℕ) where
  -- `for (let i = 0; i < count; i++)`: a transaction is parsed in place and the offset moves on by
  -- its size.
  unfoldable pub txs_loop : List ℕ → ℕ → ℕ → Result (List ParsedTx × ℕ)
  txs_loop raw zero offset = ok ([], offset)
  txs_loop raw (suc count) offset = do
    tx ← parse_tx sha256 true offset raw
    (txs, end) ← txs_loop raw count (offset + tx.size)
    ok (tx ∷ txs, end)

  unfoldable pub parse_block : List ℕ → Result ParsedBlock
  parse_block raw = do
    require (leb 81 (length raw)) (failure "block too short")
    require (leb (length raw) max_block_bytes) (failure "block size exceeds consensus maximum")
    header ← parse_header sha256 (slice raw 0 80)
    (count, r) ← read_var_int_num (reader raw 80)
    require (leb (count * min_tx_bytes) (remaining r))
        (failure "block claims more txs than its bytes")
    (txs, end) ← txs_loop raw count r.pos
    require (remaining (reader raw end) == 0) (failure "block has trailing bytes")
    ok (record { header = header; txs = txs })

-- Each transaction is given by its bytes.
unfoldable pub serialize_block : List ℕ → List (List ℕ) → List ℕ
serialize_block header_raw raws =
    concat_bytes (to_bytes (write_var_int (length raws) (write_bytes header_raw [])) ∷ raws)
