-- ===== src/Header/Parse.antt =====
-- `parseHeader`, `checkProofOfWork` and `checkPowLimit` of packages/core/src/header.ts.
use ordspv.Common.{ℕ, Bool, List, Result, ok, require, failure, leb, ◌==◌, length, ◌>>=◌, ◌>>◌}
use ordspv.Common.Int.{ℤ}
use ordspv.Bytes.Hex.{internal_to_display}
use ordspv.Bytes.Order.{le_bytes_to_big_int}
use ordspv.Bytes.Reader.{Reader, Read, reader, pure, read_bytes, read_u32le, read_i32le}
use ordspv.Bytes.Reader
use ordspv.Tx.Hash.{sha256d}
use ordspv.Header.Target.{bits_to_target}

pub record BlockHeader : Type 0 where
  pub version : ℤ
  pub prev_block_le : List ℕ
  pub prev_block : List ℕ
  pub merkle_root_le : List ℕ
  pub merkle_root : List ℕ
  pub time : ℕ
  pub bits : ℕ
  pub nonce : ℕ
  pub raw : List ℕ
  pub hash_le : List ℕ
  pub hash : List ℕ

-- The fields in the order they stand in the 80 bytes.
unfoldable pub read_header : List ℕ → List ℕ → Read BlockHeader
read_header raw hash_le = Reader.◌>>=◌ read_i32le λ version.
    Reader.◌>>=◌ (read_bytes 32) λ prev_block_le. Reader.◌>>=◌ (read_bytes 32) λ merkle_root_le.
      Reader.◌>>=◌ read_u32le λ time. Reader.◌>>=◌ read_u32le λ bits.
        Reader.◌>>=◌ read_u32le λ nonce. pure (record {
          version = version;
          prev_block_le = prev_block_le;
          prev_block = internal_to_display prev_block_le;
          merkle_root_le = merkle_root_le;
          merkle_root = internal_to_display merkle_root_le;
          time = time;
          bits = bits;
          nonce = nonce;
          raw = raw;
          hash_le = hash_le;
          hash = internal_to_display hash_le;
        })

module _ (sha256 : List ℕ → List ℕ) where
  unfoldable pub parse_header : List ℕ → Result BlockHeader
  parse_header raw = do
    require (length raw == 80) (failure "block header must be 80 bytes")
    (header, r) ← read_header raw (sha256d sha256 raw) (reader raw 0)
    ok header

unfoldable pub check_proof_of_work : BlockHeader → Result Bool
check_proof_of_work header = do
  target ← bits_to_target header.bits
  ok (leb (le_bytes_to_big_int header.hash_le) target)

-- `number | null | undefined`
pub data PowLimit : Type 0 where
  of_mainnet : PowLimit
  disabled : PowLimit
  of_bits : ℕ → PowLimit

abbrev pub mainnet_pow_limit_bits : ℕ
mainnet_pow_limit_bits = 0x1d00_ffff

unfoldable pub check_limit : BlockHeader → ℕ → Result (Unit {0})
check_limit header limit = do
  target ← bits_to_target header.bits
  easiest ← bits_to_target limit
  require (leb target easiest) (failure "target is easier than the proof-of-work limit")

unfoldable pub check_pow_limit : BlockHeader → PowLimit → Result (Unit {0})
unfolding check_limit
check_pow_limit header of_mainnet = check_limit header mainnet_pow_limit_bits
check_pow_limit header disabled = ok tt
check_pow_limit header (of_bits limit) = check_limit header limit
