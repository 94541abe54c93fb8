-- ===== src/Fetch/SyncTrust.antt =====
-- `headerSyncTrust` and `blockHashMerkleRoot` of packages/fetch/src/headersync.ts.
use ordspv.Common.{
  ℕ, zero, suc, ◌+◌, ◌≡◌, ap, sym, ◌∙◌, true, false, not, ◌&&◌, List, [], ◌∷◌, Option, none, some,
  Result, ok, err, throw, require, header_trust, ◌>>◌, >>=-eq-ok, ltb, length,
}
use ordspv.Bytes.Hex.{bytes_equal}
use ordspv.Custody.Bundle.{hash_at_height}
use ordspv.Fetch.HeaderChain.{ChainConfig, HeaderChain, tip_height, header_at}
use ordspv.Fetch.HeaderTrust.{HeaderTrustReport}
use ordspv.Header.Parse.{BlockHeader}
use ordspv.Merkle.Level.{next_level-plain}
use ordspv.Merkle.Tree.{plain_level, next_level, root_loop, compute_merkle_root}

unfoldable pub sync_report : ℕ → HeaderTrustReport
sync_report tip = record {
  checkpoint_hit = false;
  sources_queried = 1;
  sources_agreed = 1;
  sources_disagreed = 0;
  sources_unreachable = 0;
  sources_malformed = 0;
  disagreements = [];
  malformed = [];
  independent_sources = 1;
  builder_is_source = false;
  anchored = true;
  attests = hash_at_height;
  tip_height = some tip;
  tips_queried = none;
  tips_answered = none;
  anchored_by_sync = true;
}

unfoldable pub expect_known : Option BlockHeader → BlockHeader → Result (Unit {0})
expect_known none header = err (header_trust "outside synced chain")
expect_known (some known) header =
    require (bytes_equal known.hash header.hash) (header_trust "contradicts synced chain")

-- Confirmations are compared as `tip + 1` against `height + min`.
unfoldable pub header_sync_trust :
    ChainConfig → ℕ → HeaderChain → BlockHeader → ℕ → Result HeaderTrustReport
unfolding expect_known
header_sync_trust config min_confirmations chain header height = do
  expect_known (header_at config height chain) header
  require
      (not
        (ltb 0 min_confirmations && ltb (tip_height config chain + 1) (height + min_confirmations)))
      (header_trust "not enough confirmations")
  ok (sync_report (tip_height config chain))

-- The loop over the levels; `fuel` bounds the rounds.
unfoldable pub hash_root_loop : (List ℕ → List ℕ) → ℕ → List (List ℕ) → Result (List ℕ)
hash_root_loop sha256 fuel [] = throw "no hashes"
hash_root_loop sha256 fuel (a ∷ []) = ok a
hash_root_loop sha256 zero (a ∷ b ∷ rest) = throw "out of fuel"
hash_root_loop sha256 (suc fuel) (a ∷ b ∷ rest) =
    hash_root_loop sha256 fuel (plain_level sha256 (a ∷ b ∷ rest))

unfoldable pub block_hash_merkle_root : (List ℕ → List ℕ) → List (List ℕ) → Result (List ℕ)
block_hash_merkle_root sha256 hashes = hash_root_loop sha256 (length hashes) hashes

hash_root_loop-root_loop :
    (sha256 : List ℕ → List ℕ) (fuel : ℕ) (level : List (List ℕ)) {root : List ℕ}
    → root_loop sha256 fuel level ≡ ok root
    → hash_root_loop sha256 fuel level ≡ ok root
unfolding hash_root_loop root_loop
hash_root_loop-root_loop sha256 fuel [] h = absurd cc
hash_root_loop-root_loop sha256 fuel (a ∷ []) h = h
hash_root_loop-root_loop sha256 zero (a ∷ b ∷ rest) h = absurd cc
hash_root_loop-root_loop sha256 (suc fuel) (a ∷ b ∷ rest) h =
    let (next, e, more) = >>=-eq-ok (next_level sha256 (a ∷ b ∷ rest)) _ h in
    let (plain, _) = next_level-plain sha256 (a ∷ b ∷ rest) next e in
    ap (hash_root_loop sha256 fuel) (sym plain) ∙ hash_root_loop-root_loop sha256 fuel next more

-- Block hashes without an equal final pair have the root that transactions would have.
pub block_hash_merkle_root-compute :
    (sha256 : List ℕ → List ℕ) (hashes : List (List ℕ)) {root : List ℕ}
    → compute_merkle_root sha256 hashes ≡ ok root
    → block_hash_merkle_root sha256 hashes ≡ ok root
unfolding block_hash_merkle_root compute_merkle_root
block_hash_merkle_root-compute sha256 hashes h =
    hash_root_loop-root_loop sha256 (length hashes) hashes h
