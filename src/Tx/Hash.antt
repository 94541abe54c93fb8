-- ===== src/Tx/Hash.antt =====
-- packages/core/src/hash.ts over the SHA-256 of @noble/hashes, which is a parameter.
use ordspv.Common.{ℕ, List, ◌++◌}

module _ (sha256 : List ℕ → List ℕ) where
  -- Bitcoin's double SHA-256.
  unfoldable pub sha256d : List ℕ → List ℕ
  sha256d data_bytes = sha256 (sha256 data_bytes)

  -- The tag is given by its UTF-8 bytes.
  unfoldable pub tagged_hash : List ℕ → List ℕ → List ℕ
  tagged_hash tag msg = let tag_hash = sha256 tag in sha256 (tag_hash ++ (tag_hash ++ msg))
