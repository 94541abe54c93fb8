-- ===== src/Tx.antt =====
-- packages/core/src/tx.ts and hash.ts: transactions in BIP-144 serialization. The library's SHA-256 is
-- a parameter.
pub mod Hash
pub mod Types
pub mod Parse
pub mod Serialize
pub mod Encode
pub mod RoundTrip
pub mod InPlace
