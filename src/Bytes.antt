-- ===== src/Bytes.antt =====
-- packages/core/src/bytes.ts: byte and hex helpers. A Uint8Array is a list of numbers below 256, and
-- a string a list of character codes.
pub mod Hex
pub mod Order
pub mod Reader
pub mod Reads
pub mod Writer
pub mod VarInt
