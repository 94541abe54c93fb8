-- ===== src/Script.antt =====
-- packages/core/src/script.ts: the instructions of a script.
pub mod Parse
mod Bytes
pub mod Tiling
