-- ===== src/Merkle.antt =====
-- packages/core/src/merkle.ts: Bitcoin merkle trees.
pub mod Tree
pub mod Height
pub mod Level
pub mod Branch
pub mod Binding
