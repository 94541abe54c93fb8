-- ===== src/Header.antt =====
-- packages/core/src/header.ts.
pub mod Parse
pub mod Target
pub mod Retarget
mod Size
pub mod Compact
pub mod Limits
pub mod Chain
