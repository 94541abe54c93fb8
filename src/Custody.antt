-- ===== src/Custody.antt =====
-- packages/core/src/custody.ts: where an inscription's sat is.
pub mod Satpoint
pub mod Flow
pub mod Binding
pub mod Bundle
pub mod Verify
pub mod Conserve
pub mod Follows
pub mod Path
pub mod Anchor
pub mod Text
