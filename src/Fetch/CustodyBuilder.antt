-- ===== src/Fetch/CustodyBuilder.antt =====
-- packages/fetch/src/custodybuilder.ts: a custody bundle from the answers of backends, and what the
-- verifier makes of it.
pub mod Types
pub mod Hop
pub mod Section
pub mod Build
pub mod Assembled
pub mod Verdict
pub mod Walked
pub mod Attached
pub mod Reveal
pub mod Txids
pub mod Accepted
