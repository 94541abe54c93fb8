-- ===== src/Fetch.antt =====
-- packages/fetch/src: header anchors and the validated header chain.
pub mod HeaderChain
pub mod HeaderSync
pub mod HeaderTrust
pub mod SyncTrust
pub mod CustodyBuilder
