-- ===== src/Sat.antt =====
-- packages/core/src/satnumber.ts: sat numbers.
pub mod Numbers
pub mod Inverse
pub mod Names
pub mod Backward
pub mod Genealogy
pub mod Hops
pub mod Identity
