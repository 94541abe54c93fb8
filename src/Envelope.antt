-- ===== src/Envelope.antt =====
-- packages/core/src/envelope.ts: inscription envelopes, a port of ord's envelope.rs.
pub mod Scan
pub mod Number
pub mod Payload
pub mod Interpret
pub mod Split
pub mod Reveal
pub mod Numbering
