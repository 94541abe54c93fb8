-- ===== src/Tests.antt =====
-- Tests of the development, and its theorems at concrete inputs.
mod Toy
mod Bundles
mod Chain
mod Codec
mod Trees
mod Payment
mod Scripts
mod Commitments
mod Sync
mod Cache
mod Cbor
mod Builder
