-- ===== src/Lib.antt =====
-- ordspv: verification of Bitcoin inscriptions from chain data. This library models the package
-- packages/core/src, which the other packages build on: a verifier is handed an untrusted bundle and
-- recomputes everything in it. Of packages/fetch/src it models the anchors of a header and the builder of
-- custody bundles, and of packages/gateway/src the response cache and the rate limiter.
--
-- The parts, from the bottom up, with the file that models each:
--   Bytes (bytes.ts): hex, byte order, comparison, `ByteReader`, `ByteWriter`.
--   Tx (tx.ts, hash.ts): transactions, `parseTx`, `serializeStripped`, `serializeFull`.
--   Block (block.ts): `parseBlock` and `serializeBlock` over Tx and Header.
--   Merkle (merkle.ts): roots, branches, `verifyMerkleBranch` with an optional count; Merkle/Binding says
--     what two accepted branches have in common.
--   Header (header.ts): headers, compact targets, the retarget, proof of work, header chains.
--   Text and InscriptionId (inscriptionId.ts): what is used of strings, and the ids `<txid>i<index>`.
--   Script and Taproot (script.ts, taproot.ts): instructions, tapscripts, script-path commitments.
--   Envelope (envelope.ts): the scan of a tapscript, the numbering across inputs, fields.
--   Witness (witnesscommit.ts): the BIP-141 commitment and the anchoring of a reveal's witness.
--   Custody (custody.ts): satpoints, first-in-first-out arithmetic, `verifyCustodyBundle`.
--   Sat (satnumber.ts): sat numbers, the backward hop, `verifySatGenealogy`.
--   Proof (proof.ts): `verifyProofBundle`.
--   Cbor (cbor.ts): the decoder of items, and the form without byte strings and big integers.
--   Gallery (gallery.ts): the members that an inscription's properties name, over Cbor and Envelope.
--   Fetch/HeaderChain (packages/fetch/src/headersync.ts): the class `HeaderChain` with its file; Valid is
--     what its methods keep, Staged what a batch's bytes hold, Open what a chain read from a file is.
--   Fetch/HeaderSync (headersync.ts): `syncHeaders` against any server, reorganizations included.
--   Fetch/SyncTrust (headersync.ts): `headerSyncTrust` and `blockHashMerkleRoot`.
--   Fetch/HeaderTrust (headertrust.ts): `makeHeaderTrust` and `checkpointTrustHeader`; Vote counts the
--     answers.
--   Fetch/CustodyBuilder (custodybuilder.ts): `buildCustodyBundle` from the answers of backends, in Types,
--     Hop, Section and Build; the other files say what `verifyCustodyBundle` makes of its hops and of its
--     bundle.
--   Gateway/Lru (packages/gateway/src/lru.ts): `ByteLru`. Gateway/RateLimit (ratelimit.ts):
--     `TokenBucketLimiter`.
--   Dict: what these use of a JavaScript `Map`, its order of entries included.
-- The trust hook that a verifier calls is `headerSyncTrust` or `makeHeaderTrust`, whose report carries
-- the attestation; the bundle that the verifier is handed comes from `buildCustodyBundle`. The three
-- verifiers share `anchor_header`, `anchor_tx` and `verify_reveal`, which are the steps that
-- `verifyAnchoredHop`, `verifyProofBundle`, `verifyCustodyBundle` and `verifySatGenealogy` each write
-- out in the source. Common holds the shared names; Tests holds concrete runs.
--
-- How code becomes definitions. A function or method is a function of the same name in snake case.
-- A function that throws answers a `Result`; the error is the class, and for a plain `Error` the fixed
-- part of the message: labels and interpolated values are left out. The reader is a record of bytes
-- and position that each method takes and returns. The writer is its list of chunks. A string is the
-- list of its character codes, a byte array a list of numbers, an optional value an `Option`. A bundle
-- is a record: the checks that an untrusted JSON value has the expected type, and those that a height,
-- a position or a count is an integer that is not negative, have no counterpart. `===` on strings is
-- `bytes_equal`. A shift of a bigint by `8 * n` bits is a factor or a divisor 256 ^ n.
--
-- Bounds and fuel. A loop that is not structural in the source runs on fuel: the leaf count for tree
-- height, root and branch, the instruction count for the scan, the script's length for instructions,
-- the number itself for decimals, names and target sizes. Each round of these makes its measure
-- smaller. The constant 33 of the sat loops is the source's own bound. The rounds of `syncHeaders` are
-- bounded by the gap to the server's tip and two for each step back that is allowed: a batch that is
-- accepted is not empty. CBOR items nest 129 deep in the source, which is the recursion's fuel, and a
-- loop up to the break byte has one round more than there are bytes, each of which reads one.
-- The custody builder's own cap on hops bounds its walk.
-- Tokens of the rate limiter are exact thousandths, as its clock counts milliseconds; the source has
-- doubles, whose rounding is not modelled, and the time after a clock that steps back, which is negative
-- in the source, is 0 here.
--
-- Parameters. SHA-256 is a function `sha256` on byte lists, the curve a record `Curve`, UTF-8 decoding
-- a function `decode_utf8` or `utf8`, the caller's trust hook an optional function of the options.
-- `stringify` is JSON.stringify, `whole` the integer that a float is, `normalize_base_url` the URL parser
-- behind `normalizeBaseUrl`. An Electrum server is a record of its answers by round, an attester its base
-- URL with its answers, and a clock reading a number that the caller passes. A backend of the custody
-- builder is a record of its answers by hop and request.
--
-- Not modelled: in core, the value of floats (`decodeHalf`) and the text of notes.ts; in fetch, the
-- socket of `ElectrumTcpTransport`, the sat builder, the resolver, `fetchCustody` and the backends,
-- which are requests over the network; in gateway, the HTTP server and its routes; the command line, the
-- sidecar and the browser extension, whose work is input, output and display.
pub mod Common
pub mod Bytes
pub mod Tx
pub mod Merkle
pub mod Text
pub mod InscriptionId
pub mod Script
pub mod Taproot
pub mod Envelope
pub mod Sat
pub mod Header
pub mod Block
pub mod Witness
pub mod Custody
pub mod Proof
pub mod Tests
pub mod Dict
pub mod Cbor
pub mod Gallery
pub mod Gateway
pub mod Fetch
