-- ===== src/Fetch/CustodyBuilder/Build.antt =====
-- `buildCustodyBundle` of packages/fetch/src/custodybuilder.ts.
use ordspv.Common.{
  ℕ, zero, suc, ◌+◌, List, [], ◌∷◌, Option, none, some, custody_build, hop_consistency,
  custody_hop_limit, Result, ok, err, require, or_throw, ◌>>=◌, ◌>>◌, if◌then◌else◌,
}
use ordspv.Bytes.Hex.{bytes_equal}
use ordspv.Custody.Binding.{verify_envelope_binding}
use ordspv.Custody.Bundle.{CustodyHop}
use ordspv.Custody.Flow.{find_spend, proven_input_values, genesis_satpoint, transfer_satpoint}
use ordspv.Custody.Satpoint.{Satpoint, format_satpoint}
use ordspv.Custody.Verify.{comes_after, find_index, inscriptions_from_tx}
use ordspv.Fetch.HeaderSync.{non_empty}
use ordspv.Header.Parse.{PowLimit}
use ordspv.InscriptionId.{parse_inscription_id}
use ordspv.Taproot.{Curve}
use ordspv.Text.{to_lower_case}
use ordspv.Witness.{parse_hex_tx}
use ordspv.Fetch.CustodyBuilder.Types.{
  AnchorBackend, Outspend, CustodyBackend, BuildOptions, BuildCustodyResult,
}
use ordspv.Fetch.CustodyBuilder.Hop.{as_inconsistent, check_tx_not_ambiguous, assemble_anchored_hop}
use ordspv.Fetch.CustodyBuilder.Section.{attach_reveal_witness_section}

unfoldable pub served_urls : AnchorBackend → Option (List ℕ) → List (List ℕ)
served_urls backend none = backend.base_url ∷ []
served_urls backend (some server) = backend.base_url ∷ server ∷ []

-- The later hops, the satpoint they lead to, and the pending spend.
abbrev pub BuiltPath : Type 0
BuiltPath = List CustodyHop × Satpoint × Option (List ℕ)

-- An unspent satpoint ends the walk, and so does a spend that is not confirmed.
unfoldable pub follow : Outspend → Satpoint → (List ℕ → Result BuiltPath) → Result BuiltPath
follow outspend current deeper =
    let spending = (do
      txid ← or_throw (non_empty outspend.txid) "outspend reports spent without a txid"
      if outspend.confirmed then deeper txid else ok ([], current, some txid)) in
    if outspend.spent then spending else ok ([], current, none)

module _ (sha256 : List ℕ → List ℕ) where
  module _ (backend : CustodyBackend) (limit : PowLimit) where
    -- A later hop: the transaction that spends the satpoint, and where it takes it.
    unfoldable pub build_hop : ℕ → List ℕ → Satpoint → CustodyHop → Result (CustodyHop × Satpoint)
    build_hop h spender current previous = do
      hex ← backend.anchor.get_tx_hex h spender
      tx ← parse_hex_tx sha256 hex
      check_tx_not_ambiguous tx
      j ← or_throw (find_spend current tx.inputs) "claimed to spend the satpoint but does not"
      hop ← assemble_anchored_hop sha256 backend.anchor h tx hex j limit
      require (comes_after previous.block.height previous.pos hop.block.height hop.pos)
          (hop_consistency "the spend does not come after what it spends")
      values ← proven_input_values sha256 tx hop.prev_txs j
      next ← transfer_satpoint tx values current (some hop.block.height)
      ok (hop, next)

    -- The loop over the spends, from hop `h` on, with `left` hops to the cap.
    unfoldable pub build_hops : ℕ → ℕ → ℕ → Satpoint → CustodyHop → Result BuiltPath
    build_hops max_hops zero h current previous = do
      outspend ← backend.get_outspend h current.txid current.vout
      follow outspend current (λ txid. err (custody_hop_limit max_hops h))
    build_hops max_hops (suc left) h current previous = do
      outspend ← backend.get_outspend h current.txid current.vout
      follow outspend current (λ txid. (do
        (hop, next) ← build_hop h txid current previous
        (hops, last, pending) ← build_hops max_hops left (h + 1) next hop
        ok (hop ∷ hops, last, pending)))

module _ (sha256 : List ℕ → List ℕ) (curve : Curve) (decode_utf8 : List ℕ → List ℕ) where
  -- The reveal hop, with the satpoint that the inscription starts at.
  unfoldable pub build_reveal :
      List ℕ → CustodyBackend → BuildOptions → Result (CustodyHop × Satpoint × Option (List ℕ))
  build_reveal inscription_id backend options = do
    id ← parse_inscription_id inscription_id
    hex ← backend.anchor.get_tx_hex 0 id.txid
    reveal ← parse_hex_tx sha256 hex
    require (bytes_equal reveal.txid id.txid) (custody_build "backend served another transaction")
    check_tx_not_ambiguous reveal
    inscription ←
        or_throw (find_index id.index (inscriptions_from_tx decode_utf8 reveal))
          "no envelope with this index"
    bare ←
        assemble_anchored_hop sha256 backend.anchor 0 reveal hex inscription.input
          options.pow_limit_bits
    binding ←
        as_inconsistent "binding"
          (verify_envelope_binding sha256 curve reveal inscription bare.prev_txs)
    (hop, server) ←
        attach_reveal_witness_section sha256
          (elim options.witness_backends [ none ↦ backend.anchor ∷ [] | some backends ↦ backends ])
          reveal bare options.witness_section
    values ← proven_input_values sha256 reveal hop.prev_txs inscription.input
    genesis ← genesis_satpoint reveal inscription values (some hop.block.height)
    ok (hop, genesis, server)

  unfoldable pub build_custody_bundle :
      List ℕ → CustodyBackend → BuildOptions → Result BuildCustodyResult
  build_custody_bundle inscription_id backend options = do
    (hop, genesis, server) ← build_reveal inscription_id backend options
    (hops, last, pending) ←
        build_hops sha256 backend options.pow_limit_bits options.max_hops options.max_hops 1 genesis
          hop
    ok (record {
      bundle = record {
        version = 1;
        inscription_id = to_lower_case inscription_id;
        hops = hop ∷ hops;
        final_satpoint = format_satpoint last;
      };
      pending_spend_txid = pending;
      served_base_urls = served_urls backend.anchor server;
    })
