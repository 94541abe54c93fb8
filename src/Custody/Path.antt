-- ===== src/Custody/Path.antt =====
-- The path that `verifyCustodyBundle` of packages/core/src/custody.ts reports.
use ordspv.Common.{
  ℕ, suc, ◌≡◌, refl, ap, sym, ◌∙◌, subst, true, List, [], ◌∷◌, some, map, ok, >>=-eq-ok, >>-eq-ok,
  ok-injective, or_throw, ◌==◌, length, length-map,
}
use ordspv.Custody.Anchor.{AnchoredHeader, AnchoredTx, verify_anchored_hop-Anchored}
use ordspv.Header.Parse.{BlockHeader}
use ordspv.Custody.Bundle.{
  HeaderAttestation, CustodyHop, CustodyBundle, CustodyVerifyOptions, verify_anchored_hop,
}
use ordspv.Custody.Flow.{check_prev_tx_count, proven_input_values, genesis_satpoint}
use ordspv.Custody.Follows.{Chain, walk_loop-Chain, genesis_satpoint-txid}
use ordspv.Custody.Satpoint.{Satpoint, parse_satpoint}
use ordspv.Custody.Verify.{
  Walk, VerifiedCustody, Revealed, find_index, inscriptions_from_tx, index_proven, check_section,
  same_satpoint, walk_loop, last_walk, verify_hops, verify_reveal, verify_custody_bundle,
}
use ordspv.Bytes.Hex.{bytes_equal}
use ordspv.Custody.Binding.{verify_envelope_binding}
use ordspv.InscriptionId.{InscriptionId, parse_inscription_id, check_expected_inscription_id}
use ordspv.Taproot.{Curve}
use ordspv.Tx.Types.{ParsedTx}
use ordspv.Witness.{parse_hop_tx}

-- What an accepted custody bundle reports.
pub record IsProvenPath (sha256 : List ℕ → List ℕ) (opts : CustodyVerifyOptions)
    (bundle : CustodyBundle) (v : VerifiedCustody) : Type 0 where
  pub reveal_hop : CustodyHop
  pub later_hops : List CustodyHop
  pub bundle_hops : bundle.hops ≡ reveal_hop ∷ later_hops
  pub reveal : ParsedTx
  pub reveal_is : parse_hop_tx sha256 reveal_hop.hex ≡ ok reveal
  pub header : BlockHeader
  pub header_anchored : AnchoredHeader sha256 reveal_hop.block opts header
  pub reveal_anchored :
      AnchoredTx sha256 header reveal_hop.block.tx_count reveal reveal_hop.txid_branch
        reveal_hop.pos
  pub start : Walk
  pub starts_at : (start.prev_height ≡ reveal_hop.block.height) × (start.prev_pos ≡ reveal_hop.pos)
  pub starts_in : start.current.txid ≡ reveal.txid
  pub starts_with : start.seen_txids ≡ reveal.txid ∷ []
  pub walks : List Walk
  pub chain : Chain sha256 opts start later_hops walks
  pub path_is : v.path ≡ map (λ w. w.current) (start ∷ walks)
  pub genesis_is : v.genesis ≡ start.current
  pub last_is : v.satpoint ≡ (last_walk start walks).current
  pub hops_is : (v.hops ≡ length bundle.hops) × (length v.path ≡ v.hops)
  pub claim :
      (c : Satpoint) × (parse_satpoint bundle.final_satpoint ≡ ok c)
      × (same_satpoint c v.satpoint ≡ true)

verify_reveal-tx :
    (sha256 : List ℕ → List ℕ) (curve : Curve) (decode_utf8 : List ℕ → List ℕ) (id : InscriptionId)
    (hop : CustodyHop) (opts : CustodyVerifyOptions) (r : Revealed)
    → verify_reveal sha256 curve decode_utf8 id hop opts ≡ ok r
    → (parse_hop_tx sha256 hop.hex ≡ ok r.reveal)
      × (a : HeaderAttestation) × (verify_anchored_hop sha256 hop r.reveal opts ≡ ok a)
unfolding verify_reveal
verify_reveal-tx sha256 curve decode_utf8 id hop opts r h =
    let (reveal, parsed, h1) = >>=-eq-ok (parse_hop_tx sha256 hop.hex) _ h in
    let (_, h2) = >>-eq-ok (bytes_equal reveal.txid id.txid) _ _ h1 in
    let (a, accepted, h3) = >>=-eq-ok (verify_anchored_hop sha256 hop reveal opts) _ h2 in
    let (_, _, h4) = >>=-eq-ok (check_section sha256 hop.witness hop reveal) _ h3 in
    let (_, h5) = >>-eq-ok (index_proven hop.witness reveal) _ _ h4 in
    let (inscription, _, h6) =
      >>=-eq-ok
        (or_throw (find_index id.index (inscriptions_from_tx decode_utf8 reveal))
          "index not present")
        _ h5 in
    let (_, _, h7) = >>=-eq-ok (check_prev_tx_count reveal hop.prev_txs) _ h6 in
    let (binding, _, h8) =
      >>=-eq-ok (verify_envelope_binding sha256 curve reveal inscription hop.prev_txs) _ h7 in
    subst
      (λ (x : Revealed).
        (parse_hop_tx sha256 hop.hex ≡ ok x.reveal)
        × (b : HeaderAttestation) × (verify_anchored_hop sha256 hop x.reveal opts ≡ ok b))
      (ok-injective h8) (parsed, a, accepted)

verify_hops-path :
    (sha256 : List ℕ → List ℕ) (curve : Curve) (decode_utf8 : List ℕ → List ℕ)
    (bundle : CustodyBundle) (id : InscriptionId) (hops : List CustodyHop)
    (opts : CustodyVerifyOptions) (v : VerifiedCustody)
    → hops ≡ bundle.hops
    → verify_hops sha256 curve decode_utf8 bundle id hops opts ≡ ok v
    → IsProvenPath sha256 opts bundle v
unfolding verify_hops
verify_hops-path sha256 curve decode_utf8 bundle id [] opts v all h = cc
verify_hops-path sha256 curve decode_utf8 bundle id (hop ∷ hops) opts v all h =
    let (r, revealed, h1) = >>=-eq-ok (verify_reveal sha256 curve decode_utf8 id hop opts) _ h in
    let (reads, a, accepted) = verify_reveal-tx sha256 curve decode_utf8 id hop opts r revealed in
    let (header, in_chain, in_block) =
      verify_anchored_hop-Anchored sha256 hop r.reveal opts a accepted in
    let (values, _, h2) =
      >>=-eq-ok (proven_input_values sha256 r.reveal hop.prev_txs r.inscription.input) _ h1 in
    let (genesis, begins, h3) =
      >>=-eq-ok (genesis_satpoint r.reveal r.inscription values (some hop.block.height)) _ h2 in
    let start : Walk = record {
      current = genesis;
      prev_height = hop.block.height;
      prev_pos = hop.pos;
      seen_txids = r.reveal.txid ∷ [];
    } in
    let (ws, walked, h4) = >>=-eq-ok (walk_loop sha256 opts start hops) _ h3 in
    let (claimed, parsed, h5) = >>=-eq-ok (parse_satpoint bundle.final_satpoint) _ h4 in
    let (same, h6) = >>-eq-ok (same_satpoint claimed (last_walk start ws).current) _ _ h5 in
    let (chain, len) = walk_loop-Chain sha256 opts start hops ws walked in
    subst (IsProvenPath sha256 opts bundle) (ok-injective h6) (record {
      reveal_hop = hop;
      later_hops = hops;
      bundle_hops = sym all;
      reveal = r.reveal;
      reveal_is = reads;
      header = header;
      header_anchored = in_chain;
      reveal_anchored = in_block;
      start = start;
      starts_at = (refl, refl);
      starts_in =
          genesis_satpoint-txid r.reveal r.inscription values (some hop.block.height) begins;
      starts_with = refl;
      walks = ws;
      chain = chain;
      path_is = refl;
      genesis_is = refl;
      last_is = refl;
      hops_is = (refl, ap suc (length-map ws _ ∙ len) ∙ ap length all);
      claim = (claimed, parsed, same);
    })

-- An accepted custody bundle reports the satpoints of its own hops: the first lies in the reveal, and
-- each later hop stands after the one before in the chain, by the heights and the positions that the
-- bundle gives. Each hop's transaction folds, at its position, to the merkle root of a header that has
-- the claimed hash, the work and the caller's trust. That of a later hop is no coinbase and none that
-- the path has met before, spends the satpoint at an input whose value its previous transactions prove
-- to be above the offset, and holds the next satpoint, which is that of `transferSatpoint`. There is
-- one satpoint for each hop, the reported satpoint is the last one, and the bundle's own claim names
-- the same.
pub verify_custody_bundle-path :
    (sha256 : List ℕ → List ℕ) (curve : Curve) (decode_utf8 : List ℕ → List ℕ)
    (bundle : CustodyBundle) (opts : CustodyVerifyOptions) (v : VerifiedCustody)
    → verify_custody_bundle sha256 curve decode_utf8 bundle opts ≡ ok v
    → IsProvenPath sha256 opts bundle v
unfolding verify_custody_bundle
verify_custody_bundle-path sha256 curve decode_utf8 bundle opts v h =
    let (_, h1) = >>-eq-ok (bundle.version == 1) _ _ h in
    let (id, _, h2) = >>=-eq-ok (parse_inscription_id bundle.inscription_id) _ h1 in
    let (_, _, h3) =
      >>=-eq-ok (check_expected_inscription_id id opts.expected_inscription_id) _ h2 in
    verify_hops-path sha256 curve decode_utf8 bundle id bundle.hops opts v refl h3
