-- ===== src/Sat/Identity.antt =====
-- Theorems on `verifySatGenealogy` of packages/core/src/satnumber.ts: what an accepted bundle says of
-- its sat number.
use ordspv.Common.{
  ℕ, ◌+◌, ◌≤◌, ◌≡◌, refl, not, ◌&&◌, List, [], ◌∷◌, ok, >>=-eq-ok, >>-eq-ok, ok-injective, subst,
  &&-parts, ltb, leb, ◌==◌, ==_iff, length, ltb→lt, leb→le,
}
use ordspv.Custody.Bundle.{CustodyHop, CustodyVerifyOptions}
use ordspv.Sat.Backward.{coinbase_sat_at}
use ordspv.Sat.Genealogy.{
  Expected, GenealogyBundle, VerifiedSatIdentity, verify_coinbase, verify_sat_genealogy,
}
use ordspv.Sat.Inverse.{first_sat-sat_to_height}
use ordspv.Sat.Numbers.{sat_to_height, sat_name, sat_rarity, first_sat_of_block, subsidy_sats}
use ordspv.Bytes.Hex.{bytes_equal}
use ordspv.Custody.Bundle.{verify_anchored_hop}
use ordspv.Custody.Verify.{has_section, verify_reveal}
use ordspv.InscriptionId.{parse_inscription_id, check_expected_inscription_id}
use ordspv.Sat.Backward.{output_space_position}
use ordspv.Sat.Genealogy.{check_height, funding_loop, reveal_place}
use ordspv.Tx.Types.{is_coinbase}
use ordspv.Witness.{parse_hop_tx}
use ordspv.Taproot.{Curve}
use ordspv.Text.{is_canonical_decimal, decimal_value}
use ordspv.Tx.Types.{ParsedTx}

coinbase_sat_at-place :
    (coinbase : ParsedTx) (pos height sat : ℕ)
    → coinbase_sat_at coinbase pos height ≡ ok sat
    → sat_to_height sat ≡ ok (record { height = height; offset = pos })
unfolding coinbase_sat_at
coinbase_sat_at-place coinbase pos height sat h =
    let (_, h1) = >>-eq-ok (is_coinbase coinbase) _ _ h in
    let (fits, e) = >>-eq-ok (ltb pos (subsidy_sats height)) _ _ h1 in
    let same : first_sat_of_block height + pos ≡ sat = ok-injective e in
    rw (← same) (first_sat-sat_to_height height pos (ltb→lt _ _ fits))

verify_coinbase-place :
    (sha256 : List ℕ → List ℕ) (expected : Expected) (hop : CustodyHop)
    (opts : CustodyVerifyOptions) (sat : ℕ)
    → verify_coinbase sha256 expected hop opts ≡ ok sat
    → (o : ℕ) × (sat_to_height sat ≡ ok (record { height = hop.block.height; offset = o }))
unfolding verify_coinbase
verify_coinbase-place sha256 expected hop opts sat h =
    let (_, h1) = >>-eq-ok (not (has_section hop.witness)) _ _ h in
    let (_, h2) = >>-eq-ok (length hop.prev_txs == 0) _ _ h1 in
    let (coinbase, _, h3) = >>=-eq-ok (parse_hop_tx sha256 hop.hex) _ h2 in
    let (_, h4) = >>-eq-ok (bytes_equal coinbase.txid expected.txid) _ _ h3 in
    let (_, h5) = >>-eq-ok (is_coinbase coinbase) _ _ h4 in
    let (_, h6) = >>-eq-ok (hop.pos == 0) _ _ h5 in
    let (a, _, h7) = >>=-eq-ok (verify_anchored_hop sha256 hop coinbase opts) _ h6 in
    let (_, _, h8) = >>=-eq-ok (check_height coinbase hop.block.height a) _ h7 in
    let (pos, _, h9) =
      >>=-eq-ok (output_space_position coinbase expected.vout expected.offset) _ h8 in
    (pos, coinbase_sat_at-place coinbase pos hop.block.height sat h9)

abbrev pub IsProvenIdentity : GenealogyBundle → ℕ → VerifiedSatIdentity → Type 0
IsProvenIdentity bundle max_steps v =
    (o : ℕ) × (sat_to_height v.sat ≡ ok (record { height = v.coinbase_height; offset = o }))
    × (decimal_value bundle.claimed_sat ≡ v.sat)
    × (sat_name v.sat ≡ ok v.name)
    × (sat_rarity v.sat ≡ ok v.rarity)
    × (v.depth ≡ length bundle.funding)
    × (v.depth ≤ max_steps)

-- What an accepted genealogy says: the claimed decimal is the sat's number, that sat was minted in
-- the block at the reported coinbase height, the name and the rarity are that sat's, and the walk
-- kept within the step cap.
pub verify_sat_genealogy-place :
    (sha256 : List ℕ → List ℕ) (curve : Curve) (decode_utf8 : List ℕ → List ℕ)
    (bundle : GenealogyBundle) (opts : CustodyVerifyOptions) (max_steps : ℕ)
    (v : VerifiedSatIdentity)
    → verify_sat_genealogy sha256 curve decode_utf8 bundle opts max_steps ≡ ok v
    → IsProvenIdentity bundle max_steps v
unfolding verify_sat_genealogy
verify_sat_genealogy-place sha256 curve decode_utf8 bundle opts max_steps v h =
    let (_, h1) = >>-eq-ok (bundle.version == 1) _ _ h in
    let (id, _, h2) = >>=-eq-ok (parse_inscription_id bundle.inscription_id) _ h1 in
    let (_, _, h3) =
      >>=-eq-ok (check_expected_inscription_id id opts.expected_inscription_id) _ h2 in
    let (cap, h4) = >>-eq-ok (leb (length bundle.funding) max_steps) _ _ h3 in
    let (r, _, h5) =
      >>=-eq-ok (verify_reveal sha256 curve decode_utf8 id bundle.reveal opts) _ h4 in
    let (at, _, h6) = >>=-eq-ok (reveal_place sha256 r bundle.reveal) _ h5 in
    let (last, _, h7) =
      >>=-eq-ok (funding_loop sha256 at.1 (r.reveal.txid ∷ []) bundle.funding) _ h6 in
    let (sat, minted, h8) = >>=-eq-ok (verify_coinbase sha256 last bundle.coinbase opts) _ h7 in
    let (claim, h9) =
      >>-eq-ok (is_canonical_decimal bundle.claimed_sat && decimal_value bundle.claimed_sat == sat)
        _ _ h8 in
    let (name, named, h10) = >>=-eq-ok (sat_name sat) _ h9 in
    let (rarity, rare, h11) = >>=-eq-ok (sat_rarity sat) _ h10 in
    let (o, at') = verify_coinbase-place sha256 last bundle.coinbase opts sat minted in
    let (_, claimed) = &&-parts (is_canonical_decimal bundle.claimed_sat) _ claim in
    subst (IsProvenIdentity bundle max_steps) (ok-injective h11)
      (o, at', (==_iff _ _).0 claimed, named, rare, refl, leb→le _ _ cap)
