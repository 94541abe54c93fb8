-- ===== src/Proof/Sound.antt =====
-- What `verifyProofBundle` of packages/core/src/proof.ts has checked when it answers.
use ordspv.Common.{
  ℕ, ◌≡◌, ap, subst, inl, inr, List, [], ◌∷◌, Option, none, some, ok, >>=-eq-ok, >>-eq-ok,
  ok-injective, some-injective, Bool-cases, ◌==◌, ==_iff,
}
use ordspv.Bytes.Hex.{bytes_equal, bytes_equal_iff}
use ordspv.Custody.Anchor.{AnchoredHeader, AnchoredTx, anchor_header-eq-ok, anchor_tx-eq-ok}
use ordspv.Custody.Bundle.{CustodyVerifyOptions, anchor_header, anchor_tx}
use ordspv.Custody.Verify.{find_index, inscriptions_from_tx}
use ordspv.Envelope.Interpret.{Inscription}
use ordspv.InscriptionId.{InscriptionId, parse_inscription_id, check_expected_inscription_id}
use ordspv.Proof.{
  Level, ProofBundle, VerifiedInscription, lookup, check_level_section, check_level_commit,
  verify_proof_bundle,
}
use ordspv.Proof.Assured.{Evidence, level-Evidence}
use ordspv.Taproot.{Curve}
use ordspv.Tx.Types.{ParsedTx}
use ordspv.Witness.{parse_hop_tx}

-- The search answers an envelope of the index asked for.
find_index-index :
    (index : ℕ) (all : List Inscription) (i : Inscription)
    → find_index index all ≡ some i
    → i.index ≡ index
unfolding find_index
find_index-index index [] i h = cc
find_index-index index (x ∷ rest) i h = elim (Bool-cases (x.index == index)) [
  | inl hit ↦
      let e : some x ≡ some i = rw hit at h in
      subst (λ (t : Inscription). t.index ≡ index) (some-injective e) ((==_iff _ _).0 hit)
  | inr miss ↦ find_index-index index rest i (rw miss at h)
]

lookup-eq-ok :
    (level : Level) (reveal : ParsedTx) (o : Option Inscription) (i : Inscription)
    → lookup level reveal o ≡ ok i
    → o ≡ some i
unfolding lookup
lookup-eq-ok level reveal (some j) i h = ap some (ok-injective h)
lookup-eq-ok level reveal none i h = cc

-- The bundle's id names the reveal and the envelope, the reveal folds to the header's root, and there
-- is the level's own evidence.
pub record ProvenInscription (sha256 : List ℕ → List ℕ) (curve : Curve)
    (decode_utf8 : List ℕ → List ℕ) (bundle : ProofBundle) (opts : CustodyVerifyOptions)
    (v : VerifiedInscription) : Type 0 where
  pub id : InscriptionId
  pub id_is : parse_inscription_id bundle.inscription_id ≡ ok id
  pub expected : check_expected_inscription_id id opts.expected_inscription_id ≡ ok tt
  pub reveal_is : parse_hop_tx sha256 bundle.hex ≡ ok v.reveal_tx
  pub txid_is : v.reveal_tx.txid ≡ id.txid
  pub header_anchored : AnchoredHeader sha256 bundle.block opts v.header
  pub reveal_anchored :
      AnchoredTx sha256 v.header bundle.block.tx_count v.reveal_tx bundle.txid_branch bundle.pos
  pub found :
      find_index id.index (inscriptions_from_tx decode_utf8 v.reveal_tx) ≡ some v.inscription
  pub index_is : v.inscription.index ≡ id.index
  pub evidence :
      Evidence sha256 curve bundle.level bundle.witness bundle.commit v.header bundle.block.tx_count
        v.reveal_tx bundle.pos v.inscription v.assurances

-- An accepted proof bundle: its id parses and is the one the caller asked for, the reveal hashes to
-- the id's txid and folds to the merkle root of a header that has the claimed hash, the work and the
-- caller's trust, and the reported envelope is the one of the id's index in that reveal. A bundle of
-- level L2 has no witness section and a commit transaction, whose txid is that of the envelope's input
-- and whose spent output is a taproot one: its key is the internal key of that input's control block,
-- tweaked by the root that the tapscript in the input's witness folds to. A bundle of level L3 has a
-- witness section, by which the block's coinbase commits to the reveal's wtxid at its position.
pub verify_proof_bundle-Proven :
    (sha256 : List ℕ → List ℕ) (curve : Curve) (decode_utf8 : List ℕ → List ℕ)
    (bundle : ProofBundle) (opts : CustodyVerifyOptions) (v : VerifiedInscription)
    → verify_proof_bundle sha256 curve decode_utf8 bundle opts ≡ ok v
    → ProvenInscription sha256 curve decode_utf8 bundle opts v
unfolding verify_proof_bundle
verify_proof_bundle-Proven sha256 curve decode_utf8 bundle opts v h =
    let (_, h1) = >>-eq-ok (bundle.version == 1) _ _ h in
    let (id, is_id, h2) = >>=-eq-ok (parse_inscription_id bundle.inscription_id) _ h1 in
    let (_, expected, h3) =
      >>=-eq-ok (check_expected_inscription_id id opts.expected_inscription_id) _ h2 in
    let (r, anchored, h4) = >>=-eq-ok (anchor_header sha256 bundle.block opts) _ h3 in
    let (reveal, is_reveal, h5) = >>=-eq-ok (parse_hop_tx sha256 bundle.hex) _ h4 in
    let (same, h6) = >>-eq-ok (bytes_equal reveal.txid id.txid) _ _ h5 in
    let (_, folded, h7) =
      >>=-eq-ok (anchor_tx sha256 r.0 bundle.block.tx_count reveal bundle.txid_branch bundle.pos) _
        h6 in
    let (_, section, h8) =
      >>=-eq-ok
        (check_level_section sha256 bundle.level bundle.witness r.0 bundle.block.tx_count reveal
          bundle.pos)
        _ h7 in
    let all = inscriptions_from_tx decode_utf8 reveal in
    let (inscription, looked, h9) =
      >>=-eq-ok (lookup bundle.level reveal (find_index id.index all)) _ h8 in
    let (assurances, committed, h10) =
      >>=-eq-ok (check_level_commit sha256 curve bundle.level reveal inscription bundle.commit) _
        h9 in
    let found = lookup-eq-ok bundle.level reveal (find_index id.index all) inscription looked in
    subst (ProvenInscription sha256 curve decode_utf8 bundle opts) (ok-injective h10) (record {
      id = id;
      id_is = is_id;
      expected = expected;
      reveal_is = is_reveal;
      txid_is = (bytes_equal_iff _ _).0 same;
      header_anchored = anchor_header-eq-ok sha256 bundle.block opts r anchored;
      reveal_anchored =
          anchor_tx-eq-ok sha256 r.0 bundle.block.tx_count reveal bundle.txid_branch bundle.pos
            folded;
      found = found;
      index_is = find_index-index id.index all inscription found;
      evidence =
          level-Evidence sha256 curve bundle.level bundle.witness bundle.commit r.0
            bundle.block.tx_count reveal bundle.pos inscription assurances section committed;
    })
