-- ===== src/Fetch/CustodyBuilder/Accepted.antt =====
-- What `verifyCustodyBundle` says of a bundle of `buildCustodyBundle` (packages/fetch/src/custodybuilder.ts).
use ordspv.Common.{
  ℕ, ◌<◌, ◌≤◌, ◌≡◌, refl, ap, sym, subst, ◌⊎◌, inl, inr, true, Bool-cases, List, [], ◌∷◌, none,
  some, ok, >>=-eq-ok, ok-injective, leb, leb→le, leb→gt, ==_iff, length, map,
}
use ordspv.Custody.Bundle.{CustodyHop, CustodyBundle, CustodyVerifyOptions}
use ordspv.Custody.Follows.{genesis_satpoint-txid}
use ordspv.Custody.Satpoint.{Satpoint, max_vout, format_satpoint}
use ordspv.Custody.Verify.{
  Walk, VerifiedCustody, same_satpoint, walk_loop, last_walk, verify_hops, verify_custody_bundle,
}
use ordspv.Dict.{equal_self}
use ordspv.Fetch.CustodyBuilder.Types.{CustodyBackend, BuildOptions, BuildCustodyResult}
use ordspv.Fetch.CustodyBuilder.Build.{build_reveal, build_hops, build_custody_bundle}
use ordspv.Fetch.CustodyBuilder.Reveal.{RevealBuilt, build_reveal-built}
use ordspv.Fetch.CustodyBuilder.Verdict.{Verdict}
use ordspv.Fetch.CustodyBuilder.Walked.{Trusting, walk_loop-built}
use ordspv.InscriptionId.{
  InscriptionId, parse_normalized, rejection_for, parse_inscription_id,
  check_expected_inscription_id,
}
use ordspv.Taproot.{Curve}
use ordspv.Text.{to_lower_case, to_lower_case_idem}
use ordspv.Fetch.CustodyBuilder.Txids.{
  IsHash, IsTxid, walk_loop-IsTxid, parse_hop_tx-IsTxid, format-read,
}

module _ (sha256 : List ℕ → List ℕ) (curve : Curve) (decode_utf8 : List ℕ → List ℕ) where
  -- The bundle of the hops that were built.
  abbrev bundle_of : List ℕ → List CustodyHop → Satpoint → CustodyBundle
  bundle_of text hops last = record {
    version = 1;
    inscription_id = to_lower_case text;
    hops = hops;
    final_satpoint = format_satpoint last;
  }

  -- Where the verifier's loop starts.
  abbrev start_of : CustodyHop → Satpoint → List ℕ → Walk
  start_of hop genesis txid = record {
    current = genesis;
    prev_height = hop.block.height;
    prev_pos = hop.pos;
    seen_txids = txid ∷ [];
  }

  same_self : (s : Satpoint) → same_satpoint s s ≡ true
  unfolding same_satpoint
  same_self s =
      rw (equal_self s.txid, (==_iff s.vout s.vout).1 refl, (==_iff s.offset s.offset).1 refl) refl

  verify_hops-walked :
      (id : InscriptionId) (text : List ℕ) (opts : CustodyVerifyOptions) (hop : CustodyHop)
      (hops : List CustodyHop) (genesis last : Satpoint)
      (b : RevealBuilt sha256 curve decode_utf8 id opts hop genesis)
      → IsHash sha256
      → last.vout ≤ max_vout
      → Verdict sha256 hops
          (walk_loop sha256 opts (start_of hop genesis b.found.reveal.txid) hops)
          (λ ws. (last_walk (start_of hop genesis b.found.reveal.txid) ws).current ≡ last)
      → Verdict sha256 hops
          (verify_hops sha256 curve decode_utf8
            (bundle_of text (hop ∷ hops) last)
            id
            (hop ∷ hops)
            opts)
          (λ v. format_satpoint v.satpoint ≡ format_satpoint last)
  unfolding verify_hops
  verify_hops-walked id text opts hop hops genesis last b hash fits (inr (e, refused, unmade)) =
      inr (e, rw (b.revealed, b.proven, b.starts, refused) refl, unmade)
  verify_hops-walked id text opts hop hops genesis last b hash fits (inl (ws, looped, ends)) =
      let start = start_of hop genesis b.found.reveal.txid in
      let begins : IsTxid genesis.txid =
        subst IsTxid
          (sym (
            genesis_satpoint-txid b.found.reveal b.found.inscription b.values
              (some hop.block.height) b.starts))
          (parse_hop_tx-IsTxid sha256 hash hop.hex b.parsed) in
      let txid : IsTxid last.txid =
        subst (λ (s : Satpoint). IsTxid s.txid) ends
          (walk_loop-IsTxid sha256 hash opts start hops looped begins) in
      let same : same_satpoint last (last_walk start ws).current ≡ true =
        subst (λ (s : Satpoint). same_satpoint last s ≡ true) (sym ends) (same_self last) in
      let verified : VerifiedCustody = record {
        inscription_id = to_lower_case (to_lower_case text);
        satpoint = (last_walk start ws).current;
        genesis = genesis;
        path = genesis ∷ map (λ w. w.current) ws;
        height = (last_walk start ws).prev_height;
        hops = length (hop ∷ hops);
        binding = b.found.binding;
        index_proof = b.found.index_proof;
      } in
      inl (
        verified,
        rw (b.revealed, b.proven, b.starts, looped, format-read last txid fits, same) refl,
        ap format_satpoint ends,
      )

  parse_lower :
      (text : List ℕ) → parse_inscription_id (to_lower_case text) ≡ parse_inscription_id text
  unfolding parse_inscription_id
  parse_lower text =
      ap (λ (s : List ℕ). parse_normalized (rejection_for s) s) (to_lower_case_idem text)

  verify_bundle :
      (id : InscriptionId) (text : List ℕ) (opts : CustodyVerifyOptions) (hops : List CustodyHop)
      (last : Satpoint)
      → parse_inscription_id text ≡ ok id
      → opts.expected_inscription_id ≡ none
      → verify_custody_bundle sha256 curve decode_utf8 (bundle_of text hops last) opts
        ≡ verify_hops sha256 curve decode_utf8 (bundle_of text hops last) id hops opts
  unfolding verify_custody_bundle check_expected_inscription_id
  verify_bundle id text opts hops last named no_id = rw (parse_lower text, named, no_id) refl

  -- The hops after the reveal.
  abbrev pub later_hops : List CustodyHop → List CustodyHop
  later_hops [] = []
  later_hops (hop ∷ hops) = hops

  abbrev pub Answer : CustodyVerifyOptions → CustodyBundle → Type 0
  Answer opts bundle =
      ((s : Satpoint) × (bundle.final_satpoint ≡ format_satpoint s) × (max_vout < s.vout))
      ⊎ Verdict sha256 (later_hops bundle.hops)
          (verify_custody_bundle sha256 curve decode_utf8 bundle opts)
          (λ v. format_satpoint v.satpoint ≡ bundle.final_satpoint)

  built-Answer :
      (id : InscriptionId) (text : List ℕ) (opts : CustodyVerifyOptions) (hop : CustodyHop)
      (hops : List CustodyHop) (genesis last : Satpoint)
      (b : RevealBuilt sha256 curve decode_utf8 id opts hop genesis)
      → IsHash sha256
      → parse_inscription_id text ≡ ok id
      → opts.expected_inscription_id ≡ none
      → Verdict sha256 hops
          (walk_loop sha256 opts (start_of hop genesis b.found.reveal.txid) hops)
          (λ ws. (last_walk (start_of hop genesis b.found.reveal.txid) ws).current ≡ last)
      → Answer opts (bundle_of text (hop ∷ hops) last)
  built-Answer id text opts hop hops genesis last b hash named no_id walked =
      elim (Bool-cases (leb last.vout max_vout)) [
        | inr wide ↦ inl (last, refl, leb→gt _ _ wide)
        | inl fits ↦ inr (
            rw (verify_bundle id text opts (hop ∷ hops) last named no_id) (
              verify_hops-walked id text opts hop hops genesis last b hash (leb→le _ _ fits)
                walked))
      ]

  -- A bundle that `buildCustodyBundle` answers, whatever the backends sent, is accepted by
  -- `verifyCustodyBundle`, and the satpoint that the verifier finds is the one that the bundle claims.
  -- If the verifier refuses it, then only for what the builder does not test, at a hop after the
  -- reveal: a transaction that repeats, a hop's transaction that is a coinbase, or an offset outside
  -- the value that the hop's own previous transaction proves. This is said of bundles whose final output index has 32 bits, for a
  -- hash that answers 32 bytes, under the same proof-of-work limit, no expected id, and a hook that
  -- throws nothing.
  pub build_custody_bundle-verify :
      (text : List ℕ) (backend : CustodyBackend) (options : BuildOptions)
      (opts : CustodyVerifyOptions) (result : BuildCustodyResult)
      → IsHash sha256
      → build_custody_bundle sha256 curve decode_utf8 text backend options ≡ ok result
      → opts.pow_limit_bits ≡ options.pow_limit_bits
      → opts.expected_inscription_id ≡ none
      → Trusting opts
      → Answer opts result.bundle
  unfolding build_custody_bundle
  build_custody_bundle-verify text backend options opts result hash h same_limit no_id trusting =
      let (revealed, built, h1) =
        >>=-eq-ok (build_reveal sha256 curve decode_utf8 text backend options) _ h in
      let (path, looped, h2) =
        >>=-eq-ok
          (build_hops sha256 backend options.pow_limit_bits options.max_hops options.max_hops 1
            revealed.1 revealed.0)
          _ h1 in
      let (id, named, b) =
        build_reveal-built sha256 curve decode_utf8 text backend options opts built same_limit
          trusting in
      let start = start_of revealed.0 revealed.1 b.found.reveal.txid in
      let walked =
        walk_loop-built sha256 opts backend trusting options.max_hops options.max_hops 1 revealed.0
          start path
          (subst
            (λ l.
              build_hops sha256 backend l options.max_hops options.max_hops 1 revealed.1 revealed.0
              ≡ ok path)
            (sym same_limit) looped)
          refl refl in
      subst (λ (r : BuildCustodyResult). Answer opts r.bundle) (ok-injective h2)
        (built-Answer id text opts revealed.0 path.0 revealed.1 path.1 b hash named no_id walked)
