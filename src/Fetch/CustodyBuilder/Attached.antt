-- ===== src/Fetch/CustodyBuilder/Attached.antt =====
-- The witness section that `attachRevealWitnessSection` of packages/fetch/src/custodybuilder.ts attaches.
use ordspv.Common.{
  ℕ, ◌≡◌, refl, ap, sym, subst, ◌∙◌, inl, inr, Bool, true, false, not, Bool-cases, List, [], ◌∷◌,
  map, Option, none, some, ok, or_throw, >>=-eq-ok, >>-eq-ok, Result-cases, ok-injective, ◌==◌,
  ==_iff, length, get_elem?,
}
use ordspv.Block.{parse_block}
use ordspv.Bytes.Hex.{bytes_equal, hex_to_bytes}
use ordspv.Custody.Bundle.{CustodyHop, parse_header_hex}
use ordspv.Custody.Verify.{index_proven, check_section}
use ordspv.Fetch.CustodyBuilder.Types.{AnchorBackend, WitnessSectionMode, always, when_needed}
use ordspv.Fetch.CustodyBuilder.Hop.{check_tx_not_ambiguous}
use ordspv.Fetch.CustodyBuilder.Section.{
  needs_section, find_tx, wtxids_of, section_from, first_section, attach_reveal_witness_section,
}
use ordspv.Fetch.CustodyBuilder.Assembled.{trim-hex}
use ordspv.Header.Parse.{BlockHeader}
use ordspv.Merkle.Tree.{build_merkle_branch}
use ordspv.Text.{trim, to_lower_case}
use ordspv.Tx.Types.{ParsedTx}
use ordspv.Witness.{WitnessSection, verify_witness_anchoring}

negated : (b : Bool) → not b ≡ false → b ≡ true
negated true h = refl
negated false h = absurd cc

abbrev pub sectioned : CustodyHop → Option WitnessSection → CustodyHop
sectioned hop section = record hop { witness = section }

module _ (sha256 : List ℕ → List ℕ) where
  trim-header :
      (hex : List ℕ) {header : BlockHeader}
      → parse_header_hex sha256 hex ≡ ok header
      → trim hex ≡ hex
  unfolding parse_header_hex
  trim-header hex h = let (raw, e, _) = >>=-eq-ok (hex_to_bytes hex) _ h in trim-hex hex e

  section_from-anchors :
      (backend : AnchorBackend) (reveal : ParsedTx) (hop : CustodyHop) {section : WitnessSection}
      → section_from sha256 backend reveal hop ≡ ok section
      → (header : BlockHeader) × (parse_header_hex sha256 (trim hop.block.header) ≡ ok header)
        × (verify_witness_anchoring sha256 section header hop.block.tx_count reveal hop.pos ≡ ok tt)
  unfolding section_from
  section_from-anchors backend reveal hop {section} h =
      let (get_block_raw, _, h1) =
        >>=-eq-ok (or_throw backend.get_block_raw "backend serves no raw blocks") _ h in
      let (raw, _, h2) = >>=-eq-ok (get_block_raw hop.block.hash) _ h1 in
      let (block, _, h3) = >>=-eq-ok (parse_block sha256 raw) _ h2 in
      let (_, h4) =
        >>-eq-ok (bytes_equal block.header.hash (to_lower_case hop.block.hash)) _ _ h3 in
      let (pos, _, h5) =
        >>=-eq-ok (or_throw (find_tx reveal.txid block.txs) "reveal is not in the served block") _
          h4 in
      let (same, h6) = >>-eq-ok (pos == hop.pos) _ _ h5 in
      let (_, h7) = >>-eq-ok (length block.txs == hop.block.tx_count) _ _ h6 in
      let (coinbase, _, h8) = >>=-eq-ok (or_throw (get_elem? block.txs 0) "undefined") _ h7 in
      let (_, _, h9) = >>=-eq-ok (check_tx_not_ambiguous coinbase) _ h8 in
      let (_, _, h10) =
        >>=-eq-ok (build_merkle_branch sha256 (map (λ t. t.txid_le) block.txs) 0) _ h9 in
      let (_, _, h11) = >>=-eq-ok (build_merkle_branch sha256 (wtxids_of block.txs) pos) _ h10 in
      let (header, parsed, h12) =
        >>=-eq-ok (parse_header_hex sha256 (trim hop.block.header)) _ h11 in
      let (_, anchored, h13) =
        >>=-eq-ok (verify_witness_anchoring sha256 _ header hop.block.tx_count reveal pos) _ h12 in
      (
        header,
        parsed,
        subst
            (λ n.
              verify_witness_anchoring sha256 section header hop.block.tx_count reveal n ≡ ok tt)
            ((==_iff pos hop.pos).0 same)
            (subst
              (λ (x : WitnessSection).
                verify_witness_anchoring sha256 x header hop.block.tx_count reveal pos ≡ ok tt)
              (ok-injective h13) anchored),
      )

  first_section-from :
      (backends : List AnchorBackend) (reveal : ParsedTx) (hop : CustodyHop)
      {found : WitnessSection × List ℕ}
      → first_section sha256 backends reveal hop ≡ ok found
      → (backend : AnchorBackend) × (section_from sha256 backend reveal hop ≡ ok found.0)
  unfolding first_section
  first_section-from [] reveal hop h = absurd cc
  first_section-from (b ∷ backends) reveal hop {found} h =
      elim (Result-cases (section_from sha256 b reveal hop)) [
        | inl (section, e) ↦ (
          b,
          e
              ∙ ap ok (
                  ap (λ (p : WitnessSection × List ℕ). p.0)
                    (ok-injective (rw (e, first_section) at h))),
        )
        | inr (x, e) ↦ first_section-from backends reveal hop (rw (e, first_section) at h)
      ]

  lone_input :
      (mode : WitnessSectionMode) (reveal : ParsedTx)
      → needs_section mode reveal ≡ false
      → (length reveal.inputs == 1) ≡ true
  unfolding needs_section
  lone_input always reveal h = absurd cc
  lone_input when_needed reveal h = negated _ h

  unsectioned : (hop : CustodyHop) → hop.witness ≡ none → hop ≡ sectioned hop none
  unsectioned hop bare = ap (sectioned hop) bare

  -- The reveal's section passes the verifier's test, and where there is none the reveal has one input.
  pub attach-checked :
      (backends : List AnchorBackend) (reveal : ParsedTx) (hop : CustodyHop)
      (mode : WitnessSectionMode) {answer : CustodyHop × Option (List ℕ)} {header : BlockHeader}
      → attach_reveal_witness_section sha256 backends reveal hop mode ≡ ok answer
      → hop.witness ≡ none
      → parse_header_hex sha256 hop.block.header ≡ ok header
      → (section : Option WitnessSection) × (answer.0 ≡ sectioned hop section)
        × (check_section sha256 section (sectioned hop section) reveal ≡ ok tt)
        × (index_proven section reveal ≡ true)
  unfolding attach_reveal_witness_section check_section index_proven needs_section
  attach-checked backends reveal hop mode {answer} {header} h bare parsed =
      elim (Bool-cases (needs_section mode reveal)) [
        | inl needed ↦
            let ((section, server), found, h1) =
              >>=-eq-ok (first_section sha256 backends reveal hop) _ (rw needed at h) in
            let (backend, e) = first_section-from backends reveal hop found in
            let (header', parsed', anchored) = section_from-anchors backend reveal hop e in
            let text = trim-header hop.block.header parsed in
            let parsed_here =
              subst (λ (t : List ℕ). parse_header_hex sha256 t ≡ ok header') text parsed' in
            (
              some section,
              ap (λ (p : CustodyHop × Option (List ℕ)). p.0) (sym (ok-injective h1)),
              rw parsed_here anchored,
              refl,
            )
        | inr lone ↦ (
          none,
          ap (λ (p : CustodyHop × Option (List ℕ)). p.0) (sym (ok-injective (rw lone at h)))
              ∙ unsectioned hop bare,
          refl,
          lone_input mode reveal lone,
        )
      ]
