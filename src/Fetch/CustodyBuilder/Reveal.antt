-- ===== src/Fetch/CustodyBuilder/Reveal.antt =====
-- The verifier at the reveal hop that `buildCustodyBundle` of packages/fetch/src/custodybuilder.ts built.
use ordspv.Common.{
  ℕ, ◌≡◌, refl, sym, subst, ◌∙◌, true, List, Option, none, some, ok, or_throw, ◌>>=◌, >>=-eq-ok,
  >>-eq-ok, ok-injective,
}
use ordspv.Bytes.Hex.{bytes_equal}
use ordspv.Custody.Binding.{EnvelopeBinding, verify_envelope_binding}
use ordspv.Custody.Bundle.{CustodyHop, CustodyVerifyOptions, parse_header_hex, verify_anchored_hop}
use ordspv.Custody.Flow.{check_prev_tx_count, proven_input_values, genesis_satpoint}
use ordspv.Custody.Satpoint.{Satpoint}
use ordspv.Custody.Verify.{
  Revealed, find_index, inscriptions_from_tx, index_proven, proof_kind, check_section,
  verify_reveal,
}
use ordspv.Envelope.Interpret.{Inscription}
use ordspv.Fetch.CustodyBuilder.Types.{AnchorBackend, CustodyBackend, BuildOptions}
use ordspv.Fetch.CustodyBuilder.Hop.{as_inconsistent, check_tx_not_ambiguous, assemble_anchored_hop}
use ordspv.Fetch.CustodyBuilder.Section.{attach_reveal_witness_section}
use ordspv.Fetch.CustodyBuilder.Build.{build_reveal}
use ordspv.Fetch.CustodyBuilder.Assembled.{
  as_inconsistent-eq-ok, parse_hop_tx-trim, assemble_anchored_hop-verify,
}
use ordspv.Fetch.CustodyBuilder.Walked.{Trusting, or_throw-other}
use ordspv.Header.Parse.{BlockHeader}
use ordspv.InscriptionId.{InscriptionId, parse_inscription_id}
use ordspv.Taproot.{Curve}
use ordspv.Text.{trim}
use ordspv.Tx.Types.{ParsedTx}
use ordspv.Witness.{WitnessSection, parse_hex_tx, parse_hop_tx}
use ordspv.Fetch.CustodyBuilder.Attached.{sectioned, attach-checked}

module _ (sha256 : List ℕ → List ℕ) (curve : Curve) (decode_utf8 : List ℕ → List ℕ) where
  -- What the verifier finds at the reveal, and where the two start.
  pub record RevealBuilt (id : InscriptionId) (opts : CustodyVerifyOptions) (hop : CustodyHop)
      (genesis : Satpoint) : Type 0 where
    pub found : Revealed
    pub parsed : parse_hop_tx sha256 hop.hex ≡ ok found.reveal
    pub revealed : verify_reveal sha256 curve decode_utf8 id hop opts ≡ ok found
    pub values : List ℕ
    pub proven :
        proven_input_values sha256 found.reveal hop.prev_txs found.inscription.input ≡ ok values
    pub starts :
        genesis_satpoint found.reveal found.inscription values (some hop.block.height) ≡ ok genesis

  verify_reveal-tests :
      (id : InscriptionId) (opts : CustodyVerifyOptions) (hop : CustodyHop) (reveal : ParsedTx)
      (inscription : Inscription) (binding : EnvelopeBinding) (a : _)
      → parse_hop_tx sha256 hop.hex ≡ ok reveal
      → bytes_equal reveal.txid id.txid ≡ true
      → verify_anchored_hop sha256 hop reveal opts ≡ ok a
      → check_section sha256 hop.witness hop reveal ≡ ok tt
      → index_proven hop.witness reveal ≡ true
      → or_throw (find_index id.index (inscriptions_from_tx decode_utf8 reveal)) "index not present"
        ≡ ok inscription
      → check_prev_tx_count reveal hop.prev_txs ≡ ok tt
      → verify_envelope_binding sha256 curve reveal inscription hop.prev_txs ≡ ok binding
      → verify_reveal sha256 curve decode_utf8 id hop opts
        ≡ ok (record {
          reveal = reveal;
          inscription = inscription;
          binding = binding;
          index_proof = proof_kind hop.witness;
        })
  unfolding verify_reveal
  verify_reveal-tests id opts hop reveal inscription binding a parsed named anchored section proven
        present count bound =
      rw (parsed, named, anchored, section, proven, present, count, bound) refl

  reveal-RevealBuilt :
      (id : InscriptionId) (opts : CustodyVerifyOptions) (bare : CustodyHop)
      (section : Option WitnessSection) (hex : List ℕ) (reveal : ParsedTx)
      (inscription : Inscription) (binding : EnvelopeBinding) (a : _) (values : List ℕ)
      (genesis : Satpoint)
      → parse_hop_tx sha256 (trim hex) ≡ ok reveal
      → bare.hex ≡ trim hex
      → bytes_equal reveal.txid id.txid ≡ true
      → verify_anchored_hop sha256 bare reveal opts ≡ ok a
      → check_section sha256 section (sectioned bare section) reveal ≡ ok tt
      → index_proven section reveal ≡ true
      → or_throw (find_index id.index (inscriptions_from_tx decode_utf8 reveal)) "index not present"
        ≡ ok inscription
      → check_prev_tx_count reveal bare.prev_txs ≡ ok tt
      → verify_envelope_binding sha256 curve reveal inscription bare.prev_txs ≡ ok binding
      → proven_input_values sha256 reveal bare.prev_txs inscription.input ≡ ok values
      → genesis_satpoint reveal inscription values (some bare.block.height) ≡ ok genesis
      → RevealBuilt id opts (sectioned bare section) genesis
  unfolding verify_anchored_hop
  reveal-RevealBuilt id opts bare section hex reveal inscription binding a values genesis parsed
        text named anchored checked proven_index present count bound proven starts =
      record {
        found = record {
          reveal = reveal;
          inscription = inscription;
          binding = binding;
          index_proof = proof_kind section;
        };
        parsed = subst (λ (t : List ℕ). parse_hop_tx sha256 t ≡ ok reveal) (sym text) parsed;
        revealed =
            verify_reveal-tests id opts (sectioned bare section) reveal inscription binding a
              (subst (λ (t : List ℕ). parse_hop_tx sha256 t ≡ ok reveal) (sym text) parsed) named
              anchored checked proven_index present count bound;
        values = values;
        proven = proven;
        starts = starts;
      }

  finish_reveal-built :
      (id : InscriptionId) (opts : CustodyVerifyOptions) (options : BuildOptions)
      (backends : List AnchorBackend) (bare : CustodyHop) (hex : List ℕ) (reveal : ParsedTx)
      (inscription : Inscription) (binding : EnvelopeBinding) (a : _) (header : BlockHeader)
      {answer : CustodyHop × Satpoint × Option (List ℕ)}
      → parse_hop_tx sha256 (trim hex) ≡ ok reveal
      → bare.hex ≡ trim hex
      → bytes_equal reveal.txid id.txid ≡ true
      → verify_anchored_hop sha256 bare reveal opts ≡ ok a
      → parse_header_hex sha256 bare.block.header ≡ ok header
      → bare.witness ≡ none
      → or_throw (find_index id.index (inscriptions_from_tx decode_utf8 reveal)) "index not present"
        ≡ ok inscription
      → check_prev_tx_count reveal bare.prev_txs ≡ ok tt
      → verify_envelope_binding sha256 curve reveal inscription bare.prev_txs ≡ ok binding
      → (attach_reveal_witness_section sha256 backends reveal bare options.witness_section
          >>= λ (hop, server).
              proven_input_values sha256 reveal hop.prev_txs inscription.input >>= λ values.
              genesis_satpoint reveal inscription values (some hop.block.height) >>= λ genesis.
              ok (hop, genesis, server))
        ≡ ok answer
      → RevealBuilt id opts answer.0 answer.1
  finish_reveal-built id opts options backends bare hex reveal inscription binding a header parsed
        text named anchored read no_section present count bound h =
      let ((hop, server), attached, h1) =
        >>=-eq-ok
          (attach_reveal_witness_section sha256 backends reveal bare options.witness_section) _ h in
      let (values, proven, h2) =
        >>=-eq-ok (proven_input_values sha256 reveal hop.prev_txs inscription.input) _ h1 in
      let (genesis, starts, h3) =
        >>=-eq-ok (genesis_satpoint reveal inscription values (some hop.block.height)) _ h2 in
      let (section, same_hop, checked, proven_index) =
        attach-checked sha256 backends reveal bare options.witness_section attached no_section
          read in
      let whole : (hop, genesis, server) ≡ _ = ok-injective h3 in
      subst (λ (p : CustodyHop × Satpoint × Option (List ℕ)). RevealBuilt id opts p.0 p.1) whole
        (subst (λ (k : CustodyHop). RevealBuilt id opts k genesis) (sym same_hop)
          (reveal-RevealBuilt id opts bare section hex reveal inscription binding a values genesis
            parsed text named anchored checked proven_index present count bound
            (subst
              (λ (k : CustodyHop).
                proven_input_values sha256 reveal k.prev_txs inscription.input ≡ ok values)
              same_hop proven)
            (subst
              (λ (k : CustodyHop).
                genesis_satpoint reveal inscription values (some k.block.height) ≡ ok genesis)
              same_hop starts)))

  pub build_reveal-built :
      (text : List ℕ) (backend : CustodyBackend) (options : BuildOptions)
      (opts : CustodyVerifyOptions) {answer : CustodyHop × Satpoint × Option (List ℕ)}
      → build_reveal sha256 curve decode_utf8 text backend options ≡ ok answer
      → opts.pow_limit_bits ≡ options.pow_limit_bits
      → Trusting opts
      → (id : InscriptionId) × (parse_inscription_id text ≡ ok id)
        × RevealBuilt id opts answer.0 answer.1
  unfolding build_reveal
  build_reveal-built text backend options opts {answer} h same_limit trusting =
      let (id, named, h1) = >>=-eq-ok (parse_inscription_id text) _ h in
      let (hex, _, h2) = >>=-eq-ok (backend.anchor.get_tx_hex 0 id.txid) _ h1 in
      let (reveal, parsed, h3) = >>=-eq-ok (parse_hex_tx sha256 hex) _ h2 in
      let (is_reveal, h4) = >>-eq-ok (bytes_equal reveal.txid id.txid) _ _ h3 in
      let (_, clear, h5) = >>=-eq-ok (check_tx_not_ambiguous reveal) _ h4 in
      let (inscription, present, h6) =
        >>=-eq-ok
          (or_throw (find_index id.index (inscriptions_from_tx decode_utf8 reveal))
            "no envelope with this index")
          _ h5 in
      let (bare, assembled, h7) =
        >>=-eq-ok
          (assemble_anchored_hop sha256 backend.anchor 0 reveal hex inscription.input
            options.pow_limit_bits)
          _ h6 in
      let (binding, bound, h8) =
        >>=-eq-ok
          (as_inconsistent "binding"
            (verify_envelope_binding sha256 curve reveal inscription bare.prev_txs))
          _ h7 in
      let (header, read, asks, same_text, no_section, count, _, _) =
        assemble_anchored_hop-verify sha256 backend.anchor 0 reveal hex inscription.input opts (
          subst
            (λ l.
              assemble_anchored_hop sha256 backend.anchor 0 reveal hex inscription.input l
              ≡ ok bare)
            (sym same_limit) assembled) in
      let (a, trusted) = trusting header bare.block.height in
      (
        id,
        named,
        finish_reveal-built id opts options _ bare hex reveal inscription binding a header
            (parse_hop_tx-trim sha256 hex parsed clear) same_text is_reveal (asks ∙ trusted) read
            no_section
            (or_throw-other (find_index id.index (inscriptions_from_tx decode_utf8 reveal))
              "no envelope with this index" "index not present" present)
            count
            (as_inconsistent-eq-ok "binding"
              (verify_envelope_binding sha256 curve reveal inscription bare.prev_txs) bound)
            h8,
      )
