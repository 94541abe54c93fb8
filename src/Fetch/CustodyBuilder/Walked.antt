-- ===== src/Fetch/CustodyBuilder/Walked.antt =====
-- The verifier's loop over the hops that `buildCustodyBundle` of packages/fetch/src/custodybuilder.ts
-- built after the reveal.
use mathlib.Core.List.{Memᴰ}
use ordspv.Common.{
  ℕ, String, zero, suc, ◌+◌, ◌≡◌, refl, ap, sym, subst, ◌∙◌, ◌⊎◌, inl, inr, Bool, true, false, not,
  Bool-cases, List, [], ◌∷◌, Option, none, some, failure, custody_unsupported, custody_hop_limit,
  Result, ok, err, require, or_throw, ◌>>◌, >>=-eq-ok, >>-eq-ok, ok-injective, ltb, get_or,
}
use ordspv.Custody.Bundle.{
  CustodyHop, CustodyVerifyOptions, HeaderAttestation, ask_trust, verify_anchored_hop,
}
use ordspv.Custody.Flow.{find_spend, check_prev_tx_count, proven_input_values, transfer_satpoint}
use ordspv.Custody.Satpoint.{Satpoint}
use ordspv.Custody.Verify.{Walk, has_section, is_seen, comes_after, walk_hop, walk_loop, last_walk}
use ordspv.Fetch.CustodyBuilder.Types.{CustodyBackend, Outspend}
use ordspv.Fetch.CustodyBuilder.Hop.{check_tx_not_ambiguous, assemble_anchored_hop}
use ordspv.Fetch.CustodyBuilder.Build.{BuiltPath, follow, build_hop, build_hops}
use ordspv.Fetch.CustodyBuilder.Assembled.{parse_hop_tx-trim, assemble_anchored_hop-verify}
use ordspv.Fetch.CustodyBuilder.Verdict.{
  repeated, of_coinbase, outside, Unmade-later, Unmade-here, Verdict, Verdict-map,
}
use ordspv.Fetch.HeaderSync.{non_empty}
use ordspv.Header.Parse.{BlockHeader}
use ordspv.Tx.Types.{ParsedTx, is_coinbase}
use ordspv.Witness.{parse_hex_tx, parse_hop_tx}

-- The caller's hook throws nothing.
abbrev pub Trusting : CustodyVerifyOptions → Type 0
Trusting opts =
    (header : BlockHeader) (height : ℕ)
    → (a : _) × (ask_trust opts.trust_header header height ≡ ok a)

three_tests {ℓ κ} :
    {A : Type ℓ} {Good : A → Type κ} (sha256 : List ℕ → List ℕ) (hop : CustodyHop) (tx : ParsedTx)
    (fresh coinbase inside : Bool) (a : A)
    → parse_hop_tx sha256 hop.hex ≡ ok tx
    → is_coinbase tx ≡ coinbase
    → Good a
    → Verdict sha256
        (hop ∷ [])
        (require fresh (failure "duplicate transaction")
          >> (require (not coinbase) (custody_unsupported (some hop.block.height))
              >> (require inside (failure "tracked offset outside spent output value") >> ok a)))
        Good
three_tests sha256 hop tx false coinbase inside a parsed same good =
    inr (_, refl, repeated hop (Memᴰ.head refl) refl)
three_tests sha256 hop tx true true inside a parsed same good =
    inr (_, refl, of_coinbase hop tx (Memᴰ.head refl) parsed same refl)
three_tests sha256 hop tx true false false a parsed same good =
    inr (_, refl, outside hop (Memᴰ.head refl) refl)
three_tests sha256 hop tx true false true a parsed same good = inl (a, refl, good)

pub or_throw-other {ℓ} :
    {A : Type ℓ} (o : Option A) (message other : String) {a : A}
    → or_throw o message ≡ ok a
    → or_throw o other ≡ ok a
or_throw-other (some a) message other h = h
or_throw-other none message other h = absurd cc

-- The verifier stands behind the hop that was built last.
pub record At (w : Walk) (current : Satpoint) (hop : CustodyHop) : Type 0 where
  pub satpoint_is : w.current ≡ current
  pub height_is : w.prev_height ≡ hop.block.height
  pub pos_is : w.prev_pos ≡ hop.pos

module _ (sha256 : List ℕ → List ℕ) (opts : CustodyVerifyOptions) where
  walk_hop-tests :
      (w : Walk) (hop : CustodyHop) (tx : ParsedTx) (a : HeaderAttestation) (j : ℕ)
      (values : List ℕ) (to : Satpoint)
      → parse_hop_tx sha256 hop.hex ≡ ok tx
      → hop.witness ≡ none
      → comes_after w.prev_height w.prev_pos hop.block.height hop.pos ≡ true
      → verify_anchored_hop sha256 hop tx opts ≡ ok a
      → or_throw (find_spend w.current tx.inputs) "transaction does not spend tracked satpoint"
        ≡ ok j
      → check_prev_tx_count tx hop.prev_txs ≡ ok tt
      → proven_input_values sha256 tx hop.prev_txs j ≡ ok values
      → transfer_satpoint tx values w.current (some hop.block.height) ≡ ok to
      → Verdict sha256 (hop ∷ []) (walk_hop sha256 opts w hop) (λ w'. At w' to hop)
  unfolding walk_hop has_section
  walk_hop-tests w hop tx a j values to parsed bare later anchored spent count proven moved =
      let plain : has_section hop.witness ≡ false = rw bare refl in
      rw (plain, parsed, later, anchored, spent, count, proven, moved)
        (three_tests sha256 hop tx (not (is_seen tx.txid w.seen_txids)) (is_coinbase tx)
          (ltb w.current.offset (get_or values j 0)) _ parsed refl
          (record { satpoint_is = refl; height_is = refl; pos_is = refl }))

  module _ (backend : CustodyBackend) (trusting : Trusting opts) where
    walk_hop-built :
        (h : ℕ) (spender : List ℕ) (previous : CustodyHop) (w : Walk) (hop : CustodyHop)
        (next : Satpoint)
        → build_hop sha256 backend opts.pow_limit_bits h spender w.current previous ≡ ok (hop, next)
        → w.prev_height ≡ previous.block.height
        → w.prev_pos ≡ previous.pos
        → Verdict sha256 (hop ∷ []) (walk_hop sha256 opts w hop) (λ w'. At w' next hop)
    unfolding build_hop
    walk_hop-built h spender previous w hop next e height_is pos_is =
        let (hex, _, e1) = >>=-eq-ok (backend.anchor.get_tx_hex h spender) _ e in
        let (tx, parsed, e2) = >>=-eq-ok (parse_hex_tx sha256 hex) _ e1 in
        let (_, clear, e3) = >>=-eq-ok (check_tx_not_ambiguous tx) _ e2 in
        let (j, spent, e4) =
          >>=-eq-ok
            (or_throw (find_spend w.current tx.inputs) "claimed to spend the satpoint but does not")
            _ e3 in
        let (k, built, e5) =
          >>=-eq-ok (assemble_anchored_hop sha256 backend.anchor h tx hex j opts.pow_limit_bits) _
            e4 in
        let (later, e6) =
          >>-eq-ok (comes_after previous.block.height previous.pos k.block.height k.pos) _ _ e5 in
        let (values, proven, e7) = >>=-eq-ok (proven_input_values sha256 tx k.prev_txs j) _ e6 in
        let (to, moved, e8) =
          >>=-eq-ok (transfer_satpoint tx values w.current (some k.block.height)) _ e7 in
        let (header, _, asks, text, bare, count, _, _) =
          assemble_anchored_hop-verify sha256 backend.anchor h tx hex j opts built in
        let (a, trusted) = trusting header k.block.height in
        let same : (k, to) ≡ (hop, next) = ok-injective e8 in
        let verdict =
          walk_hop-tests w k tx a j values to
            (subst (λ (s : List ℕ). parse_hop_tx sha256 s ≡ ok tx) (sym text)
              (parse_hop_tx-trim sha256 hex parsed clear))
            bare (rw (height_is, pos_is) later) (asks ∙ trusted) (or_throw-other _ _ _ spent) count
            proven moved in
        subst
          (λ (p : CustodyHop × Satpoint).
            Verdict sha256 (p.0 ∷ []) (walk_hop sha256 opts w p.0) (λ w'. At w' p.1 p.0))
          same verdict

    follow-cases :
        (outspend : Outspend) (current : Satpoint) (deeper : List ℕ → Result BuiltPath)
        {path : BuiltPath}
        → follow outspend current deeper ≡ ok path
        → ((path.0 ≡ []) × (path.1 ≡ current)) ⊎ ((txid : List ℕ) × (deeper txid ≡ ok path))
    unfolding follow
    follow-cases outspend current deeper {path} e = elim (Bool-cases outspend.spent) [
      | inr unspent ↦
          let same = ok-injective (rw unspent at e) in
          inl (ap (λ (p : BuiltPath). p.0) (sym same), ap (λ (p : BuiltPath). p.1) (sym same))
      | inl spent ↦
          let (txid, _, e1) =
            >>=-eq-ok (or_throw (non_empty outspend.txid) "outspend reports spent without a txid") _
              (rw spent at e) in
          elim (Bool-cases outspend.confirmed) [
            | inl mined ↦ inr (txid, rw mined at e1)
            | inr pending ↦
                let same = ok-injective (rw pending at e1) in
                inl (ap (λ (p : BuiltPath). p.0) (sym same), ap (λ (p : BuiltPath). p.1) (sym same))
          ]
    ]

    walk_end :
        (w : Walk) (path : BuiltPath)
        → path.0 ≡ []
        → path.1 ≡ w.current
        → Verdict sha256 path.0
            (walk_loop sha256 opts w path.0)
            (λ ws. (last_walk w ws).current ≡ path.1)
    unfolding walk_loop last_walk
    walk_end w path no_hops same = rw no_hops (inl ([], refl, sym same))

    walk_on :
        (w : Walk) (hop : CustodyHop) (hops : List CustodyHop) (last : Satpoint)
        → Verdict sha256 (hop ∷ []) (walk_hop sha256 opts w hop) (λ w'.
          Verdict sha256 hops
            (walk_loop sha256 opts w' hops)
            (λ ws. (last_walk w' ws).current ≡ last))
        → Verdict sha256
            (hop ∷ hops)
            (walk_loop sha256 opts w (hop ∷ hops))
            (λ ws. (last_walk w ws).current ≡ last)
    unfolding walk_loop last_walk
    walk_on w hop hops last (inr (e, refused, unmade)) =
        inr (e, rw refused refl, Unmade-here sha256 hop hops unmade)
    walk_on w hop hops last (inl (w', walked, inr (e, refused, unmade))) =
        inr (e, rw (walked, refused) refl, Unmade-later sha256 hop hops unmade)
    walk_on w hop hops last (inl (w', walked, inl (ws, looped, ends))) =
        inl (w' ∷ ws, rw (walked, looped) refl, ends)

    -- The verifier's loop over the hops that were built comes to the satpoint that the builder came to.
    pub walk_loop-built :
        (max_hops left h : ℕ) (previous : CustodyHop) (w : Walk) (path : BuiltPath)
        → build_hops sha256 backend opts.pow_limit_bits max_hops left h w.current previous ≡ ok path
        → w.prev_height ≡ previous.block.height
        → w.prev_pos ≡ previous.pos
        → Verdict sha256 path.0
            (walk_loop sha256 opts w path.0)
            (λ ws. (last_walk w ws).current ≡ path.1)
    unfolding build_hops
    walk_loop-built max_hops zero h previous w path e height_is pos_is =
        let (outspend, _, e1) =
          >>=-eq-ok (backend.get_outspend h w.current.txid w.current.vout) _ e in
        elim (follow-cases outspend w.current (λ txid. err (custody_hop_limit max_hops h)) e1) [
          | inl (no_hops, same) ↦ walk_end w path no_hops same
          | inr (txid, never) ↦ absurd cc
        ]
    walk_loop-built max_hops (suc left) h previous w path e height_is pos_is =
        let (outspend, _, e1) =
          >>=-eq-ok (backend.get_outspend h w.current.txid w.current.vout) _ e in
        elim (follow-cases outspend w.current _ e1) [
          | inl (no_hops, same) ↦ walk_end w path no_hops same
          | inr (txid, e2) ↦
              let (built, step, e3) =
                >>=-eq-ok (build_hop sha256 backend opts.pow_limit_bits h txid w.current previous) _
                  e2 in
              let (rest, steps, e4) =
                >>=-eq-ok
                  (build_hops sha256 backend opts.pow_limit_bits max_hops left (h + 1) built.1
                    built.0)
                  _ e3 in
              let whole : (built.0 ∷ rest.0, rest.1, rest.2) ≡ path = ok-injective e4 in
              let later = walk_hop-built h txid previous w built.0 built.1 step height_is pos_is in
              subst
                (λ (p : BuiltPath).
                  Verdict sha256 p.0 (walk_loop sha256 opts w p.0)
                    (λ ws. (last_walk w ws).current ≡ p.1))
                whole
                (walk_on w built.0 rest.0 rest.1 (
                  Verdict-map sha256 (built.0 ∷ []) _ later (λ w' at.
                    walk_loop-built max_hops left (h + 1) built.0 w' rest
                      (subst
                        (λ (c : Satpoint).
                          build_hops sha256 backend opts.pow_limit_bits max_hops left (h + 1) c
                            built.0
                          ≡ ok rest)
                        (sym at.satpoint_is) steps)
                      at.height_is at.pos_is)))
        ]
