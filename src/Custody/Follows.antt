-- ===== src/Custody/Follows.antt =====
-- One round of the loop over the later hops in `verifyCustodyBundle` of packages/core/src/custody.ts.
use ordspv.Common.{
  ℕ, suc, ◌+◌, ◌<◌, ◌||◌, ◌≡◌, refl, ap, subst, ◌⊎◌, arith, true, false, not, List, [], ◌∷◌, Option,
  some, ok, >>=-eq-ok, >>-eq-ok, ok-injective, not-true, or_throw, or_throw-eq-ok, ltb, ltb→lt,
  ◌==◌, length, get_or,
}
use ordspv.Custody.Anchor.{AnchoredHeader, AnchoredTx, verify_anchored_hop-Anchored}
use ordspv.Header.Parse.{BlockHeader}
use ordspv.Custody.Bundle.{CustodyHop, CustodyVerifyOptions, verify_anchored_hop}
use ordspv.Custody.Conserve.{map_to_outputs_iff}
use ordspv.Custody.Flow.{
  check_prev_tx_count, find_spend, proven_input_values, genesis_satpoint, transfer_satpoint,
  coverage, position_of, genesis_position,
}
use ordspv.Custody.Satpoint.{Satpoint}
use ordspv.Custody.Verify.{Walk, has_section, is_seen, comes_after, walk_hop, walk_loop}
use ordspv.Envelope.Interpret.{Inscription}
use ordspv.Sat.Hops.{in_outputs-eq-ok}
use ordspv.Tx.Types.{ParsedTx, is_coinbase}
use ordspv.Witness.{parse_hop_tx}

-- One hop of the bundle after another: later in the chain, and a transaction that the path has not met,
-- which spends the satpoint at an input whose value its previous transactions prove, and in one of
-- whose outputs the satpoint lies afterwards.
pub record Follows (sha256 : List ℕ → List ℕ) (opts : CustodyVerifyOptions) (w : Walk)
    (hop : CustodyHop) (next : Walk) : Type 0 where
  pub height_is : next.prev_height ≡ hop.block.height
  pub pos_is : next.prev_pos ≡ hop.pos
  pub later :
      (w.prev_height < hop.block.height)
      ⊎ ((w.prev_height ≡ hop.block.height) × (w.prev_pos < hop.pos))
  pub tx : ParsedTx
  pub tx_is : parse_hop_tx sha256 hop.hex ≡ ok tx
  pub header : BlockHeader
  pub header_anchored : AnchoredHeader sha256 hop.block opts header
  pub tx_anchored : AnchoredTx sha256 header hop.block.tx_count tx hop.txid_branch hop.pos
  pub not_coinbase : is_coinbase tx ≡ false
  pub seen : next.seen_txids ≡ tx.txid ∷ w.seen_txids
  pub fresh : is_seen tx.txid w.seen_txids ≡ false
  pub input : ℕ
  pub spends : find_spend w.current tx.inputs ≡ some input
  pub values : List ℕ
  pub proven : proven_input_values sha256 tx hop.prev_txs input ≡ ok values
  pub inside : w.current.offset < get_or values input 0
  pub moved : transfer_satpoint tx values w.current (some hop.block.height) ≡ ok next.current
  pub lies_in : next.current.txid ≡ tx.txid

pub data Chain (sha256 : List ℕ → List ℕ) (opts : CustodyVerifyOptions)
    : Walk → List CustodyHop → List Walk → Type 0 where
  chain_end : {w : Walk} → Chain sha256 opts w [] []
  chain_hop :
      {w next : Walk} {hop : CustodyHop} {hops : List CustodyHop} {ws : List Walk}
      → Follows sha256 opts w hop next
      → Chain sha256 opts next hops ws
      → Chain sha256 opts w (hop ∷ hops) (next ∷ ws)

comes_after-later :
    (h p h' p' : ℕ) → comes_after h p h' p' ≡ true → (h < h') ⊎ ((h ≡ h') × (p < p'))
unfolding comes_after
comes_after-later h p h' p' e = ground arith

pub transfer_satpoint-txid :
    (tx : ParsedTx) (values : List ℕ) (from to : Satpoint) (height : Option ℕ)
    → transfer_satpoint tx values from height ≡ ok to
    → to.txid ≡ tx.txid
unfolding transfer_satpoint
transfer_satpoint-txid tx values from to height h =
    let (j, _, h1) =
      >>=-eq-ok (or_throw (find_spend from tx.inputs) "transaction does not spend the satpoint") _
        h in
    let (_, h2) = >>-eq-ok (coverage values j) _ _ h1 in
    ((map_to_outputs_iff tx (from.offset + position_of values j) to).0
      (in_outputs-eq-ok _ height to h2)).0

pub genesis_satpoint-txid :
    (reveal : ParsedTx) (inscription : Inscription) (values : List ℕ) (height : Option ℕ)
    {genesis : Satpoint}
    → genesis_satpoint reveal inscription values height ≡ ok genesis
    → genesis.txid ≡ reveal.txid
unfolding genesis_satpoint
genesis_satpoint-txid reveal inscription values height {genesis} h =
    let (_, h1) = >>-eq-ok (not (is_coinbase reveal)) _ _ h in
    let (_, h2) = >>-eq-ok (ltb inscription.input (length reveal.inputs)) _ _ h1 in
    let (_, h3) = >>-eq-ok (coverage values inscription.input) _ _ h2 in
    let (_, h4) =
      >>-eq-ok (not (inscription.unbound_by_even_field || get_or values inscription.input 0 == 0)) _
        _ h3 in
    ((map_to_outputs_iff reveal (genesis_position reveal inscription values) genesis).0
      (in_outputs-eq-ok _ height genesis h4)).0

walk_hop-Follows :
    (sha256 : List ℕ → List ℕ) (opts : CustodyVerifyOptions) (w : Walk) (hop : CustodyHop)
    (next : Walk)
    → walk_hop sha256 opts w hop ≡ ok next
    → Follows sha256 opts w hop next
unfolding walk_hop
walk_hop-Follows sha256 opts w hop next h =
    let (_, h1) = >>-eq-ok (not (has_section hop.witness)) _ _ h in
    let (tx, parsed, h2) = >>=-eq-ok (parse_hop_tx sha256 hop.hex) _ h1 in
    let (new, h3) = >>-eq-ok (not (is_seen tx.txid w.seen_txids)) _ _ h2 in
    let (plain, h4) = >>-eq-ok (not (is_coinbase tx)) _ _ h3 in
    let (after, h5) =
      >>-eq-ok (comes_after w.prev_height w.prev_pos hop.block.height hop.pos) _ _ h4 in
    let (a, accepted, h6) = >>=-eq-ok (verify_anchored_hop sha256 hop tx opts) _ h5 in
    let (header, in_chain, in_block) = verify_anchored_hop-Anchored sha256 hop tx opts a accepted in
    let (j, spent, h7) =
      >>=-eq-ok
        (or_throw (find_spend w.current tx.inputs) "transaction does not spend tracked satpoint") _
        h6 in
    let (_, _, h8) = >>=-eq-ok (check_prev_tx_count tx hop.prev_txs) _ h7 in
    let (values, proven, h9) = >>=-eq-ok (proven_input_values sha256 tx hop.prev_txs j) _ h8 in
    let (inside, h10) = >>-eq-ok (ltb w.current.offset (get_or values j 0)) _ _ h9 in
    let (current, moved, h11) =
      >>=-eq-ok (transfer_satpoint tx values w.current (some hop.block.height)) _ h10 in
    subst (Follows sha256 opts w hop) (ok-injective h11) (record {
      height_is = refl;
      pos_is = refl;
      later = comes_after-later _ _ _ _ after;
      tx = tx;
      tx_is = parsed;
      header = header;
      header_anchored = in_chain;
      tx_anchored = in_block;
      not_coinbase = not-true _ plain;
      seen = refl;
      fresh = not-true _ new;
      input = j;
      spends = or_throw-eq-ok _ _ spent;
      values = values;
      proven = proven;
      inside = ltb→lt _ _ inside;
      moved = moved;
      lies_in = transfer_satpoint-txid tx values w.current current (some hop.block.height) moved;
    })

pub walk_loop-Chain :
    (sha256 : List ℕ → List ℕ) (opts : CustodyVerifyOptions) (w : Walk) (hops : List CustodyHop)
    (ws : List Walk)
    → walk_loop sha256 opts w hops ≡ ok ws
    → Chain sha256 opts w hops ws × (length ws ≡ length hops)
unfolding walk_loop
walk_loop-Chain sha256 opts w [] ws h =
    subst (λ (t : List Walk). Chain sha256 opts w [] t × (length t ≡ 0)) (ok-injective h)
      (chain_end, refl)
walk_loop-Chain sha256 opts w (hop ∷ hops) ws h =
    let (next, stepped, h1) = >>=-eq-ok (walk_hop sha256 opts w hop) _ h in
    let (rest, walked, h2) = >>=-eq-ok (walk_loop sha256 opts next hops) _ h1 in
    let (chain, len) = walk_loop-Chain sha256 opts next hops rest walked in
    subst (λ (t : List Walk). Chain sha256 opts w (hop ∷ hops) t × (length t ≡ suc (length hops)))
      (ok-injective h2)
      (chain_hop (walk_hop-Follows sha256 opts w hop next stepped) chain, ap suc len)
