-- ===== src/Fetch/CustodyBuilder/Txids.antt =====
-- The satpoints that the verifier walks over lie in transactions, whose ids are 64 hex digits.
use ordspv.Common.{
  ℕ, String, ◌||◌, ◌*◌, ◌/◌, ◌%◌, ◌<◌, ◌≤◌, ◌≡◌, refl, ap, sym, subst, ◌∙◌, true, false, not, List,
  [], ◌∷◌, some, reverse, Result, ok, err, relabel, or_throw, >>=-eq-ok, >>-eq-ok, ok-injective,
  ltb, ◌==◌, length, length-append, get_or, All, arith,
}
use mathlib.Core.List.{reverse-cons}
use ordspv.Bytes.Hex.{
  IsByte, All-reverse, is_hex_char, all_hex, hex_char, bytes_to_hex, internal_to_display,
  hex_to_bytes,
}
use ordspv.Bytes.Reader.{reader, remaining}
use ordspv.Custody.Bundle.{CustodyHop, CustodyVerifyOptions, verify_anchored_hop}
use ordspv.Custody.Flow.{find_spend, check_prev_tx_count, proven_input_values, transfer_satpoint}
use ordspv.Custody.Follows.{transfer_satpoint-txid}
use ordspv.Custody.Satpoint.{Satpoint, max_vout, format_satpoint, parse_satpoint}
use ordspv.Custody.Text.{parse-format_satpoint}
use ordspv.Custody.Verify.{Walk, has_section, is_seen, comes_after, walk_hop, walk_loop, last_walk}
use ordspv.Text.{lower_char, to_lower_case, trim}
use ordspv.Tx.Hash.{sha256d}
use ordspv.Tx.Parse.{read_tx, finish_tx, parse_tx}
use ordspv.Tx.Types.{ParsedTx, is_coinbase}
use ordspv.Witness.{parse_hex_tx, parse_hop_tx}

-- A hash is 32 bytes.
abbrev pub IsHash : (List ℕ → List ℕ) → Type 0
IsHash sha256 = (b : List ℕ) → (length (sha256 b) ≡ 32) × All IsByte (sha256 b)

-- 64 hex digits in lower case.
pub record IsTxid (s : List ℕ) : Type 0 where
  pub size : length s ≡ 64
  pub hex : all_hex s ≡ true
  pub lower : to_lower_case s ≡ s

length-reverse : (xs : List ℕ) → length (reverse xs) ≡ length xs
length-reverse [] = refl
length-reverse (x ∷ xs) =
    ap length (reverse-cons x xs)
    ∙ omega (arith, length-append {0} (reverse xs) (x ∷ []), length-reverse xs)

hex_char-lower :
    (d : ℕ) → d < 16 → (is_hex_char (hex_char d) ≡ true) × (lower_char (hex_char d) ≡ hex_char d)
unfolding hex_char is_hex_char lower_char
hex_char-lower d h = (ground arith, ground arith)

bytes_to_hex-lower :
    (bs : List ℕ)
    → All IsByte bs
    → (length (bytes_to_hex bs) ≡ 2 * length bs)
      × (all_hex (bytes_to_hex bs) ≡ true)
      × (to_lower_case (bytes_to_hex bs) ≡ bytes_to_hex bs)
unfolding bytes_to_hex all_hex to_lower_case
bytes_to_hex-lower [] h = (refl, refl, refl)
bytes_to_hex-lower (b ∷ bs) (is_byte, h) =
    let (size, hex, lower) = bytes_to_hex-lower bs h in
    let (hi_hex, hi_lower) = hex_char-lower (b / 16) (omega (arith, is_byte)) in
    let (lo_hex, lo_lower) = hex_char-lower (b % 16) (omega arith) in
    (omega (arith, size), rw (hi_hex, lo_hex, hex) refl, rw (hi_lower, lo_lower, lower) refl)

relabel-eq-ok {ℓ} :
    {A : Type ℓ} (message : String) (r : Result A) {a : A} → relabel message r ≡ ok a → r ≡ ok a
relabel-eq-ok message (ok a) h = h
relabel-eq-ok message (err e) h = absurd cc

module _ (sha256 : List ℕ → List ℕ) (hash : IsHash sha256) where
  display-IsTxid : (b : List ℕ) → IsTxid (internal_to_display (sha256 b))
  unfolding internal_to_display
  display-IsTxid b =
      let (size, hex, lower) =
        bytes_to_hex-lower (reverse (sha256 b)) (All-reverse IsByte (sha256 b) (hash b).1) in
      record {
        size = size ∙ ap (λ n. 2 * n) (length-reverse (sha256 b) ∙ (hash b).0);
        hex = hex;
        lower = lower;
      }

  pub parse_hop_tx-IsTxid :
      (hex : List ℕ) {tx : ParsedTx} → parse_hop_tx sha256 hex ≡ ok tx → IsTxid tx.txid
  unfolding parse_hop_tx parse_hex_tx parse_tx finish_tx sha256d
  parse_hop_tx-IsTxid hex {tx} h =
      let (t, labelled, h1) =
        >>=-eq-ok (relabel "cannot parse transaction" (parse_hex_tx sha256 hex)) _ h in
      let (_, h2) = >>-eq-ok (not (length t.stripped_raw == 64)) _ _ h1 in
      let (raw, _, h3) = >>=-eq-ok (hex_to_bytes (trim hex)) _ (relabel-eq-ok _ _ labelled) in
      let (read, _, h4) = >>=-eq-ok (read_tx (reader raw 0)) _ h3 in
      let (_, h5) = >>-eq-ok (false || remaining read.1 == 0) _ _ h4 in
      subst (λ (x : ParsedTx). IsTxid x.txid) (ok-injective h5 ∙ ok-injective h2) (display-IsTxid _)

  walk_hop-IsTxid :
      (opts : CustodyVerifyOptions) (w : Walk) (hop : CustodyHop) {next : Walk}
      → walk_hop sha256 opts w hop ≡ ok next
      → IsTxid next.current.txid
  unfolding walk_hop
  walk_hop-IsTxid opts w hop h =
      let (_, h1) = >>-eq-ok (not (has_section hop.witness)) _ _ h in
      let (tx, parsed, h2) = >>=-eq-ok (parse_hop_tx sha256 hop.hex) _ h1 in
      let (_, h3) = >>-eq-ok (not (is_seen tx.txid w.seen_txids)) _ _ h2 in
      let (_, h4) = >>-eq-ok (not (is_coinbase tx)) _ _ h3 in
      let (_, h5) =
        >>-eq-ok (comes_after w.prev_height w.prev_pos hop.block.height hop.pos) _ _ h4 in
      let (_, _, h6) = >>=-eq-ok (verify_anchored_hop sha256 hop tx opts) _ h5 in
      let (j, _, h7) =
        >>=-eq-ok
          (or_throw (find_spend w.current tx.inputs) "transaction does not spend tracked satpoint")
          _ h6 in
      let (_, _, h8) = >>=-eq-ok (check_prev_tx_count tx hop.prev_txs) _ h7 in
      let (values, _, h9) = >>=-eq-ok (proven_input_values sha256 tx hop.prev_txs j) _ h8 in
      let (_, h10) = >>-eq-ok (ltb w.current.offset (get_or values j 0)) _ _ h9 in
      let (to, moved, h11) =
        >>=-eq-ok (transfer_satpoint tx values w.current (some hop.block.height)) _ h10 in
      let same = transfer_satpoint-txid tx values w.current to (some hop.block.height) moved in
      subst (λ (x : Walk). IsTxid x.current.txid) (ok-injective h11)
        (subst IsTxid (sym same) (parse_hop_tx-IsTxid hop.hex parsed))

  pub walk_loop-IsTxid :
      (opts : CustodyVerifyOptions) (w : Walk) (hops : List CustodyHop) {ws : List Walk}
      → walk_loop sha256 opts w hops ≡ ok ws
      → IsTxid w.current.txid
      → IsTxid (last_walk w ws).current.txid
  unfolding walk_loop last_walk
  walk_loop-IsTxid opts w [] h t =
      subst (λ ws. IsTxid (last_walk w ws).current.txid) (ok-injective h) t
  walk_loop-IsTxid opts w (hop ∷ hops) h t =
      let (next, walked, h1) = >>=-eq-ok (walk_hop sha256 opts w hop) _ h in
      let (rest, looped, h2) = >>=-eq-ok (walk_loop sha256 opts next hops) _ h1 in
      subst (λ ws. IsTxid (last_walk w ws).current.txid) (ok-injective h2)
        (walk_loop-IsTxid opts next hops looped (walk_hop-IsTxid opts w hop walked))

-- A satpoint of a 32-bit output is printed and read back.
pub format-read :
    (s : Satpoint) → IsTxid s.txid → s.vout ≤ max_vout → parse_satpoint (format_satpoint s) ≡ ok s
format-read s t fits =
    parse-format_satpoint s t.size t.hex fits
    ∙ ap (λ x. ok (record { txid = x; vout = s.vout; offset = s.offset })) t.lower
