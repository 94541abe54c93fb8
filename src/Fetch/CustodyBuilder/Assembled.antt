-- ===== src/Fetch/CustodyBuilder/Assembled.antt =====
-- What `assembleAnchoredHop` of packages/fetch/src/custodybuilder.ts has checked when it answers a hop.
use mathlib.Core.List.{reverse-cons, reverse-reverse}
use ordspv.Common.{
  ℕ, suc, ◌+◌, ◌≤◌, ◌≡◌, zero, refl, ap, sym, subst, ◌∙◌, true, false, not, &&-parts, List, [], ◌∷◌,
  ◌++◌, none, some, reverse, String, hop_consistency, Result, ok, err, or_throw, relabel,
  map_result, ◌>>=◌, ◌>>◌, >>=-eq-ok, >>-eq-ok, ok-injective, require-eq-ok, ltb, leb, ◌==◌, length,
  arith,
}
use ordspv.Bytes.Hex.{bytes_equal, is_hex_char, all_hex, hex_to_bytes, display_to_internal}
use ordspv.Custody.Bundle.{
  CustodyHop, CustodyVerifyOptions, ask_trust, parse_header_hex, anchor_header, anchor_tx,
  verify_anchored_hop,
}
use ordspv.Custody.Flow.{check_prev_tx_count}
use ordspv.Fetch.HeaderSync.{non_empty}
use ordspv.Fetch.CustodyBuilder.Types.{AnchorBackend, MerkleProof, BlockInfoAnswer}
use ordspv.Fetch.CustodyBuilder.Hop.{
  as_inconsistent, agrees, check_tx_not_ambiguous, check_merkle_root, check_hop_answers,
  fetch_prev_txs, assemble_anchored_hop,
}
use ordspv.Header.Parse.{BlockHeader, PowLimit, check_pow_limit, check_proof_of_work}
use ordspv.Merkle.Tree.{tree_height, check_count, verify_merkle_branch}
use ordspv.Text.{trim, trim_start, is_space, to_lower_case}
use ordspv.Tx.Types.{ParsedTx, TxInput}
use ordspv.Witness.{parse_hex_tx, parse_hop_tx}

-- Hex has no space around it.
hex_no_space : (c : ℕ) → is_hex_char c ≡ true → is_space c ≡ false
unfolding is_hex_char is_space
hex_no_space c h = ground arith

trim_start-hex : (s : List ℕ) → all_hex s ≡ true → trim_start s ≡ s
unfolding trim_start all_hex
trim_start-hex [] h = refl
trim_start-hex (c ∷ cs) h = rw (hex_no_space c (&&-parts _ _ h).0) refl

all_hex-append : (s t : List ℕ) → all_hex s ≡ true → all_hex t ≡ true → all_hex (s ++ t) ≡ true
unfolding all_hex
all_hex-append [] t hs ht = ht
all_hex-append (c ∷ s) t hs ht =
    let (a, b) = &&-parts (is_hex_char c) (all_hex s) hs in rw (a, all_hex-append s t b ht) refl

all_hex-reverse : (s : List ℕ) → all_hex s ≡ true → all_hex (reverse s) ≡ true
unfolding all_hex
all_hex-reverse [] h = refl
all_hex-reverse (c ∷ s) h =
    let (a, b) = &&-parts (is_hex_char c) (all_hex s) h in
    rw (reverse-cons c s) (all_hex-append (reverse s) (c ∷ []) (all_hex-reverse s b) (rw a refl))

pub trim-hex : (s : List ℕ) {b : List ℕ} → hex_to_bytes s ≡ ok b → trim s ≡ s
unfolding trim hex_to_bytes
trim-hex s {b} h =
    let hex : all_hex s ≡ true = ground arith in
    rw (trim_start-hex s hex, trim_start-hex (reverse s) (all_hex-reverse s hex))
      (reverse-reverse s)

pub as_inconsistent-eq-ok {ℓ} :
    {A : Type ℓ} (message : String) (r : Result A) {a : A}
    → as_inconsistent message r ≡ ok a
    → r ≡ ok a
unfolding as_inconsistent
as_inconsistent-eq-ok message (ok a) h = h
as_inconsistent-eq-ok message (err e) h = absurd cc

relabelled {ℓ} :
    {A : Type ℓ} (message : String) (r : Result A) {a : A} → r ≡ ok a → relabel message r ≡ ok a
relabelled message r h = rw h refl

pub parse_hop_tx-trim :
    (sha256 : List ℕ → List ℕ) (hex : List ℕ) {tx : ParsedTx}
    → parse_hex_tx sha256 hex ≡ ok tx
    → check_tx_not_ambiguous tx ≡ ok tt
    → parse_hop_tx sha256 (trim hex) ≡ ok tx
unfolding parse_hop_tx parse_hex_tx check_tx_not_ambiguous
parse_hop_tx-trim sha256 hex {tx} h clear =
    let (raw, e, parsed) = >>=-eq-ok (hex_to_bytes (trim hex)) _ h in
    let long =
      require-eq-ok (not (length tx.stripped_raw == 64))
        (hop_consistency "64-byte stripped serialization") clear in
    rw (trim-hex (trim hex) e, e, parsed, long) refl

-- What the checks of a hop's answers leave for the verifier to ask.
pub record Checked (sha256 : List ℕ → List ℕ) (tx : ParsedTx) (hash : List ℕ) (proof : MerkleProof)
    (hex : List ℕ) (count : ℕ) (limit : PowLimit) : Type 0 where
  pub header : BlockHeader
  pub parsed : parse_header_hex sha256 (trim hex) ≡ ok header
  pub named : bytes_equal header.hash (to_lower_case hash) ≡ true
  pub floor : check_pow_limit header limit ≡ ok tt
  pub works : check_proof_of_work header ≡ ok true
  pub counted : leb 1 count ≡ true
  pub included : anchor_tx sha256 header count tx proof.merkle proof.pos ≡ ok tt

branch_depth :
    (sha256 : List ℕ → List ℕ) (leaf : List ℕ) (branch : List (List ℕ)) (pos count : ℕ)
    {root : List ℕ}
    → verify_merkle_branch sha256 leaf branch pos (some count) ≡ ok root
    → (expected : ℕ) × (tree_height count ≡ ok expected) × ((length branch == expected) ≡ true)
unfolding verify_merkle_branch check_count
branch_depth sha256 leaf branch pos count h =
    let (_, checks, _) = >>=-eq-ok (check_count (length branch) pos (some count)) _ h in
    let (_, deep) = >>-eq-ok (ltb pos count) _ _ checks in
    let (expected, tall, same) = >>=-eq-ok (tree_height count) _ deep in
    (expected, tall, require-eq-ok (length branch == expected) _ same)

anchor_tx-folds :
    (sha256 : List ℕ → List ℕ) (header : BlockHeader) (tx : ParsedTx)
    (merkle branch : List (List ℕ)) (pos count : ℕ) {root : List ℕ}
    → map_result display_to_internal merkle ≡ ok branch
    → verify_merkle_branch sha256 tx.txid_le branch pos (some count) ≡ ok root
    → bytes_equal root header.merkle_root_le ≡ true
    → anchor_tx sha256 header count tx merkle pos ≡ ok tt
unfolding anchor_tx
anchor_tx-folds sha256 header tx merkle branch pos count read folds same =
    let (expected, tall, depth) = branch_depth sha256 tx.txid_le branch pos count folds in
    rw (read, tall, depth, folds, same) refl

check_hop_answers-Checked :
    (sha256 : List ℕ → List ℕ) (tx : ParsedTx) (hash : List ℕ) (height : ℕ) (proof : MerkleProof)
    (hex : List ℕ) (info : BlockInfoAnswer) (limit : PowLimit)
    → check_hop_answers sha256 tx hash height proof hex info limit ≡ ok tt
    → Checked sha256 tx hash proof hex info.tx_count limit
unfolding check_hop_answers
check_hop_answers-Checked sha256 tx hash height proof hex info limit h =
    let (header, parsed, h1) =
      >>=-eq-ok (as_inconsistent "header does not parse" (parse_header_hex sha256 (trim hex))) _
        h in
    let (named, h2) = >>-eq-ok (bytes_equal header.hash (to_lower_case hash)) _ _ h1 in
    let (_, floor, h3) =
      >>=-eq-ok
        (as_inconsistent "header is below the proof-of-work floor" (check_pow_limit header limit)) _
        h2 in
    let (enough, works, h4) = >>=-eq-ok (check_proof_of_work header) _ h3 in
    let (is_enough, h5) = >>-eq-ok enough _ _ h4 in
    let (counted, h6) = >>-eq-ok (leb 1 info.tx_count) _ _ h5 in
    let (_, h7) = >>-eq-ok (proof.block_height == height) _ _ h6 in
    let (_, h8) =
      >>-eq-ok (agrees (λ id. bytes_equal (to_lower_case id) (to_lower_case hash)) info.id) _ _
        h7 in
    let (_, h9) = >>-eq-ok (agrees (λ height'. height' == height) info.height) _ _ h8 in
    let (_, _, h10) = >>=-eq-ok (check_merkle_root sha256 info.merkle_root header) _ h9 in
    let (root, folded, h11) =
      >>=-eq-ok
        (as_inconsistent "merkle proof does not fold" (do
          branch ← map_result display_to_internal proof.merkle
          verify_merkle_branch sha256 tx.txid_le branch proof.pos (some info.tx_count)))
        _ h10 in
    let (branch, read, folds) =
      >>=-eq-ok (map_result display_to_internal proof.merkle) _
        (as_inconsistent-eq-ok _ _ folded) in
    record {
      header = header;
      parsed = as_inconsistent-eq-ok _ _ parsed;
      named = named;
      floor = as_inconsistent-eq-ok _ _ floor;
      works = works ∙ ap ok is_enough;
      counted = counted;
      included =
          anchor_tx-folds sha256 header tx proof.merkle branch proof.pos info.tx_count read folds
            (require-eq-ok _ _ h11);
    }

-- What the backend answers for the first `n` inputs, in their order, without the space around it.
abbrev pub Fetched : AnchorBackend → ℕ → ℕ → List TxInput → List (List ℕ) → Type 0
Fetched backend h zero inputs prevs = prevs ≡ []
Fetched backend h (suc n) [] prevs = ⊥
Fetched backend h (suc n) (i ∷ inputs) prevs =
    (hex : List ℕ) × (rest : List (List ℕ)) × (backend.get_tx_hex h i.prev_txid ≡ ok hex)
    × (prevs ≡ trim hex ∷ rest)
    × Fetched backend h n inputs rest

fetch_prev_txs-Fetched :
    (sha256 : List ℕ → List ℕ) (backend : AnchorBackend) (h n : ℕ) (inputs : List TxInput)
    {prevs : List (List ℕ)}
    → fetch_prev_txs sha256 backend h n inputs ≡ ok prevs
    → Fetched backend h n inputs prevs
unfolding fetch_prev_txs
fetch_prev_txs-Fetched sha256 backend h zero inputs e = sym (ok-injective e)
fetch_prev_txs-Fetched sha256 backend h (suc n) [] e = cc
fetch_prev_txs-Fetched sha256 backend h (suc n) (i ∷ inputs) e =
    let (hex, answered, e1) = >>=-eq-ok (backend.get_tx_hex h i.prev_txid) _ e in
    let (rest, fetched, e2) = >>=-eq-ok (fetch_prev_txs sha256 backend h n inputs) _ e1 in
    (
      hex,
      rest,
      answered,
      sym (ok-injective e2),
      fetch_prev_txs-Fetched sha256 backend h n inputs fetched,
    )

fetch_prev_txs-length :
    (sha256 : List ℕ → List ℕ) (backend : AnchorBackend) (h n : ℕ) (inputs : List TxInput)
    {prevs : List (List ℕ)}
    → fetch_prev_txs sha256 backend h n inputs ≡ ok prevs
    → (length prevs ≡ n) × (n ≤ length inputs)
unfolding fetch_prev_txs
fetch_prev_txs-length sha256 backend h zero inputs e =
    (ap length (sym (ok-injective e)), omega arith)
fetch_prev_txs-length sha256 backend h (suc n) [] e = absurd cc
fetch_prev_txs-length sha256 backend h (suc n) (i ∷ inputs) e =
    let (hex, _, e1) = >>=-eq-ok (backend.get_tx_hex h i.prev_txid) _ e in
    let (rest, fetched, e2) = >>=-eq-ok (fetch_prev_txs sha256 backend h n inputs) _ e1 in
    let (size, fits) = fetch_prev_txs-length sha256 backend h n inputs fetched in
    (ap length (sym (ok-injective e2)) ∙ ap suc size, omega (arith, fits))

paired {ℓ κ} :
    {A : Type ℓ} {B : Type κ} (b : B) (test : B → Result (Unit {0}))
    → test b ≡ ok tt
    → (r : Result A)
    → ◌>>=◌ {B = B × A} (◌>>=◌ {C = B × A} r (λ a. ok (b, a))) (λ x. test x.0 >> ok x.1) ≡ r
paired b test passed (ok a) = rw passed refl
paired b test passed (err e) = refl

Checked-verify :
    (sha256 : List ℕ → List ℕ) (tx : ParsedTx) (hash : List ℕ) (height : ℕ) (proof : MerkleProof)
    (header_hex : List ℕ) (count : ℕ) (hex : List ℕ) (prevs : List (List ℕ))
    (opts : CustodyVerifyOptions)
    (c : Checked sha256 tx hash proof header_hex count opts.pow_limit_bits)
    → verify_anchored_hop sha256
        (record {
          block = record {
            height = height;
            hash = hash;
            header = trim header_hex;
            tx_count = count;
          };
          hex = hex;
          pos = proof.pos;
          txid_branch = proof.merkle;
          prev_txs = prevs;
          witness = none;
        })
        tx
        opts
      ≡ ask_trust opts.trust_header c.header height
unfolding verify_anchored_hop anchor_header
Checked-verify sha256 tx hash height proof header_hex count hex prevs opts c =
    rw (c.parsed, c.named, c.floor, c.works, c.counted)
      (paired c.header (λ header. anchor_tx sha256 header count tx proof.merkle proof.pos)
        c.included (ask_trust opts.trust_header c.header height))

enough_inputs :
    (tx : ParsedTx) (prevs : List (List ℕ))
    → length prevs ≤ length tx.inputs
    → check_prev_tx_count tx prevs ≡ ok tt
unfolding check_prev_tx_count
enough_inputs tx prevs le =
    let fits : leb (length prevs) (length tx.inputs) ≡ true = ground arith in rw fits refl

-- A hop that was assembled from a backend's answers passes every test of `verifyAnchoredHop`, which is
-- left with the caller's question about its header; it carries the transaction, no witness section, and
-- what the backend answers for the previous transaction of each input up to the one asked for, in the
-- order of the inputs.
pub assemble_anchored_hop-verify :
    (sha256 : List ℕ → List ℕ) (backend : AnchorBackend) (h : ℕ) (tx : ParsedTx) (hex : List ℕ)
    (upto : ℕ) (opts : CustodyVerifyOptions) {hop : CustodyHop}
    → assemble_anchored_hop sha256 backend h tx hex upto opts.pow_limit_bits ≡ ok hop
    → (header : BlockHeader) × (parse_header_hex sha256 hop.block.header ≡ ok header)
      × (verify_anchored_hop sha256 hop tx opts
          ≡ ask_trust opts.trust_header header hop.block.height)
      × (hop.hex ≡ trim hex)
      × (hop.witness ≡ none)
      × (check_prev_tx_count tx hop.prev_txs ≡ ok tt)
      × (length hop.prev_txs ≡ upto + 1)
      × Fetched backend h (upto + 1) tx.inputs hop.prev_txs
unfolding assemble_anchored_hop
assemble_anchored_hop-verify sha256 backend h tx hex upto opts {hop} e =
    let (status, _, e1) = >>=-eq-ok (backend.get_tx_status h tx.txid) _ e in
    let (_, e2) = >>-eq-ok status.confirmed _ _ e1 in
    let (hash, _, e3) = >>=-eq-ok (or_throw (non_empty status.block_hash) "not confirmed") _ e2 in
    let (height, _, e4) = >>=-eq-ok (or_throw status.block_height "not confirmed") _ e3 in
    let (proof, _, e5) = >>=-eq-ok (backend.get_merkle_proof h tx.txid) _ e4 in
    let (header_hex, _, e6) = >>=-eq-ok (backend.get_header_hex h hash) _ e5 in
    let (info, _, e7) = >>=-eq-ok (backend.get_block_info h hash) _ e6 in
    let (_, checked, e8) =
      >>=-eq-ok (check_hop_answers sha256 tx hash height proof header_hex info opts.pow_limit_bits)
        _ e7 in
    let (prevs, fetched, e9) =
      >>=-eq-ok (fetch_prev_txs sha256 backend h (upto + 1) tx.inputs) _ e8 in
    let (size, fits) = fetch_prev_txs-length sha256 backend h (upto + 1) tx.inputs fetched in
    let c =
      check_hop_answers-Checked sha256 tx hash height proof header_hex info opts.pow_limit_bits
        checked in
    subst
      (λ (k : CustodyHop).
        (header : BlockHeader) × (parse_header_hex sha256 k.block.header ≡ ok header)
        × (verify_anchored_hop sha256 k tx opts ≡ ask_trust opts.trust_header header k.block.height)
        × (k.hex ≡ trim hex)
        × (k.witness ≡ none)
        × (check_prev_tx_count tx k.prev_txs ≡ ok tt)
        × (length k.prev_txs ≡ upto + 1)
        × Fetched backend h (upto + 1) tx.inputs k.prev_txs)
      (ok-injective e9)
      (
        c.header,
        c.parsed,
        Checked-verify sha256 tx hash height proof header_hex info.tx_count (trim hex) prevs opts c,
        refl,
        refl,
        enough_inputs tx prevs (subst (λ n. n ≤ length tx.inputs) (sym size) fits),
        size,
        fetch_prev_txs-Fetched sha256 backend h (upto + 1) tx.inputs fetched,
      )
