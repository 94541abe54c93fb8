-- ===== src/Fetch/HeaderChain/Staged.antt =====
-- The headers that the loop of `appendBatch` of packages/fetch/src/headersync.ts reads off a batch.
use ordspv.Common.{
  ℕ, zero, suc, ◌+◌, ◌*◌, ◌/◌, ◌%◌, ◌≤◌, ◌≡◌, refl, ap, sym, subst, ◌∙◌, true, List, [], ◌∷◌, ◌++◌,
  append-nil, append_assoc, failure, ok, >>=-eq-ok, >>-eq-ok, ok-injective, ◌==◌, ==_iff, length,
  take, drop, drop-add, All, arith,
}
use ordspv.Bytes.Hex.{concat_bytes}
use ordspv.Bytes.Reader.{
  Reader, reader, Read, pure, ◌>>=◌, slice, read_bytes, read_u32le, read_i32le,
}
use ordspv.Header.Parse.{BlockHeader, read_header, parse_header}
use ordspv.Header.Target.{work_from_bits}
use ordspv.Tx.Hash.{sha256d}
use ordspv.Fetch.HeaderChain.{ChainConfig, raw_headers, check_next, stage}
use ordspv.Fetch.HeaderChain.Valid.{raw_headers-append}

-- The headers that bytes hold, one after the other: each is what its own bytes parse to.
pub record IsParseOf (sha256 : List ℕ → List ℕ) (headers : List BlockHeader) (raw : List ℕ)
    : Type 0 where
  pub parsed : All (λ (h : BlockHeader). parse_header sha256 h.raw ≡ ok h) headers
  pub bytes_are : raw_headers headers ≡ raw

-- Every value that a read answers has a property.
abbrev Returns {ℓ κ} : {A : Type ℓ} → (A → Type κ) → Read A → Type (ℓ ⊔ κ)
Returns {A = A} P m = (r : Reader) (a : A) (r' : Reader) → m r ≡ ok (a, r') → P a

Returns-pure {ℓ κ} : {A : Type ℓ} (P : A → Type κ) (a : A) → P a → Returns P (pure a)
Returns-pure {A = A} P a p r a' r' h = subst P (ap (λ (x : A × Reader). x.0) (ok-injective h)) p

Returns-bind {ℓ κ ι} :
    {A : Type ℓ} {B : Type κ} (P : B → Type ι) (m : Read A) (k : A → Read B)
    → ((a : A) → Returns P (k a))
    → Returns P (m >>= k)
Returns-bind P m k f r b r' h = let (x, _, h1) = >>=-eq-ok (m r) _ h in f x.0 x.1 b r' h1

read_header-raw :
    (raw hash : List ℕ) → Returns (λ (h : BlockHeader). h.raw ≡ raw) (read_header raw hash)
unfolding read_header
read_header-raw raw hash = Returns-bind _ read_i32le _ λ version.
    Returns-bind _ (read_bytes 32) _ λ prev. Returns-bind _ (read_bytes 32) _ λ root.
      Returns-bind _ read_u32le _ λ time.
        Returns-bind _ read_u32le _
          λ bits. Returns-bind _ read_u32le _ λ nonce. Returns-pure _ _ refl

parse_header-raw :
    (sha256 : List ℕ → List ℕ) (raw : List ℕ) {h : BlockHeader}
    → parse_header sha256 raw ≡ ok h
    → h.raw ≡ raw
unfolding parse_header
parse_header-raw sha256 raw {h} e =
    let (_, e1) = >>-eq-ok (length raw == 80) (failure "block header must be 80 bytes") _ e in
    let (x, read, e2) = >>=-eq-ok (read_header raw (sha256d sha256 raw) (reader raw 0)) _ e1 in
    let kept = read_header-raw raw (sha256d sha256 raw) (reader raw 0) x.0 x.1 read in
    ap (λ (t : BlockHeader). t.raw) (sym (ok-injective e2)) ∙ kept

-- The first `m + n` elements are the first `m` and the `n` behind them.
take_add : (m n : ℕ) (xs : List ℕ) → take (m + n) xs ≡ take m xs ++ take n (drop m xs)
take_add zero n xs = let e : 0 + n ≡ n = omega arith in rw e
take_add (suc m) n [] = let e : suc m + n ≡ suc (m + n) = omega arith in rw e (sym (take_nil n))
  where
    take_nil : (k : ℕ) → take {A = ℕ} k [] ≡ []
    take_nil zero = refl
    take_nil (suc k) = refl
take_add (suc m) n (x ∷ xs) =
    let e : suc m + n ≡ suc (m + n) = omega arith in rw e (ap (◌∷◌ x) (take_add m n xs))

take_all : (n : ℕ) (xs : List ℕ) → length xs ≤ n → take n xs ≡ xs
take_all zero [] h = refl
take_all zero (x ∷ xs) h = absurd (omega arith)
take_all (suc n) [] h = refl
take_all (suc n) (x ∷ xs) h = ap (◌∷◌ x) (take_all n xs (omega arith))

All-snoc {ℓ κ} :
    {A : Type ℓ} (P : A → Type κ) (xs : List A) (x : A) → All P xs → P x → All P (xs ++ (x ∷ []))
All-snoc P [] x h p = (p, tt)
All-snoc P (y ∷ xs) x (q, h) p = (q, All-snoc P xs x h p)

module _ (config : ChainConfig) (sha256 : List ℕ → List ℕ) where
  abbrev Parses : BlockHeader → Type 0
  Parses h = parse_header sha256 h.raw ≡ ok h

  stage-bytes :
      (max_time n i : ℕ) (raw : List ℕ) (headers staged : List BlockHeader) (sum : ℕ)
      {out : List BlockHeader} {w : ℕ}
      → stage config sha256 max_time n i raw headers staged sum ≡ ok (out, w)
      → All Parses staged
      → All Parses out × (raw_headers out ≡ raw_headers staged ++ take (n * 80) (drop (i * 80) raw))
  unfolding stage
  stage-bytes max_time zero i raw headers staged sum {out} {w} e p =
      let same = ap (λ (x : List BlockHeader × ℕ). x.0) (ok-injective e) in
      (subst (All Parses) same p, ap raw_headers (sym same) ∙ sym (append-nil (raw_headers staged)))
  stage-bytes max_time (suc n) i raw headers staged sum {out} {w} e p =
      let here = slice raw (i * 80) 80 in
      let (h, read, e1) = >>=-eq-ok (parse_header sha256 here) _ e in
      let (_, _, e2) = >>=-eq-ok (check_next config max_time (i == 0) (headers ++ staged) h) _ e1 in
      let (v, _, e3) = >>=-eq-ok (work_from_bits h.bits) _ e2 in
      let own : h.raw ≡ here = parse_header-raw sha256 here read in
      let ps =
        All-snoc Parses staged h p
          (subst (λ (b : List ℕ). parse_header sha256 b ≡ ok h) (sym own) read) in
      let (all, held) =
        stage-bytes max_time n (i + 1) raw headers (staged ++ (h ∷ [])) (sum + v) e3 ps in
      (all, held ∙ next_bytes n i raw staged h own)
    where
      next_bytes :
          (n i : ℕ) (raw : List ℕ) (staged : List BlockHeader) (h : BlockHeader)
          → h.raw ≡ slice raw (i * 80) 80
          → raw_headers (staged ++ (h ∷ [])) ++ take (n * 80) (drop ((i + 1) * 80) raw)
            ≡ raw_headers staged ++ take (suc n * 80) (drop (i * 80) raw)
      next_bytes n i raw staged h own =
          let further : (i + 1) * 80 ≡ i * 80 + 80 = omega arith in
          let longer : suc n * 80 ≡ 80 + n * 80 = omega arith in
          let one : raw_headers (h ∷ []) ≡ h.raw =
            unfold raw_headers concat_bytes in append-nil h.raw in
          rw
            (
              further,
              longer,
              drop-add (i * 80) 80 raw,
              take_add 80 (n * 80) (drop (i * 80) raw),
              raw_headers-append staged (h ∷ []),
              one,
              own,
            )
            (append_assoc (raw_headers staged) (slice raw (i * 80) 80)
              (take (n * 80) (drop 80 (drop (i * 80) raw))))

  -- What a whole batch stages are the headers that its bytes hold.
  pub stage-IsParseOf :
      (max_time : ℕ) (raw : List ℕ) (headers : List BlockHeader) {out : List BlockHeader} {w : ℕ}
      → (length raw % 80 == 0) ≡ true
      → stage config sha256 max_time (length raw / 80) 0 raw headers [] 0 ≡ ok (out, w)
      → IsParseOf sha256 out raw
  stage-IsParseOf max_time raw headers whole e =
      let (all, held) = stage-bytes max_time (length raw / 80) 0 raw headers [] 0 e tt in
      let even : length raw % 80 ≡ 0 = (==_iff _ _).0 whole in
      let nothing : raw_headers [] ≡ [] = unfold raw_headers concat_bytes in refl in
      record {
        parsed = all;
        bytes_are =
            held
            ∙ ap (λ (b : List ℕ). b ++ take (length raw / 80 * 80) raw) nothing
            ∙ take_all (length raw / 80 * 80) raw (omega (arith, even));
      }
