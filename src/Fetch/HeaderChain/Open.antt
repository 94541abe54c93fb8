-- ===== src/Fetch/HeaderChain/Open.antt =====
-- `open` of packages/fetch/src/headersync.ts: a chain that comes off the disk.
use ordspv.Common.{
  ℕ, ◌+◌, ◌/◌, ◌%◌, ◌≡◌, refl, ap, sym, subst, ◌∙◌, inl, inr, Bool, true, false, not, Bool-cases,
  List, [], ◌∷◌, append-nil, ◌++◌, Option, none, some, ok, failure, >>=-eq-ok, >>-eq-ok,
  ok-injective, or_throw, ltb, ◌==◌, if◌then◌else◌, length, take, drop, arith,
}
use ordspv.Bytes.Hex.{bytes_equal, bytes_equal_iff, hex_to_bytes}
use ordspv.Header.Parse.{BlockHeader, parse_header, check_proof_of_work}
use ordspv.Header.Target.{work_from_bits}
use ordspv.Fetch.HeaderChain.{
  ChainConfig, HeaderChain, last_of, work_of, check_checkpoint, max_future_drift_seconds, stage,
  persist_all, append_batch, new_chain, load, open_chain,
}
use ordspv.Fetch.HeaderChain.Staged.{IsParseOf, stage-IsParseOf}
use ordspv.Fetch.HeaderChain.Valid.{
  Built, base, work_of-append, stage-Built, persist_staged-headers,
}

-- The headers passed all tests, and their work is counted.
abbrev pub IsChecked : ChainConfig → HeaderChain → Type 0
IsChecked config chain = Built config chain.headers × (work_of chain.headers ≡ ok chain.work)

-- Where a chain that opens has its headers from. Without a file, or when there is none yet, it is the
-- base alone; a file starts with a header that has the base's hash, and the headers behind it in the
-- chain are those that the rest of its bytes hold.
abbrev pub Loaded :
    (List ℕ → List ℕ) → Bool → Option (List ℕ) → BlockHeader → List BlockHeader → Type 0
Loaded sha256 false file b rest = rest ≡ []
Loaded sha256 true none b rest = rest ≡ []
Loaded sha256 true (some raw) b rest =
    (on_disk : BlockHeader) × (parse_header sha256 (take 80 raw) ≡ ok on_disk)
    × (on_disk.hash ≡ b.hash)
    × IsParseOf sha256 rest (drop 80 raw)

new_chain-IsChecked :
    (config : ChainConfig) (sha256 : List ℕ → List ℕ) (hex disk : List ℕ) {chain : HeaderChain}
    → new_chain config sha256 hex disk ≡ ok chain
    → IsChecked config chain
      × (raw : List ℕ) × (b : BlockHeader) × (hex_to_bytes hex ≡ ok raw)
      × (parse_header sha256 raw ≡ ok b)
      × (chain.headers ≡ b ∷ [])
unfolding new_chain work_of
new_chain-IsChecked config sha256 hex disk h =
    let (_, h1) = >>-eq-ok (config.base_height % config.params.retarget_interval == 0) _ _ h in
    let (raw, read, h2) = >>=-eq-ok (hex_to_bytes hex) _ h1 in
    let (b, parsed, h3) = >>=-eq-ok (parse_header sha256 raw) _ h2 in
    let (enough, pow, h4) = >>=-eq-ok (check_proof_of_work b) _ h3 in
    let (yes', h5) = >>-eq-ok enough (failure "base header fails its own PoW") _ h4 in
    let (_, at, h6) = >>=-eq-ok (check_checkpoint config config.base_height b.hash) _ h5 in
    let (w, is_w, h7) = >>=-eq-ok (work_from_bits b.bits) _ h6 in
    (
      subst (IsChecked config) (ok-injective h7)
          (base b refl (pow ∙ ap ok yes') at, rw is_w (ap ok (omega arith))),
      raw,
      b,
      read,
      parsed,
      ap (λ (c : HeaderChain). c.headers) (sym (ok-injective h7)),
    )

persist_all-headers :
    (config : ChainConfig) (chain : HeaderChain)
    → ((persist_all config chain).headers ≡ chain.headers)
      × ((persist_all config chain).work ≡ chain.work)
unfolding persist_all
persist_all-headers config chain = ground arith

append_batch-IsChecked :
    (config : ChainConfig) (sha256 : List ℕ → List ℕ) (now : ℕ) (persist : Bool) (raw : List ℕ)
    (chain : HeaderChain) {after : HeaderChain}
    → append_batch config sha256 now persist raw chain ≡ ok after
    → IsChecked config chain
    → IsChecked config after
      × (staged : List BlockHeader) × (after.headers ≡ chain.headers ++ staged)
      × IsParseOf sha256 staged raw
unfolding append_batch
append_batch-IsChecked config sha256 now persist raw chain h (built, counted) =
    let (whole, h1) = >>-eq-ok (length raw % 80 == 0) _ _ h in
    let ((staged, w), looped, h2) =
      >>=-eq-ok
        (stage config sha256 (now + max_future_drift_seconds) (length raw / 80) 0 raw chain.headers
          [] 0)
        _ h1 in
    let start = subst (Built config) (sym (append-nil chain.headers)) built in
    let nothing : work_of [] ≡ ok 0 = unfold work_of in refl in
    let (more, sum, _) =
      stage-Built config sha256 _ (length raw / 80) 0 raw chain.headers [] 0 looped start nothing in
    let grown : HeaderChain = record chain {
      headers = chain.headers ++ staged;
      work = chain.work + w;
    } in
    let (same_headers, same_work) = persist_staged-headers config persist staged grown in
    subst
      (λ (a : HeaderChain).
        IsChecked config a
        × (s : List BlockHeader) × (a.headers ≡ chain.headers ++ s)
        × IsParseOf sha256 s raw)
      (ok-injective h2)
      (
        (
          rw same_headers more,
          rw (same_headers, same_work) (work_of-append chain.headers staged counted sum),
        ),
        staged,
        same_headers,
        stage-IsParseOf config sha256 (now + max_future_drift_seconds) raw chain.headers whole
            looped,
      )

-- What a chain that is loaded holds, from the base that it was made of.
abbrev Opens :
    ChainConfig → (List ℕ → List ℕ) → Bool → Option (List ℕ) → BlockHeader → HeaderChain → Type 0
Opens config sha256 has_file file b chain =
    IsChecked config chain
    × (rest : List BlockHeader) × (chain.headers ≡ b ∷ rest)
    × Loaded sha256 has_file file b rest

load-Opens :
    (config : ChainConfig) (sha256 : List ℕ → List ℕ) (now : ℕ) (file : Option (List ℕ))
    (b : BlockHeader) (chain : HeaderChain) {after : HeaderChain}
    → load config sha256 now chain file ≡ ok after
    → chain.headers ≡ b ∷ []
    → IsChecked config chain
    → Opens config sha256 true file b after
unfolding load
load-Opens config sha256 now none b chain h alone c =
    let (same_headers, same_work) = persist_all-headers config chain in
    subst (Opens config sha256 true none b) (ok-injective h)
      (rw (same_headers, same_work) c, [], same_headers ∙ alone, refl)
load-Opens config sha256 now (some raw) b chain h alone c =
    let (_, h1) = >>-eq-ok (length raw % 80 == 0) _ _ h in
    let (_, h2) = >>-eq-ok (not (ltb (length raw) 80)) _ _ h1 in
    let (on_disk, parsed, h3) = >>=-eq-ok (parse_header sha256 (take 80 raw)) _ h2 in
    let (last, found, h4) = >>=-eq-ok (or_throw (last_of chain.headers) "undefined") _ h3 in
    let (same, h5) =
      >>-eq-ok (bytes_equal on_disk.hash last.hash)
        (failure "base header does not match configured base") _ h4 in
    let (loaded, e, h6) =
      >>=-eq-ok (append_batch config sha256 now false (drop 80 raw) chain) _ h5 in
    let is_base : b ≡ last = ok-injective (rw alone at found) in
    let (checked, staged, grown, held) =
      append_batch-IsChecked config sha256 now false (drop 80 raw) chain e c in
    subst (Opens config sha256 true (some raw) b) (ok-injective h6) (
      checked,
      staged,
      grown ∙ ap (λ (l : List BlockHeader). l ++ staged) alone,
      (
        on_disk,
        parsed,
        (bytes_equal_iff _ _).0 same ∙ ap (λ (t : BlockHeader). t.hash) (sym is_base),
        held,
      ),
    )

-- A chain that opens starts with the configured base, whose proof of work and checkpoint were tested,
-- and every header was accepted after those before it, and its work is counted. A file that was
-- tampered with cannot load: if a file is there, its first header has the base's hash, and the headers
-- behind the base are those that the rest of its bytes hold; without one, there are none.
pub open_chain-IsChecked :
    (config : ChainConfig) (sha256 : List ℕ → List ℕ) (now : ℕ) (hex : List ℕ)
    (file : Option (List ℕ)) {chain : HeaderChain}
    → open_chain config sha256 now hex file ≡ ok chain
    → (raw : List ℕ) × (b : BlockHeader) × (rest : List BlockHeader) × (hex_to_bytes hex ≡ ok raw)
      × (parse_header sha256 raw ≡ ok b)
      × (chain.headers ≡ b ∷ rest)
      × IsChecked config chain
      × Loaded sha256 config.has_file file b rest
unfolding open_chain
open_chain-IsChecked config sha256 now hex file {chain} h =
    let (new, e, h1) =
      >>=-eq-ok (new_chain config sha256 hex (elim file [ none ↦ [] | some raw ↦ raw ])) _ h in
    let (checked, raw, b, read, parsed, alone) = new_chain-IsChecked config sha256 hex _ e in
    let opens : Opens config sha256 config.has_file file b chain =
      elim (Bool-cases config.has_file) [
        | inl file_given ↦
            let loaded =
              load-Opens config sha256 now file b new
                (subst
                  (λ (b : Bool). (if b then load config sha256 now new file else ok new) ≡ ok chain)
                  file_given h1)
                alone checked in
            subst (λ (given : Bool). Opens config sha256 given file b chain) (sym file_given) loaded
        | inr no_file ↦
            let same : new ≡ chain = ok-injective (
              subst
                (λ (b : Bool). (if b then load config sha256 now new file else ok new) ≡ ok chain)
                no_file h1) in
            subst (λ (given : Bool). Opens config sha256 given file b chain) (sym no_file)
              (subst (Opens config sha256 false file b) same (checked, [], alone, refl))
      ] in
    let (ok', rest, split, loads) = opens in (raw, b, rest, read, parsed, split, ok', loads)
