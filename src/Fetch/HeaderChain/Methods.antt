-- ===== src/Fetch/HeaderChain/Methods.antt =====
-- The methods of `HeaderChain` of packages/fetch/src/headersync.ts keep its invariant.
use ordspv.Common.{
  ℕ, ◌+◌, ◌-◌, ◌/◌, ◌%◌, ◌≤◌, ◌≡◌, refl, ap, sym, subst, ◌∙◌, inl, inr, Bool, true, false, not,
  ◌&&◌, Bool-cases, List, [], ◌++◌, append-nil, ok, >>=-eq-ok, >>-eq-ok, ok-injective, ltb, leb,
  ◌==◌, if◌then◌else◌, length, take, drop, take-append-drop, arith,
}
use ordspv.Header.Parse.{BlockHeader}
use ordspv.Fetch.HeaderChain.{
  ChainConfig, HeaderChain, max_future_drift_seconds, raw_headers, work_of, persist_all,
  rewrite_file, mark_dirty, truncate_to, flush, stage, append_batch,
}
use ordspv.Fetch.HeaderChain.Staged.{IsParseOf, stage-IsParseOf}
use ordspv.Fetch.HeaderChain.Valid.{
  Built, IsValid, work_of-append, work_of-split, stage-Built, persist_staged-headers,
  persist_staged-saved, persist_staged-written, persist_staged-disk, Built-take,
}

module _ (config : ChainConfig) (chain : HeaderChain) (built : Built config chain.headers)
    (counted : work_of chain.headers ≡ ok chain.work) where
  abbrev rewritten : Bool → HeaderChain
  rewritten b = record (if b then record chain { disk = raw_headers chain.headers } else chain) {
    dirty = false;
  }

  abbrev marked : Bool → HeaderChain
  marked b = if b then record chain { dirty = true } else chain

  no_file : config.has_file ≡ false → config.has_file ≡ true → ⊥
  no_file gone file = let e : true ≡ false = sym file ∙ gone in cc

  rewrite_file-IsValid : IsValid config (rewrite_file config chain)
  unfolding rewrite_file persist_all
  rewrite_file-IsValid = elim (Bool-cases config.has_file) [
    | inl file ↦
        subst (λ (b : Bool). IsValid config (rewritten b)) (sym file)
          (record { built = built; counted = counted; saved = λ f d. refl })
    | inr gone ↦
        subst (λ (b : Bool). IsValid config (rewritten b)) (sym gone)
          (record { built = built; counted = counted; saved = λ f d. absurd (no_file gone f) })
  ]

  mark_dirty-IsValid : IsValid config (mark_dirty config chain)
  unfolding mark_dirty
  mark_dirty-IsValid = elim (Bool-cases config.has_file) [
    | inl file ↦
        subst (λ (b : Bool). IsValid config (marked b)) (sym file)
          (record {
            built = built;
            counted = counted;
            saved = λ f d. absurd (let e : true ≡ false = d in cc);
          })
    | inr gone ↦
        subst (λ (b : Bool). IsValid config (marked b)) (sym gone)
          (record { built = built; counted = counted; saved = λ f d. absurd (no_file gone f) })
  ]

pub flush-IsValid :
    (config : ChainConfig) (chain : HeaderChain)
    → IsValid config chain
    → IsValid config (flush config chain)
unfolding flush
flush-IsValid config chain v = elim (Bool-cases chain.dirty) [
  | inl stale ↦
      subst (λ (b : Bool). IsValid config (if b then rewrite_file config chain else chain))
        (sym stale) (rewrite_file-IsValid config chain v.built v.counted)
  | inr clean ↦
      subst (λ (b : Bool). IsValid config (if b then rewrite_file config chain else chain))
        (sym clean) v
]

-- Headers above a height are dropped with their work, and the base stays.
pub truncate_to-IsValid :
    (config : ChainConfig) (persist : Bool) (height : ℕ) (chain : HeaderChain) {after : HeaderChain}
    → truncate_to config persist height chain ≡ ok after
    → IsValid config chain
    → IsValid config after
unfolding truncate_to
truncate_to-IsValid config persist height chain h v =
    let keep = height - config.base_height + 1 in
    let (_, h1) = >>-eq-ok (not (ltb height config.base_height)) _ _ h in
    let (dropped, is_dropped, h2) = >>=-eq-ok (work_of (drop keep chain.headers)) _ h1 in
    let whole : work_of (take keep chain.headers ++ drop keep chain.headers) ≡ ok chain.work =
      subst (λ (l : List BlockHeader). work_of l ≡ ok chain.work)
        (sym (take-append-drop keep chain.headers)) v.counted in
    let (u, w, kept, rest, adds) =
      work_of-split (take keep chain.headers) (drop keep chain.headers) whole in
    let left : u ≡ chain.work - dropped =
      omega (arith, ok-injective (sym is_dropped ∙ rest), adds) in
    let cut : HeaderChain = record chain {
      headers = take keep chain.headers;
      work = chain.work - dropped;
    } in
    let built = Built-take config keep chain.headers (omega arith) v.built in
    let counted = kept ∙ ap ok left in
    subst (IsValid config) (ok-injective h2) (elim (Bool-cases (leb (length chain.headers) keep)) [
      | inl all ↦ rw all v
      | inr more ↦ rw more (elim (Bool-cases persist) [
        | inl written ↦ rw written (rewrite_file-IsValid config cut built counted)
        | inr held ↦ rw held (mark_dirty-IsValid config cut built counted)
      ])
    ])

module _ (config : ChainConfig) (sha256 : List ℕ → List ℕ) where
  -- A batch that is appended brings in the headers that its bytes hold, each what its 80 bytes parse to,
  -- in their order and behind those before it, which stay. Each of them is accepted after the others,
  -- and their work is counted. If the batch is to be written, a file is there and the batch is not
  -- empty, the file holds the bytes of all headers afterwards; else it is as it was.
  pub append_batch-IsValid :
      (now : ℕ) (persist : Bool) (raw : List ℕ) (chain : HeaderChain) {after : HeaderChain}
      → append_batch config sha256 now persist raw chain ≡ ok after
      → IsValid config chain
      → IsValid config after
        × (staged : List BlockHeader) × (after.headers ≡ chain.headers ++ staged)
        × IsParseOf sha256 staged raw
        × (length staged ≡ length raw / 80)
        × (chain.work ≤ after.work)
        × (after.disk ≡ (
            if persist && (config.has_file && ltb 0 (length staged))
            then raw_headers after.headers
            else chain.disk))
  unfolding append_batch
  append_batch-IsValid now persist raw chain h v =
      let (whole, h1) = >>-eq-ok (length raw % 80 == 0) _ _ h in
      let ((staged, w), looped, h2) =
        >>=-eq-ok
          (stage config sha256 (now + max_future_drift_seconds) (length raw / 80) 0 raw
            chain.headers [] 0)
          _ h1 in
      let start = subst (Built config) (sym (append-nil chain.headers)) v.built in
      let none : work_of [] ≡ ok 0 = unfold work_of in refl in
      let (built, counted, size) =
        stage-Built config sha256 _ (length raw / 80) 0 raw chain.headers [] 0 looped start none in
      let grown : HeaderChain = record chain {
        headers = chain.headers ++ staged;
        work = chain.work + w;
      } in
      let (same_headers, same_work) = persist_staged-headers config persist staged grown in
      subst
        (λ (a : HeaderChain).
          IsValid config a
          × (s : List BlockHeader) × (a.headers ≡ chain.headers ++ s)
          × IsParseOf sha256 s raw
          × (length s ≡ length raw / 80)
          × (chain.work ≤ a.work)
          × (a.disk ≡ (
              if persist && (config.has_file && ltb 0 (length s))
              then raw_headers a.headers
              else chain.disk)))
        (ok-injective h2)
        (
          record {
            built = rw same_headers built;
            counted =
                rw (same_headers, same_work)
                  (work_of-append chain.headers staged v.counted counted);
            saved = persist_staged-saved config persist chain.headers staged grown v.saved refl;
          },
          staged,
          same_headers,
          stage-IsParseOf config sha256 (now + max_future_drift_seconds) raw chain.headers whole
              looped,
          omega (arith, size),
          rw same_work (omega arith),
          rw same_headers
              (persist_staged-written config persist chain.headers staged grown v.saved refl),
        )

  -- What stays in memory leaves the file as it is.
  pub append_batch-disk :
      (now : ℕ) (raw : List ℕ) (chain : HeaderChain) {after : HeaderChain}
      → append_batch config sha256 now false raw chain ≡ ok after
      → after.disk ≡ chain.disk
  unfolding append_batch
  append_batch-disk now raw chain h =
      let (_, h1) = >>-eq-ok (length raw % 80 == 0) _ _ h in
      let ((staged, w), looped, h2) =
        >>=-eq-ok
          (stage config sha256 (now + max_future_drift_seconds) (length raw / 80) 0 raw
            chain.headers [] 0)
          _ h1 in
      let grown : HeaderChain = record chain {
        headers = chain.headers ++ staged;
        work = chain.work + w;
      } in
      ap (λ (a : HeaderChain). a.disk) (sym (ok-injective h2))
      ∙ persist_staged-disk config staged grown

pub truncate_to-disk :
    (config : ChainConfig) (height : ℕ) (chain : HeaderChain) {after : HeaderChain}
    → truncate_to config false height chain ≡ ok after
    → after.disk ≡ chain.disk
unfolding truncate_to mark_dirty
truncate_to-disk config height chain h =
    let keep = height - config.base_height + 1 in
    let (_, h1) = >>-eq-ok (not (ltb height config.base_height)) _ _ h in
    let (dropped, is_dropped, h2) = >>=-eq-ok (work_of (drop keep chain.headers)) _ h1 in
    ap (λ (a : HeaderChain). a.disk) (sym (ok-injective h2)) ∙ ground arith
