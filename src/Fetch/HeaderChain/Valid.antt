-- ===== src/Fetch/HeaderChain/Valid.antt =====
-- The invariant of `HeaderChain` of packages/fetch/src/headersync.ts, kept by each of its methods.
use ordspv.Common.{
  ◌&&◌, if◌then◌else◌, ℕ, zero, suc, ◌+◌, ◌*◌, ◌≤◌, ◌<◌, ◌≡◌, refl, ap, sym, subst, ◌∙◌, inl, inr,
  Bool, true, false, Bool-cases, List, [], ◌∷◌, ◌++◌, append-nil, append_assoc, Option, none, some,
  ok, >>=-eq-ok, >>-eq-ok, ok-injective, or_throw, ltb, lt→ltb, leb, leb→le, leb→gt, ◌==◌, ==_iff,
  length, length-append, take, arith,
}
use ordspv.Bytes.Hex.{bytes_equal, concat_bytes}
use ordspv.Bytes.Reader.{slice}
use ordspv.Header.Parse.{BlockHeader, parse_header, check_proof_of_work}
use ordspv.Header.Target.{work_from_bits}
use ordspv.Fetch.HeaderChain.{
  ChainConfig, HeaderChain, last_of, median_time_past, above_median, raw_headers, work_of,
  check_checkpoint, expected_bits, check_next, persist_all, append_to_file, persist_staged,
  rewrite_file, stage,
}

-- What the consensus rules ask of a header that comes after others, the local clock left out.
pub record Accepts (config : ChainConfig) (prev : List BlockHeader) (h : BlockHeader) : Type 0 where
  pub last : BlockHeader
  pub last_is : last_of prev ≡ some last
  pub links : bytes_equal h.prev_block last.hash ≡ true
  pub bits_are : expected_bits config (config.base_height + length prev) prev last ≡ ok h.bits
  pub works : check_proof_of_work h ≡ ok true
  pub later : above_median (median_time_past prev) h.time ≡ true
  pub checkpoint : check_checkpoint config (config.base_height + length prev) h.hash ≡ ok tt

-- Headers that were accepted one after the other, from a base at a retarget boundary.
pub data Built (config : ChainConfig) : List BlockHeader → Type 0 where
  base :
      {all : List BlockHeader} (h : BlockHeader)
      → all ≡ h ∷ []
      → check_proof_of_work h ≡ ok true
      → check_checkpoint config config.base_height h.hash ≡ ok tt
      → Built config all
  next :
      {all : List BlockHeader} (prev : List BlockHeader) (h : BlockHeader)
      → Built config prev
      → Accepts config prev h
      → all ≡ prev ++ (h ∷ [])
      → Built config all

pub record IsValid (config : ChainConfig) (chain : HeaderChain) : Type 0 where
  pub built : Built config chain.headers
  pub counted : work_of chain.headers ≡ ok chain.work
  pub saved : config.has_file ≡ true → chain.dirty ≡ false → chain.disk ≡ raw_headers chain.headers

pub work_of-append :
    (a b : List BlockHeader) {v w : ℕ}
    → work_of a ≡ ok v
    → work_of b ≡ ok w
    → work_of (a ++ b) ≡ ok (v + w)
unfolding work_of
work_of-append [] b {v} {w} ha hb = rw (← ok-injective ha) (hb ∙ ap ok (omega arith))
work_of-append (h ∷ a) b {v} {w} ha hb =
    let (x, e, more) = >>=-eq-ok (work_from_bits h.bits) _ ha in
    let (y, e', sum) = >>=-eq-ok (work_of a) _ more in
    rw (e, work_of-append a b e' hb) (ap ok (omega (arith, ok-injective sum)))

pub work_of-split :
    (a b : List BlockHeader) {w : ℕ}
    → work_of (a ++ b) ≡ ok w
    → (u : ℕ) × (v : ℕ) × (work_of a ≡ ok u) × (work_of b ≡ ok v) × (u + v ≡ w)
unfolding work_of
work_of-split [] b {w} h = (0, w, refl, h, omega arith)
work_of-split (x ∷ a) b {w} h =
    let (y, e, more) = >>=-eq-ok (work_from_bits x.bits) _ h in
    let (z, e', sum) = >>=-eq-ok (work_of (a ++ b)) _ more in
    let (u, v, ha, hb, adds) = work_of-split a b e' in
    (y + u, v, rw (e, ha) refl, hb, omega (arith, ok-injective sum))

pub raw_headers-append :
    (a b : List BlockHeader) → raw_headers (a ++ b) ≡ raw_headers a ++ raw_headers b
unfolding raw_headers concat_bytes
raw_headers-append [] b = refl
raw_headers-append (h ∷ a) b =
    ap (◌++◌ h.raw) (raw_headers-append a b)
    ∙ sym (append_assoc h.raw (raw_headers a) (raw_headers b))

pub Built-nonempty :
    {config : ChainConfig} (all : List BlockHeader) → Built config all → 0 < length all
Built-nonempty all (base h e _ _) = rw e (omega arith)
Built-nonempty all (next prev h _ _ e) = rw e (omega (arith, length-append {0} prev (h ∷ [])))

take-append_front : (n : ℕ) (a b : List BlockHeader) → n ≤ length a → take n (a ++ b) ≡ take n a
take-append_front zero a b h = refl
take-append_front (suc n) [] b h = absurd (omega arith)
take-append_front (suc n) (x ∷ a) b h = ap (◌∷◌ x) (take-append_front n a b (omega arith))

take_whole : (n : ℕ) (a : List BlockHeader) → length a ≤ n → take n a ≡ a
take_whole zero [] h = refl
take_whole zero (x ∷ a) h = absurd (omega arith)
take_whole (suc n) [] h = refl
take_whole (suc n) (x ∷ a) h = ap (◌∷◌ x) (take_whole n a (omega arith))

-- A front of such headers was accepted in the same way.
pub Built-take :
    (config : ChainConfig) (n : ℕ) (all : List BlockHeader)
    → 0 < n
    → Built config all
    → Built config (take n all)
Built-take config n all pos (base h e works at) =
    let short : length all ≤ n = rw e (omega arith) in
    rw (take_whole n all short) (base h e works at)
Built-take config n all pos (next prev h b ok' e) = elim (Bool-cases (leb n (length prev))) [
  | inl front ↦
      rw (e, take-append_front n prev (h ∷ []) (leb→le _ _ front)) (Built-take config n prev pos b)
  | inr whole ↦
      let long : length all ≤ n =
        rw e (omega (arith, leb→gt _ _ whole, length-append {0} prev (h ∷ []))) in
      rw (take_whole n all long) (next prev h b ok' e)
]

-- A header that passes the tests of the loop is accepted, and its time is not ahead of the clock.
check_next-Accepts :
    (config : ChainConfig) (max_time : ℕ) (is_first : Bool) (prev : List BlockHeader)
    (h : BlockHeader)
    → check_next config max_time is_first prev h ≡ ok tt
    → Accepts config prev h × (h.time ≤ max_time)
unfolding check_next
check_next-Accepts config max_time is_first prev h e0 =
    let (last, found, e1) = >>=-eq-ok (or_throw (last_of prev) "undefined") _ e0 in
    let (linked, e2) = >>-eq-ok (bytes_equal h.prev_block last.hash) _ _ e1 in
    let (bits, expected, e3) =
      >>=-eq-ok (expected_bits config (config.base_height + length prev) prev last) _ e2 in
    let (same, e4) = >>-eq-ok (h.bits == bits) _ _ e3 in
    let (enough, pow, e5) = >>=-eq-ok (check_proof_of_work h) _ e4 in
    let (yes', e6) = >>-eq-ok enough _ _ e5 in
    let (after, e7) = >>-eq-ok (above_median (median_time_past prev) h.time) _ _ e6 in
    let (early, e8) = >>-eq-ok (leb h.time max_time) _ _ e7 in
    (
      record {
        last = last;
        last_is = or_throw-ok (last_of prev) found;
        links = linked;
        bits_are = expected ∙ ap ok (sym ((==_iff _ _).0 same));
        works = pow ∙ ap ok yes';
        later = after;
        checkpoint = e8;
      },
      leb→le _ _ early,
    )
  where
    or_throw-ok :
        (o : Option BlockHeader) {l : BlockHeader} → or_throw o "undefined" ≡ ok l → o ≡ some l
    or_throw-ok (some x) e = ap some (ok-injective e)
    or_throw-ok none e = absurd (cc)

-- The loop of a batch: each header is accepted after those before it, their work is added up, and there
-- are as many as the batch has.
pub stage-Built :
    (config : ChainConfig) (sha256 : List ℕ → List ℕ) (max_time n i : ℕ) (raw : List ℕ)
    (headers staged : List BlockHeader) (sum : ℕ) {out : List BlockHeader} {w : ℕ}
    → stage config sha256 max_time n i raw headers staged sum ≡ ok (out, w)
    → Built config (headers ++ staged)
    → work_of staged ≡ ok sum
    → Built config (headers ++ out) × (work_of out ≡ ok w) × (length out ≡ length staged + n)
unfolding stage
stage-Built config sha256 max_time zero i raw headers staged sum e b counts =
    let both = ok-injective e in
    let same = ap (λ (p : List BlockHeader × ℕ). p.0) both in
    let total = ap (λ (p : List BlockHeader × ℕ). p.1) both in
    (
      subst (λ (l : List BlockHeader). Built config (headers ++ l)) same b,
      rw (← same, ← total) counts,
      rw (← same) (omega arith),
    )
stage-Built config sha256 max_time (suc n) i raw headers staged sum e b counts =
    let (h, _, e1) = >>=-eq-ok (parse_header sha256 (slice raw (i * 80) 80)) _ e in
    let (_, checks, e2) =
      >>=-eq-ok (check_next config max_time (i == 0) (headers ++ staged) h) _ e1 in
    let (w, is_w, e3) = >>=-eq-ok (work_from_bits h.bits) _ e2 in
    let (accepted, _) = check_next-Accepts config max_time (i == 0) (headers ++ staged) h checks in
    let one : work_of (h ∷ []) ≡ ok w = unfold work_of in rw is_w (ap ok (omega arith)) in
    let (built, counted, size) =
      stage-Built config sha256 max_time n (i + 1) raw headers (staged ++ (h ∷ [])) (sum + w) e3
        (next (headers ++ staged) h b accepted (sym (append_assoc headers staged (h ∷ []))))
        (work_of-append staged (h ∷ []) counts one) in
    (built, counted, omega (arith, size, length-append {0} staged (h ∷ [])))

module _ (config : ChainConfig) where
  pub persist_staged-headers :
      (persist : Bool) (staged : List BlockHeader) (chain : HeaderChain)
      → ((persist_staged config persist staged chain).headers ≡ chain.headers)
        × ((persist_staged config persist staged chain).work ≡ chain.work)
  unfolding persist_staged persist_all rewrite_file append_to_file
  persist_staged-headers true staged chain = ground arith
  persist_staged-headers false staged chain = ground arith

  pub persist_staged-disk :
      (staged : List BlockHeader) (chain : HeaderChain)
      → (persist_staged config false staged chain).disk ≡ chain.disk
  unfolding persist_staged
  persist_staged-disk staged chain = ground arith

  persist_staged_none :
      (persist : Bool) (chain : HeaderChain) → persist_staged config persist [] chain ≡ chain
  unfolding persist_staged
  persist_staged_none true chain = ground arith
  persist_staged_none false chain = ground arith

  -- Headers that are to be written are in the file afterwards, those before them included.
  pub persist_staged-written :
      (persist : Bool) (headers staged : List BlockHeader) (chain : HeaderChain)
      → (config.has_file ≡ true → chain.dirty ≡ false → chain.disk ≡ raw_headers headers)
      → chain.headers ≡ headers ++ staged
      → (persist_staged config persist staged chain).disk ≡ (
          if persist && (config.has_file && ltb 0 (length staged))
          then raw_headers chain.headers
          else chain.disk)
  unfolding persist_staged persist_all rewrite_file append_to_file
  persist_staged-written false headers staged chain saved e = ground arith
  persist_staged-written true headers staged chain saved e =
      elim (Bool-cases (ltb 0 (length staged))) [
        | inr nothing ↦ ground arith
        | inl more ↦ elim (Bool-cases config.has_file) [
          | inr gone ↦ rw (more, gone) refl
          | inl file ↦ elim (Bool-cases chain.dirty) [
            | inl stale ↦ rw (more, file) (rw stale refl)
            | inr fresh ↦
                rw (more, file)
                  (rw fresh (
                    ap (λ (l : List ℕ). l ++ raw_headers staged) (saved file fresh)
                    ∙ sym (raw_headers-append headers staged)
                    ∙ ap raw_headers (sym e)))
          ]
        ]
      ]

  -- The file holds the headers still, unless the state says that it does not.
  pub persist_staged-saved :
      (persist : Bool) (headers staged : List BlockHeader) (chain : HeaderChain)
      → (config.has_file ≡ true → chain.dirty ≡ false → chain.disk ≡ raw_headers headers)
      → chain.headers ≡ headers ++ staged
      → let after = persist_staged config persist staged chain in
        config.has_file ≡ true → after.dirty ≡ false → after.disk ≡ raw_headers after.headers
  unfolding persist_staged persist_all rewrite_file append_to_file
  persist_staged-saved persist headers [] chain saved e file clean =
      let idle = persist_staged_none persist chain in
      let kept : chain.headers ≡ headers = e ∙ append-nil headers in
      rw (idle, kept) (saved file (rw idle at clean))
  persist_staged-saved false headers (h ∷ hs) chain saved e file clean =
      let more : ltb 0 (length (h ∷ hs)) ≡ true = lt→ltb _ _ (omega arith) in
      let dirty : true ≡ false = rw (file, more) at clean in absurd (cc)
  persist_staged-saved true headers (h ∷ hs) chain saved e file clean =
      elim (Bool-cases chain.dirty) [
        | inl stale ↦
            let more : ltb 0 (length (h ∷ hs)) ≡ true = lt→ltb _ _ (omega arith) in
            rw (file, more) (rw stale refl)
        | inr fresh ↦
            let more : ltb 0 (length (h ∷ hs)) ≡ true = lt→ltb _ _ (omega arith) in
            rw (file, more)
              (rw fresh (
                ap (λ (l : List ℕ). l ++ raw_headers (h ∷ hs)) (saved file fresh)
                ∙ sym (raw_headers-append headers (h ∷ hs))
                ∙ ap raw_headers (sym e)))
      ]
