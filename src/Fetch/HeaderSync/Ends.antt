-- ===== src/Fetch/HeaderSync/Ends.antt =====
-- The loop of `syncHeaders` of packages/fetch/src/headersync.ts ends, whatever the server answers.
use ordspv.Common.{
  ℕ, zero, suc, ◌+◌, ◌-◌, ◌*◌, ◌/◌, ◌≤◌, ◌<◌, min, ◌≡◌, refl, ap, subst, ◌∙◌, inl, inr, false, not,
  ◌&&◌, &&-parts, Bool-cases, List, [], ◌∷◌, Option, none, Error, ok, Result-cases, >>=-eq-ok,
  >>-eq-ok, ok-injective, ltb, ltb→lt, leb, ◌==◌, ==_iff, if◌then◌else◌, length, length-append,
  length-take, drop, arith,
}
use ordspv.Bytes.Hex.{hex_to_bytes, hex_pairs}
use ordspv.Fetch.HeaderChain.{
  ChainConfig, HeaderChain, tip_height, work_of, truncate_to, mark_dirty, append_batch,
}
use ordspv.Fetch.HeaderChain.Methods.{append_batch-IsValid}
use ordspv.Fetch.HeaderChain.Valid.{IsValid, Built-nonempty}
use ordspv.Fetch.HeaderSync.{
  Reply, Transport, Checkpoint, SyncOptions, SyncState, is_reorg, decode_reply, use_cp, cp_height,
  is_forked, step_back, on_refusal, add_batch, round, sync_loop, enough_fuel,
}
use ordspv.Fetch.HeaderSync.MostWork.{IsSound, round-IsSound, Extends-self}

hex_pairs-length : (s : List ℕ) → length (hex_pairs s) ≡ length s / 2
unfolding hex_pairs
hex_pairs-length [] = omega arith
hex_pairs-length (c ∷ []) = omega arith
hex_pairs-length (c ∷ d ∷ s) = omega (arith, hex_pairs-length s)

hex_to_bytes-length :
    (s : List ℕ) {raw : List ℕ} → hex_to_bytes s ≡ ok raw → length raw ≡ length s / 2
unfolding hex_to_bytes
hex_to_bytes-length s {raw} h = ground (arith, hex_pairs-length s)

-- A reply that passes holds a header at least.
decode_reply-headers :
    (count : ℕ) (reply : Reply) {raw : List ℕ}
    → decode_reply count reply ≡ ok raw
    → 1 ≤ length raw / 80
unfolding decode_reply
decode_reply-headers count reply {raw} h =
    let (tests, h1) =
      >>-eq-ok
        (not (reply.count == 0)
          && (leb reply.count count && (length reply.hex == reply.count * 160)))
        _ (hex_to_bytes reply.hex) h in
    let (some_count, more) = &&-parts (not (reply.count == 0)) _ tests in
    let (_, size) = &&-parts (leb reply.count count) _ more in
    let long = (==_iff (length reply.hex) (reply.count * 160)).0 size in
    let bytes = hex_to_bytes-length reply.hex h1 in
    let pos : 0 < reply.count = ground (arith, some_count) in omega (arith, long, bytes, pos)

truncate_to-length :
    (config : ChainConfig) (height : ℕ) (chain : HeaderChain) {after : HeaderChain}
    → truncate_to config false height chain ≡ ok after
    → min (height - config.base_height + 1) (length chain.headers) ≤ length after.headers
unfolding truncate_to mark_dirty
truncate_to-length config height chain h =
    let keep = height - config.base_height + 1 in
    let (_, h1) = >>-eq-ok (not (ltb height config.base_height)) _ _ h in
    let (dropped, is_dropped, h2) = >>=-eq-ok (work_of (drop keep chain.headers)) _ h1 in
    subst (λ (a : HeaderChain). min keep (length chain.headers) ≤ length a.headers)
      (ok-injective h2) (ground (arith, length-take keep chain.headers))

module _ (config : ChainConfig) (sha256 : List ℕ → List ℕ) (server : Transport)
    (options : SyncOptions) (clock : ℕ → ℕ) (server_tip : ℕ) where
  -- The headers that are missing, and two for each step back that is left.
  abbrev left : SyncState → ℕ
  left s = server_tip - tip_height config s.chain + 2 * (options.max_reorg_depth - s.rewinds)

  step_back-left :
      (s : SyncState)
      → 0 < length s.chain.headers
      → s.rewinds < options.max_reorg_depth
      → (step_back config sha256 server options clock server_tip s).1 ≡ ok tt
      → left (step_back config sha256 server options clock server_tip s).0 < left s
  unfolding step_back tip_height
  step_back-left s pos more h =
      let tip = tip_height config s.chain in
      let height = (if ltb (tip - 1) config.base_height then config.base_height else tip - 1) in
      elim (Result-cases (truncate_to config false height s.chain)) [
        | inl (cut, e) ↦
            let size = truncate_to-length config height s.chain e in
            let high : tip - 1 ≤ height = ground arith in
            rw (e, step_back) (omega (arith, size, high))
        | inr (x, e) ↦ absurd (let no' = rw (e, step_back) at h in cc)
      ]

  on_refusal-left :
      (s : SyncState) (e : Error)
      → 0 < length s.chain.headers
      → (on_refusal config sha256 server options clock server_tip s e).1 ≡ ok tt
      → left (on_refusal config sha256 server options clock server_tip s e).0 < left s
  unfolding on_refusal
  on_refusal-left s e pos h =
      elim (Bool-cases (is_reorg e && ltb s.rewinds options.max_reorg_depth)) [
        | inl back ↦
            let (_, few) = &&-parts (is_reorg e) (ltb s.rewinds options.max_reorg_depth) back in
            rw back (step_back-left s pos (ltb→lt _ _ few) (rw back at h))
        | inr stop ↦ absurd (let no' = rw stop at h in cc)
      ]

  add_batch-left :
      (i : ℕ) (s : SyncState) (cp : Option Checkpoint) (reply : Reply) (raw : List ℕ)
      → IsValid config s.chain
      → tip_height config s.chain < server_tip
      → 1 ≤ length raw / 80
      → (add_batch config sha256 server options clock server_tip i s cp reply raw).1 ≡ ok tt
      → left (add_batch config sha256 server options clock server_tip i s cp reply raw).0 < left s
  unfolding add_batch
  add_batch-left i s cp reply raw v behind one h =
      let persist = not (is_forked config sha256 s.pre_fork) in
      let pos = Built-nonempty s.chain.headers v.built in
      elim (Result-cases (append_batch config sha256 (clock i) persist raw s.chain)) [
        | inl (grown, e) ↦
            let (_, staged, longer, _, size, _, _) =
              append_batch-IsValid config sha256 (clock i) persist raw s.chain e v in
            let sum = ap length longer ∙ length-append s.chain.headers staged in
            rw (e, add_batch) (unfold tip_height in omega (arith, sum, size, pos, behind))
        | inr (x, e) ↦ rw (e, add_batch) (on_refusal-left s x pos (rw (e, add_batch) at h))
      ]

  round-left :
      (i : ℕ) (s : SyncState)
      → IsValid config s.chain
      → tip_height config s.chain < server_tip
      → (round config sha256 server options clock server_tip i s).1 ≡ ok tt
      → left (round config sha256 server options clock server_tip i s).0 < left s
  unfolding round
  round-left i s v behind h =
      let tip = tip_height config s.chain in
      let count = min options.batch_size (server_tip - tip) in
      let cp = use_cp config sha256 options.checkpoint (tip + 1 + count - 1) in
      elim (Result-cases (server.block_headers i (tip + 1) count (cp_height config sha256 cp))) [
        | inl (reply, e) ↦ elim (Result-cases (decode_reply count reply)) [
          | inl (raw, d) ↦
              rw (e, d, round)
                (add_batch-left i s cp reply raw v behind (decode_reply-headers count reply d)
                  (rw (e, d, round) at h))
          | inr (x, d) ↦ absurd (let no' = rw (e, d, round) at h in cc)
        ]
        | inr (x, e) ↦ absurd (let no' = rw (e, round) at h in cc)
      ]

  -- A loop that has a round for all that is left does nothing with more.
  sync_loop-more :
      (first : HeaderChain) (fuel more i : ℕ) (s : SyncState)
      → IsSound config sha256 first s
      → left s < fuel
      → sync_loop config sha256 server options clock server_tip (more + fuel) i s
        ≡ sync_loop config sha256 server options clock server_tip fuel i s
  unfolding sync_loop
  sync_loop-more first zero more i s v enough = absurd (omega arith)
  sync_loop-more first (suc fuel) more i s v enough =
      let next : more + suc fuel ≡ suc (more + fuel) = omega arith in
      let after = round config sha256 server options clock server_tip i s in
      rw next (elim (Bool-cases (ltb (tip_height config s.chain) server_tip)) [
        | inl behind ↦ elim (Result-cases after.1) [
          | inl (done, e) ↦
              let fewer : left after.0 < fuel =
                omega (arith, round-left i s v.0 (ltb→lt _ _ behind) e, enough) in
              rw (behind, e, sync_loop)
                (sync_loop-more first fuel more (i + 1) after.0
                  (round-IsSound config sha256 server options clock server_tip first i s v) fewer)
          | inr (x, e) ↦ rw (behind, e, sync_loop) refl
        ]
        | inr there ↦ rw (there, sync_loop) refl
      ])

-- The fuel that a sync starts with is enough, whatever the server answers: a request adds a header, or
-- it steps back one of the times that are allowed, or it ends the loop, so that further rounds
-- change nothing.
pub sync_loop_fuel :
    (config : ChainConfig) (sha256 : List ℕ → List ℕ) (server : Transport) (options : SyncOptions)
    (clock : ℕ → ℕ) (server_tip : ℕ) (chain : HeaderChain) (more : ℕ)
    → IsValid config chain
    → let start : SyncState = record { chain = chain; pre_fork = none; rewinds = 0 } in
      let fuel = enough_fuel config sha256 server options clock server_tip chain in
      sync_loop config sha256 server options clock server_tip (more + fuel) 0 start
      ≡ sync_loop config sha256 server options clock server_tip fuel 0 start
sync_loop_fuel config sha256 server options clock server_tip chain more v =
    sync_loop-more config sha256 server options clock server_tip chain
      (enough_fuel config sha256 server options clock server_tip chain) more 0
      (record { chain = chain; pre_fork = none; rewinds = 0 }) (v, Extends-self chain) (omega arith)
