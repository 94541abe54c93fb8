-- ===== src/Fetch/HeaderSync/MostWork.antt =====
-- The most-work rule of `syncHeaders` of packages/fetch/src/headersync.ts: what a sync leaves of the
-- chain, whatever the server answers.
use ordspv.Common.{
  ℕ, zero, suc, ◌+◌, ◌-◌, ◌≤◌, ◌<◌, min, ◌≡◌, refl, ap, sym, ◌∙◌, ◌⊎◌, inl, inr, true, false, not,
  ◌&&◌, Bool-cases, List, [], ◌++◌, append-nil, append_assoc, Option, none, some, Error, Result, ok,
  err, Result-cases, ◌>>◌, ltb, ltb→lt, if◌then◌else◌, arith,
}
use ordspv.Header.Parse.{BlockHeader}
use ordspv.Fetch.HeaderChain.{
  ChainConfig, HeaderChain, tip_height, raw_headers, work_of, truncate_to, flush, rewrite_file,
  persist_all, restore_state, append_batch,
}
use ordspv.Fetch.HeaderChain.Methods.{
  append_batch-IsValid, append_batch-disk, truncate_to-IsValid, truncate_to-disk, flush-IsValid,
}
use ordspv.Fetch.HeaderChain.Valid.{Built, IsValid}
use ordspv.Fetch.HeaderSync.{
  Reply, Transport, Checkpoint, SyncOptions, SyncResult, SyncState, is_reorg, decode_reply, use_cp,
  cp_height, is_forked, capture, step_back, on_refusal, add_batch, round, sync_loop, restored,
  adopt, finish, sync_from, sync_headers, enough_fuel,
}

-- All the headers of one chain, and more behind them.
pub record Extends (before after : HeaderChain) : Type 0 where
  pub more : List BlockHeader
  pub grown : after.headers ≡ before.headers ++ more
  pub heavier : before.work ≤ after.work

pub Extends-self : (c : HeaderChain) → Extends c c
Extends-self c = record { more = []; grown = sym (append-nil c.headers); heavier = omega arith }

Extends-again : (a b c : HeaderChain) → Extends a b → Extends b c → Extends a c
Extends-again a b c x y = record {
  more = x.more ++ y.more;
  grown =
      y.grown
      ∙ ap (λ (l : List BlockHeader). l ++ y.more) x.grown
      ∙ append_assoc a.headers x.more y.more;
  heavier = omega (arith, x.heavier, y.heavier);
}

module _ (config : ChainConfig) (sha256 : List ℕ → List ℕ) where
  -- Before a fork the chain extends the first one; in a fork the captured chain does, and it can be
  -- restored.
  abbrev pub Kept : HeaderChain → Option HeaderChain → HeaderChain → Type 0
  Kept first none chain = Extends first chain
  Kept first (some captured) chain =
      Extends first captured × IsValid config (restore_state config captured chain)

  abbrev pub IsSound : HeaderChain → SyncState → Type 0
  IsSound first s = IsValid config s.chain × Kept first s.pre_fork s.chain

  -- The captured state goes with the file that it was captured with.
  restore-IsValid :
      (captured chain : HeaderChain)
      → Built config captured.headers
      → work_of captured.headers ≡ ok captured.work
      → (config.has_file ≡ true
          → captured.dirty ≡ false
          → chain.disk ≡ raw_headers captured.headers)
      → IsValid config (restore_state config captured chain)
  unfolding restore_state
  restore-IsValid captured chain b w s = record { built = b; counted = w; saved = s }

  restore_again :
      (captured chain after : HeaderChain)
      → after.disk ≡ chain.disk
      → IsValid config (restore_state config captured chain)
      → IsValid config (restore_state config captured after)
  unfolding restore_state
  restore_again captured chain after same v = record {
    built = v.built;
    counted = v.counted;
    saved = λ f d. same ∙ v.saved f d;
  }

  capture-Kept :
      (first : HeaderChain) (pre : Option HeaderChain) (chain after : HeaderChain)
      → after.disk ≡ chain.disk
      → IsValid config chain
      → Kept first pre chain
      → Kept first (some (capture config sha256 pre chain)) after
  unfolding capture
  capture-Kept first none chain after same v kept =
      (kept, restore-IsValid chain after v.built v.counted (λ f d. same ∙ v.saved f d))
  capture-Kept first (some captured) chain after same v (x, r) =
      (x, restore_again captured chain after same r)

  module _ (server : Transport) (options : SyncOptions) (clock : ℕ → ℕ) (server_tip : ℕ) where
    step_back-IsSound :
        (first : HeaderChain) (s : SyncState)
        → IsSound first s
        → IsSound first (step_back config sha256 server options clock server_tip s).0
    unfolding step_back
    step_back-IsSound first s (v, kept) =
        let tip = tip_height config s.chain in
        let height = (if ltb (tip - 1) config.base_height then config.base_height else tip - 1) in
        elim (Result-cases (truncate_to config false height s.chain)) [
          | inl (cut, e) ↦
              rw (e, step_back)
                (
                  truncate_to-IsValid config false height s.chain e v,
                  capture-Kept first s.pre_fork s.chain cut
                      (truncate_to-disk config height s.chain e) v kept,
                )
          | inr (x, e) ↦
              rw (e, step_back) (v, capture-Kept first s.pre_fork s.chain s.chain refl v kept)
        ]

    on_refusal-IsSound :
        (first : HeaderChain) (s : SyncState) (e : Error)
        → IsSound first s
        → IsSound first (on_refusal config sha256 server options clock server_tip s e).0
    unfolding on_refusal
    on_refusal-IsSound first s e v =
        elim (Bool-cases (is_reorg e && ltb s.rewinds options.max_reorg_depth)) [
          | inl back ↦ rw back (step_back-IsSound first s v)
          | inr stop ↦ rw stop v
        ]

    grown-Kept :
        (first : HeaderChain) (pre : Option HeaderChain) (i : ℕ) (raw : List ℕ)
        (chain after : HeaderChain)
        → append_batch config sha256 (clock i) (not (is_forked config sha256 pre)) raw chain
          ≡ ok after
        → IsValid config chain
        → Kept first pre chain
        → Kept first pre after
    unfolding is_forked
    grown-Kept first none i raw chain after e v kept =
        let (_, staged, grown, _, _, heavier, _) =
          append_batch-IsValid config sha256 (clock i) true raw chain e v in
        Extends-again first chain after kept
          (record { more = staged; grown = grown; heavier = heavier })
    grown-Kept first (some captured) i raw chain after e v (x, r) = (
      x,
      restore_again captured chain after (append_batch-disk config sha256 (clock i) raw chain e) r,
    )

    add_batch-IsSound :
        (first : HeaderChain) (i : ℕ) (s : SyncState) (cp : Option Checkpoint) (reply : Reply)
        (raw : List ℕ)
        → IsSound first s
        → IsSound first (add_batch config sha256 server options clock server_tip i s cp reply raw).0
    unfolding add_batch
    add_batch-IsSound first i s cp reply raw (v, kept) =
        let persist = not (is_forked config sha256 s.pre_fork) in
        elim (Result-cases (append_batch config sha256 (clock i) persist raw s.chain)) [
          | inl (grown, e) ↦
              rw (e, add_batch)
                (
                  (append_batch-IsValid config sha256 (clock i) persist raw s.chain e v).0,
                  grown-Kept first s.pre_fork i raw s.chain grown e v kept,
                )
          | inr (x, e) ↦ rw (e, add_batch) (on_refusal-IsSound first s x (v, kept))
        ]

    pub round-IsSound :
        (first : HeaderChain) (i : ℕ) (s : SyncState)
        → IsSound first s
        → IsSound first (round config sha256 server options clock server_tip i s).0
    unfolding round
    round-IsSound first i s v =
        let tip = tip_height config s.chain in
        let count = min options.batch_size (server_tip - tip) in
        let cp = use_cp config sha256 options.checkpoint (tip + 1 + count - 1) in
        elim (Result-cases (server.block_headers i (tip + 1) count (cp_height config sha256 cp))) [
          | inl (reply, e) ↦ elim (Result-cases (decode_reply count reply)) [
            | inl (raw, d) ↦ rw (e, d, round) (add_batch-IsSound first i s cp reply raw v)
            | inr (x, d) ↦ rw (e, d, round) v
          ]
          | inr (x, e) ↦ rw (e, round) v
        ]

    sync_loop-IsSound :
        (first : HeaderChain) (fuel i : ℕ) (s : SyncState)
        → IsSound first s
        → IsSound first (sync_loop config sha256 server options clock server_tip fuel i s).0
    unfolding sync_loop
    sync_loop-IsSound first zero i s v = v
    sync_loop-IsSound first (suc fuel) i s v =
        let after = round config sha256 server options clock server_tip i s in
        let kept = round-IsSound first i s v in
        elim (Bool-cases (ltb (tip_height config s.chain) server_tip)) [
          | inl behind ↦ elim (Result-cases after.1) [
            | inl (done, e) ↦
                rw (behind, e, sync_loop) (sync_loop-IsSound first fuel (i + 1) after.0 kept)
            | inr (x, e) ↦ rw (behind, e, sync_loop) kept
          ]
          | inr there ↦ rw (there, sync_loop) v
        ]

    -- The headers stay, with more behind them, or a sync that succeeds adopts others of more work.
    abbrev pub MostWork : HeaderChain → HeaderChain × Result SyncResult → Type 0
    MostWork first (after, result) =
        IsValid config after
        × (Extends first after
            ⊎ ((first.work < after.work) × (answer : SyncResult) × (result ≡ ok answer)))

    Extends-restored :
        (first captured chain : HeaderChain)
        → Extends first captured
        → Extends first (restore_state config captured chain)
    unfolding restore_state
    Extends-restored first captured chain x = record {
      more = x.more;
      grown = x.grown;
      heavier = x.heavier;
    }

    flush-work : (chain : HeaderChain) → (flush config chain).work ≡ chain.work
    unfolding flush rewrite_file persist_all
    flush-work chain = ground arith

    restored-MostWork :
        (first : HeaderChain) (pre : Option HeaderChain) (chain : HeaderChain) (e : Error)
        → IsValid config chain
        → Kept first pre chain
        → MostWork first (restored config sha256 server options clock server_tip pre chain, err e)
    unfolding restored
    restored-MostWork first none chain e v kept = (v, inl kept)
    restored-MostWork first (some captured) chain e v (x, r) =
        (r, inl (Extends-restored first captured chain x))

    adopt-MostWork :
        (first : HeaderChain) (start : ℕ) (s : SyncState) (pre : Option HeaderChain)
        → IsValid config s.chain
        → Kept first pre s.chain
        → MostWork first (adopt config sha256 server options clock server_tip start s pre)
    unfolding adopt
    adopt-MostWork first start s none v kept = (v, inl kept)
    adopt-MostWork first start s (some captured) v (x, r) =
        elim (Bool-cases (ltb captured.work s.chain.work)) [
          | inl more ↦
              let heavier : first.work < (flush config s.chain).work =
                omega (arith, ltb→lt _ _ more, x.heavier, flush-work s.chain) in
              rw more (flush-IsValid config s.chain v, inr (heavier, _, refl))
          | inr less ↦ rw less (r, inl (Extends-restored first captured s.chain x))
        ]

    finish-MostWork :
        (first : HeaderChain) (start : ℕ) (s : SyncState) (result : Result (Unit {0}))
        → IsSound first s
        → MostWork first (finish config sha256 server options clock server_tip start s result)
    unfolding finish
    finish-MostWork first start s (ok done) (v, kept) =
        adopt-MostWork first start s s.pre_fork v kept
    finish-MostWork first start s (err e) (v, kept) =
        restored-MostWork first s.pre_fork s.chain e v kept

    sync_from-MostWork :
        (first : HeaderChain)
        → IsValid config first
        → MostWork first (sync_from config sha256 server options clock server_tip first)
    unfolding sync_from
    sync_from-MostWork first v =
        let start : SyncState = record { chain = first; pre_fork = none; rewinds = 0 } in
        let fuel = enough_fuel config sha256 server options clock server_tip first in
        let looped = sync_loop config sha256 server options clock server_tip fuel 0 start in
        finish-MostWork first (tip_height config first) looped.0 looped.1
          (sync_loop-IsSound first fuel 0 start (v, Extends-self first))

-- Whatever the server answers, a sync leaves a valid chain. It drops a header only if it succeeds and
-- the chain that it adopts carries strictly more work; otherwise, and after every refusal, all
-- headers are still there, with those that were accepted behind them.
pub sync_headers-MostWork :
    (config : ChainConfig) (sha256 : List ℕ → List ℕ) (server : Transport) (options : SyncOptions)
    (clock : ℕ → ℕ) (chain : HeaderChain)
    → IsValid config chain
    → let (after, result) = sync_headers config sha256 server options clock chain in
      IsValid config after
      × (Extends chain after
          ⊎ ((chain.work < after.work) × (answer : SyncResult) × (result ≡ ok answer)))
unfolding sync_headers
sync_headers-MostWork config sha256 server options clock chain v =
    elim (Result-cases (server.version >> server.subscribe)) [
      | inl (tip, e) ↦
          rw (e, sync_headers) (sync_from-MostWork config sha256 server options clock tip chain v)
      | inr (x, e) ↦ rw (e, sync_headers) (v, inl (Extends-self chain))
    ]
