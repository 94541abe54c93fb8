-- ===== src/Fetch/HeaderSync/Reaches.antt =====
-- Where a sync of packages/fetch/src/headersync.ts that succeeds has come to.
use ordspv.Common.{
  ℕ, zero, suc, ◌+◌, ◌≤◌, ◌≡◌, refl, ap, sym, inl, inr, Bool-cases, List, Option, none, some,
  Result, ok, err, Result-cases, ok-injective, ◌>>◌, ltb, ltb→ge, arith,
}
use ordspv.Fetch.HeaderChain.{
  ChainConfig, HeaderChain, tip_height, flush, rewrite_file, persist_all,
}
use ordspv.Fetch.HeaderSync.{
  Transport, SyncOptions, SyncResult, SyncState, round, sync_loop, adopt, finish, sync_from,
  sync_headers, enough_fuel,
}

flush-tip :
    (config : ChainConfig) (chain : HeaderChain)
    → tip_height config (flush config chain) ≡ tip_height config chain
unfolding flush rewrite_file persist_all tip_height
flush-tip config chain = ground arith

module _ (config : ChainConfig) (sha256 : List ℕ → List ℕ) (server : Transport)
    (options : SyncOptions) (clock : ℕ → ℕ) (server_tip : ℕ) where
  -- The loop ends well only at the server's tip.
  sync_loop-tip :
      (fuel i : ℕ) (s : SyncState)
      → (sync_loop config sha256 server options clock server_tip fuel i s).1 ≡ ok tt
      → server_tip
        ≤ tip_height config
            (sync_loop config sha256 server options clock server_tip fuel i s).0.chain
  unfolding sync_loop
  sync_loop-tip zero i s h = absurd (cc)
  sync_loop-tip (suc fuel) i s h =
      let after = round config sha256 server options clock server_tip i s in
      elim (Bool-cases (ltb (tip_height config s.chain) server_tip)) [
        | inl behind ↦ elim (Result-cases after.1) [
          | inl (done, e) ↦
              rw (behind, e, sync_loop)
                (sync_loop-tip fuel (i + 1) after.0 (rw (behind, e, sync_loop) at h))
          | inr (x, e) ↦ absurd (let no' = rw (behind, e, sync_loop) at h in cc)
        ]
        | inr there ↦ rw (there, sync_loop) (ltb→ge _ _ there)
      ]

  abbrev AtTip : HeaderChain → Result SyncResult → Type 0
  AtTip after result =
      (answer : SyncResult)
      → result ≡ ok answer
      → (server_tip ≤ tip_height config after) × (answer.tip ≡ tip_height config after)

  adopt-AtTip :
      (start : ℕ) (s : SyncState) (pre : Option HeaderChain)
      → server_tip ≤ tip_height config s.chain
      → AtTip
          (adopt config sha256 server options clock server_tip start s pre).0
          (adopt config sha256 server options clock server_tip start s pre).1
  unfolding adopt
  adopt-AtTip start s none high answer h =
      (high, ap (λ (a : SyncResult). a.tip) (sym (ok-injective h)))
  adopt-AtTip start s (some captured) high answer h =
      elim (Bool-cases (ltb captured.work s.chain.work)) [
        | inl more ↦
            let h' = rw more at h in
            rw more (
              omega (arith, high, flush-tip config s.chain),
              ap (λ (a : SyncResult). a.tip) (sym (ok-injective h')),
            )
        | inr less ↦ absurd (let no' = rw less at h in cc)
      ]

  finish-AtTip :
      (start : ℕ) (s : SyncState) (result : Result (Unit {0}))
      → (result ≡ ok tt → server_tip ≤ tip_height config s.chain)
      → AtTip
          (finish config sha256 server options clock server_tip start s result).0
          (finish config sha256 server options clock server_tip start s result).1
  unfolding finish
  finish-AtTip start s (ok done) high answer h = adopt-AtTip start s s.pre_fork (high refl) answer h
  finish-AtTip start s (err e) high answer h = absurd (cc)

  sync_from-AtTip :
      (chain : HeaderChain)
      → AtTip
          (sync_from config sha256 server options clock server_tip chain).0
          (sync_from config sha256 server options clock server_tip chain).1
  unfolding sync_from
  sync_from-AtTip chain =
      let start : SyncState = record { chain = chain; pre_fork = none; rewinds = 0 } in
      let fuel = enough_fuel config sha256 server options clock server_tip chain in
      let looped = sync_loop config sha256 server options clock server_tip fuel 0 start in
      finish-AtTip (tip_height config chain) looped.0 looped.1 (sync_loop-tip fuel 0 start)

-- A sync that succeeds has come to the tip that the server named, at least, and reports the chain's tip.
pub sync_headers-AtTip :
    (config : ChainConfig) (sha256 : List ℕ → List ℕ) (server : Transport) (options : SyncOptions)
    (clock : ℕ → ℕ) (chain : HeaderChain) (server_tip : ℕ) (answer : SyncResult)
    → (server.version >> server.subscribe) ≡ ok server_tip
    → (sync_headers config sha256 server options clock chain).1 ≡ ok answer
    → let after = (sync_headers config sha256 server options clock chain).0 in
      (server_tip ≤ tip_height config after) × (answer.tip ≡ tip_height config after)
unfolding sync_headers
sync_headers-AtTip config sha256 server options clock chain server_tip answer e h =
    rw (e, sync_headers)
      (sync_from-AtTip config sha256 server options clock server_tip chain answer
        (rw (e, sync_headers) at h))
