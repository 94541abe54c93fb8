-- ===== src/Fetch/HeaderSync.antt =====
-- `syncHeaders` of packages/fetch/src/headersync.ts. The Electrum server is a parameter that answers
-- each request as it likes; a round of the loop is one request.
pub mod MostWork
pub mod Ends
pub mod Reaches
use ordspv.Common.{
  ℕ, zero, suc, ◌+◌, ◌-◌, ◌*◌, min, Bool, true, false, not, ◌&&◌, List, [], ◌∷◌, Option, none, some,
  Error, failure, reorg_link, Result, ok, err, throw, require, or_throw, map_result, ◌>>=◌, ◌>>◌,
  ltb, leb, ◌==◌, if◌then◌else◌, length,
}
use ordspv.Bytes.Hex.{bytes_equal, hex_to_bytes, display_to_internal, internal_to_display}
use ordspv.Merkle.Tree.{verify_merkle_branch}
use ordspv.Text.{to_lower_case}
use ordspv.Fetch.HeaderChain.{
  ChainConfig, HeaderChain, tip_height, header_at, truncate_to, flush, restore_state, append_batch,
}

pub record Reply : Type 0 where
  pub hex : List ℕ
  pub count : ℕ
  pub root : Option (List ℕ)
  pub branch : Option (List (List ℕ))

-- The answers to `server.version`, to `blockchain.headers.subscribe` and to the requests of headers,
-- which give the round, the start, the count and the height of the checkpoint.
pub record Transport : Type 0 where
  pub version : Result (Unit {0})
  pub subscribe : Result ℕ
  pub block_headers : ℕ → ℕ → ℕ → Option ℕ → Result Reply

pub record Checkpoint : Type 0 where
  pub height : ℕ
  pub root : List ℕ

pub record SyncOptions : Type 0 where
  pub batch_size : ℕ
  pub max_reorg_depth : ℕ
  pub checkpoint : Option Checkpoint

pub record SyncResult : Type 0 where
  pub tip : ℕ
  pub added : ℕ

pub record SyncState : Type 0 where
  pub chain : HeaderChain
  pub pre_fork : Option HeaderChain
  pub rewinds : ℕ

unfoldable pub is_reorg : Error → Bool
is_reorg reorg_link = true
is_reorg _ = false

-- The reply is exactly as many headers as it claims, and no more than were asked for.
unfoldable pub decode_reply : ℕ → Reply → Result (List ℕ)
decode_reply count reply = do
  require
      (not (reply.count == 0) && (leb reply.count count && (length reply.hex == reply.count * 160)))
      (failure "electrum header batch malformed")
  hex_to_bytes reply.hex

-- `undefined` and the empty string are both refused.
unfoldable pub non_empty : Option (List ℕ) → Option (List ℕ)
non_empty none = none
non_empty (some []) = none
non_empty (some (c ∷ s)) = some (c ∷ s)

module _ (config : ChainConfig) (sha256 : List ℕ → List ℕ) where
  unfoldable pub verify_cp_branch : HeaderChain → Reply → Checkpoint → Result (Unit {0})
  unfolding non_empty
  verify_cp_branch chain reply checkpoint = do
    root ← or_throw (non_empty reply.root) "electrum response missing cp_height root/branch"
    branch ← or_throw reply.branch "electrum response missing cp_height root/branch"
    require (bytes_equal (to_lower_case root) (to_lower_case checkpoint.root))
        (failure "electrum cp root differs from the pinned one")
    tip ← or_throw (header_at config (tip_height config chain) chain) "undefined"
    nodes ← map_result display_to_internal branch
    folded ←
        verify_merkle_branch sha256 tip.hash_le nodes (tip_height config chain)
          (some (checkpoint.height + 1))
    require (bytes_equal (internal_to_display folded) (to_lower_case checkpoint.root))
        (failure "electrum cp branch does not fold to the pinned root")

  -- The checkpoint of a request, where the batch ends at it or below.
  unfoldable pub use_cp : Option Checkpoint → ℕ → Option Checkpoint
  use_cp none last = none
  use_cp (some checkpoint) last = if leb last checkpoint.height then some checkpoint else none

  unfoldable pub cp_height : Option Checkpoint → Option ℕ
  cp_height none = none
  cp_height (some checkpoint) = some checkpoint.height

  unfoldable pub check_cp : HeaderChain → Reply → Option Checkpoint → Result (Unit {0})
  check_cp chain reply none = ok tt
  check_cp chain reply (some checkpoint) = verify_cp_branch chain reply checkpoint

  unfoldable pub is_forked : Option HeaderChain → Bool
  is_forked none = false
  is_forked (some captured) = true

  -- `preFork ??= chain.captureState()`
  unfoldable pub capture : Option HeaderChain → HeaderChain → HeaderChain
  capture none chain = chain
  capture (some captured) chain = captured

  module _ (server : Transport) (options : SyncOptions) (clock : ℕ → ℕ) (server_tip : ℕ) where
    -- One step back, in memory.
    unfoldable pub step_back : SyncState → SyncState × Result (Unit {0})
    unfolding capture
    step_back s =
        let forked = record s {
          pre_fork = some (capture s.pre_fork s.chain);
          rewinds = s.rewinds + 1;
        } in
        let tip = tip_height config s.chain in
        let height = (if ltb (tip - 1) config.base_height then config.base_height else tip - 1) in
        elim (truncate_to config false height s.chain) [
          | ok cut ↦ (record forked { chain = cut }, ok tt)
          | err e ↦ (forked, err e)
        ]

    -- Only the evidence of a reorganization steps back, and only so often.
    unfoldable pub on_refusal : SyncState → Error → SyncState × Result (Unit {0})
    on_refusal s e =
        if is_reorg e && ltb s.rewinds options.max_reorg_depth then step_back s else (s, err e)

    unfoldable pub add_batch :
        ℕ → SyncState → Option Checkpoint → Reply → List ℕ → SyncState × Result (Unit {0})
    unfolding is_forked
    add_batch i s cp reply raw =
        elim (append_batch config sha256 (clock i) (not (is_forked s.pre_fork)) raw s.chain) [
          | ok grown ↦ (record s { chain = grown }, check_cp grown reply cp)
          | err e ↦ on_refusal s e
        ]

    unfoldable pub round : ℕ → SyncState → SyncState × Result (Unit {0})
    unfolding use_cp cp_height
    round i s =
        let tip = tip_height config s.chain in
        let start = tip + 1 in
        let count = min options.batch_size (server_tip - tip) in
        let cp = use_cp options.checkpoint (start + count - 1) in
        elim (server.block_headers i start count (cp_height cp)) [
          | ok reply ↦ elim (decode_reply count reply) [
            | ok raw ↦ add_batch i s cp reply raw
            | err e ↦ (s, err e)
          ]
          | err e ↦ (s, err e)
        ]

    -- `while (chain.tipHeight < serverTip)`; `fuel` bounds the rounds.
    unfoldable pub sync_loop : ℕ → ℕ → SyncState → SyncState × Result (Unit {0})
    sync_loop zero i s = (s, throw "out of fuel")
    sync_loop (suc fuel) i s = elim (ltb (tip_height config s.chain) server_tip) [
      | false ↦ (s, ok tt)
      | true ↦
          let after = round i s in
          elim after.1 [ ok done ↦ sync_loop fuel (i + 1) after.0 | err e ↦ (after.0, err e) ]
    ]

    -- What the loop left is restored after a refusal, and adopted if it carries more work.
    unfoldable pub restored : Option HeaderChain → HeaderChain → HeaderChain
    restored none chain = chain
    restored (some captured) chain = restore_state config captured chain

    unfoldable pub adopt : ℕ → SyncState → Option HeaderChain → HeaderChain × Result SyncResult
    adopt start s none = (
      s.chain,
      ok (record { tip = tip_height config s.chain; added = tip_height config s.chain - start }),
    )
    adopt start s (some captured) =
        let flushed = flush config s.chain in
        if ltb captured.work s.chain.work
        then (
          flushed,
          ok (record {
            tip = tip_height config flushed;
            added = tip_height config flushed - start;
          }),
        )
        else (restore_state config captured s.chain, throw "reorg rejected")

    unfoldable pub finish : ℕ → SyncState → Result (Unit {0}) → HeaderChain × Result SyncResult
    unfolding restored adopt
    finish start s (ok done) = adopt start s s.pre_fork
    finish start s (err e) = (restored s.pre_fork s.chain, err e)

    -- Enough rounds: the gap to the server's tip, and two for each step back.
    abbrev pub enough_fuel : HeaderChain → ℕ
    enough_fuel chain = server_tip - tip_height config chain + 2 * options.max_reorg_depth + 1

    unfoldable pub sync_from : HeaderChain → HeaderChain × Result SyncResult
    unfolding finish
    sync_from chain =
        let start : SyncState = record { chain = chain; pre_fork = none; rewinds = 0 } in
        let (s, result) = sync_loop (enough_fuel chain) 0 start in
        finish (tip_height config chain) s result

  unfoldable pub sync_headers :
      Transport → SyncOptions → (ℕ → ℕ) → HeaderChain → HeaderChain × Result SyncResult
  sync_headers server options clock chain = elim (server.version >> server.subscribe) [
    | ok server_tip ↦ sync_from server options clock server_tip chain
    | err e ↦ (chain, err e)
  ]
