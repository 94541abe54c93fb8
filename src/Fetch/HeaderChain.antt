-- ===== src/Fetch/HeaderChain.antt =====
-- `HeaderChain` of packages/fetch/src/headersync.ts. The headers stand base first. The persistence file
-- is the state's `disk`, the clock a reading `now` in seconds that the caller passes, and a checkpoint
-- map a function of the height. `chain` comes back changed from each method.
pub mod Valid
pub mod Staged
pub mod Methods
pub mod Open
use ordspv.Common.{
  ℕ, zero, suc, ◌+◌, ◌-◌, ◌*◌, ◌/◌, ◌%◌, Bool, true, false, not, ◌&&◌, List, [], ◌∷◌, ◌++◌, map,
  Option, none, some, Error, failure, reorg_link, Result, ok, err, throw, require, or_throw, ◌>>=◌,
  ◌>>◌, ltb, leb, ◌==◌, if◌then◌else◌, length, take, drop, get_elem?,
}
use ordspv.Bytes.Hex.{bytes_equal, hex_to_bytes, concat_bytes}
use ordspv.Bytes.Reader.{slice}
use ordspv.Header.Parse.{BlockHeader, parse_header, check_proof_of_work}
use ordspv.Header.Retarget.{ChainParams, calc_next_bits}
use ordspv.Header.Target.{work_from_bits}

pub record ChainConfig : Type 0 where
  pub base_height : ℕ
  pub params : ChainParams
  pub checkpoints : ℕ → Option (List ℕ)
  pub has_file : Bool

pub record HeaderChain : Type 0 where
  pub headers : List BlockHeader
  pub work : ℕ
  pub dirty : Bool
  pub disk : List ℕ

abbrev pub max_future_drift_seconds : ℕ
max_future_drift_seconds = 2 * 3600

abbrev pub mtp_window : ℕ
mtp_window = 11

abbrev pub last_of : List BlockHeader → Option BlockHeader
last_of hs = get_elem? hs (length hs - 1)

unfoldable pub insert_time : ℕ → List ℕ → List ℕ
insert_time t [] = t ∷ []
insert_time t (u ∷ times) = if ltb t u then t ∷ u ∷ times else u ∷ insert_time t times

-- `times.sort((a, b) => a - b)`
unfoldable pub sort_times : List ℕ → List ℕ
unfolding insert_time
sort_times [] = []
sort_times (t ∷ times) = insert_time t (sort_times times)

unfoldable pub median_time_past : List BlockHeader → Option ℕ
unfolding sort_times
median_time_past prev =
    if ltb (length prev) mtp_window
    then none
    else get_elem? (sort_times (map (λ h. h.time) (drop (length prev - mtp_window) prev)))
        (mtp_window / 2)

-- `mtp !== undefined && header.time <= mtp`
unfoldable pub above_median : Option ℕ → ℕ → Bool
above_median none time = true
above_median (some mtp) time = ltb mtp time

-- The bytes that the file holds for some headers.
unfoldable pub raw_headers : List BlockHeader → List ℕ
raw_headers hs = concat_bytes (map (λ h. h.raw) hs)

unfoldable pub work_of : List BlockHeader → Result ℕ
work_of [] = ok 0
work_of (h ∷ hs) = do w ← work_from_bits h.bits; rest ← work_of hs; ok (w + rest)

module _ (config : ChainConfig) where
  unfoldable pub matches : Option (List ℕ) → List ℕ → Bool
  matches none hash = true
  matches (some expected) hash = bytes_equal expected hash

  unfoldable pub check_checkpoint : ℕ → List ℕ → Result (Unit {0})
  unfolding matches
  check_checkpoint height hash =
      require (matches (config.checkpoints height) hash) (failure "contradicts checkpoint")

  unfoldable pub expected_bits : ℕ → List BlockHeader → BlockHeader → Result ℕ
  expected_bits height prev last =
      let interval = config.params.retarget_interval in
      let boundary = (do
        require (not (ltb height (interval + config.base_height)))
            (failure "cannot validate retarget: period start below base")
        first ← or_throw (get_elem? prev (height - interval - config.base_height)) "undefined"
        calc_next_bits last.bits first.time last.time config.params) in
      if config.params.no_retarget
      then ok last.bits
      else (if not (height % interval == 0) then ok last.bits else boundary)

  -- The tests of one header of a batch against the headers before it.
  unfoldable pub check_next : ℕ → Bool → List BlockHeader → BlockHeader → Result (Unit {0})
  unfolding above_median
  check_next max_time is_first prev header = do
    let height = config.base_height + length prev
    last ← or_throw (last_of prev) "undefined"
    require (bytes_equal header.prev_block last.hash)
        (if is_first then reorg_link else failure "header does not link")
    bits ← expected_bits height prev last
    require (header.bits == bits) (failure "header has other bits than consensus requires")
    enough ← check_proof_of_work header
    require enough (failure "header fails its own PoW target")
    require (above_median (median_time_past prev) header.time)
        (failure "header time <= median-time-past")
    require (leb header.time max_time) (failure "header time is in the future")
    check_checkpoint height header.hash

  unfoldable pub tip_height : HeaderChain → ℕ
  tip_height chain = config.base_height + length chain.headers - 1

  unfoldable pub header_at : ℕ → HeaderChain → Option BlockHeader
  header_at height chain =
      if ltb height config.base_height
      then none
      else get_elem? chain.headers (height - config.base_height)

  unfoldable pub persist_all : HeaderChain → HeaderChain
  persist_all chain =
      if config.has_file then record chain { disk = raw_headers chain.headers } else chain

  unfoldable pub append_to_file : List BlockHeader → HeaderChain → HeaderChain
  append_to_file staged chain =
      if config.has_file then record chain { disk = chain.disk ++ raw_headers staged } else chain

  -- `this.persistAll(); this.dirty = false`
  unfoldable pub rewrite_file : HeaderChain → HeaderChain
  unfolding persist_all
  rewrite_file chain = record (persist_all chain) { dirty = false }

  -- What becomes of the file when headers were added.
  unfoldable pub persist_staged : Bool → List BlockHeader → HeaderChain → HeaderChain
  unfolding rewrite_file append_to_file
  persist_staged persist staged chain =
      let grown = config.has_file && ltb 0 (length staged) in
      if not persist
      then (if grown then record chain { dirty = true } else chain)
      else (if grown
          then (if chain.dirty then rewrite_file chain else append_to_file staged chain)
          else chain)

  -- `if (this.file) this.dirty = true`
  unfoldable pub mark_dirty : HeaderChain → HeaderChain
  mark_dirty chain = if config.has_file then record chain { dirty = true } else chain

  -- Drop the headers above a height.
  unfoldable pub truncate_to : Bool → ℕ → HeaderChain → Result HeaderChain
  truncate_to persist height chain = do
    require (not (ltb height config.base_height)) (failure "cannot truncate below base")
    let keep = height - config.base_height + 1
    dropped ← work_of (drop keep chain.headers)
    let cut = record chain { headers = take keep chain.headers; work = chain.work - dropped }
    ok (
        if leb (length chain.headers) keep
        then chain
        else (if persist then rewrite_file cut else mark_dirty cut))

  unfoldable pub flush : HeaderChain → HeaderChain
  flush chain = if chain.dirty then rewrite_file chain else chain

  -- `restoreState` of what `captureState` took: memory only.
  unfoldable pub restore_state : HeaderChain → HeaderChain → HeaderChain
  restore_state captured chain = record chain {
    headers = captured.headers;
    work = captured.work;
    dirty = captured.dirty;
  }

  module _ (sha256 : List ℕ → List ℕ) where
    -- The loop over the headers of a batch, `n` of them left and the first of these at index `i`.
    unfoldable pub stage :
        ℕ → ℕ → ℕ → List ℕ → List BlockHeader → List BlockHeader → ℕ → Result (List BlockHeader × ℕ)
    stage max_time zero i raw headers staged staged_work = ok (staged, staged_work)
    stage max_time (suc n) i raw headers staged staged_work = do
      header ← parse_header sha256 (slice raw (i * 80) 80)
      check_next max_time (i == 0) (headers ++ staged) header
      w ← work_from_bits header.bits
      stage max_time n (i + 1) raw headers (staged ++ (header ∷ [])) (staged_work + w)

    unfoldable pub append_batch : ℕ → Bool → List ℕ → HeaderChain → Result HeaderChain
    append_batch now persist raw chain = do
      require (length raw % 80 == 0) (failure "batch length not a multiple of 80")
      (staged, staged_work) ←
          stage (now + max_future_drift_seconds) (length raw / 80) 0 raw chain.headers [] 0
      ok (
          persist_staged persist staged
            (record chain { headers = chain.headers ++ staged; work = chain.work + staged_work }))

    -- The constructor, of the base header's hex.
    unfoldable pub new_chain : List ℕ → List ℕ → Result HeaderChain
    new_chain header_hex disk = do
      require (config.base_height % config.params.retarget_interval == 0)
          (failure "base height is not a retarget boundary")
      raw ← hex_to_bytes header_hex
      base ← parse_header sha256 raw
      enough ← check_proof_of_work base
      require enough (failure "base header fails its own PoW")
      check_checkpoint config.base_height base.hash
      work ← work_from_bits base.bits
      ok (record { headers = base ∷ []; work = work; dirty = false; disk = disk })

    -- What is on the disk, if a file is there, is read back through the same tests.
    unfoldable pub load : ℕ → HeaderChain → Option (List ℕ) → Result HeaderChain
    unfolding persist_all
    load now chain none = ok (persist_all chain)
    load now chain (some raw) = do
      require (length raw % 80 == 0) (failure "length not a multiple of 80")
      require (not (ltb (length raw) 80)) (failure "missing base header")
      on_disk ← parse_header sha256 (take 80 raw)
      base ← or_throw (last_of chain.headers) "undefined"
      require (bytes_equal on_disk.hash base.hash)
          (failure "base header does not match configured base")
      loaded ← append_batch now false (drop 80 raw) chain
      ok (record loaded { dirty = false })

    unfoldable pub open_chain : ℕ → List ℕ → Option (List ℕ) → Result HeaderChain
    unfolding load
    open_chain now header_hex file = do
      chain ← new_chain header_hex (elim file [ none ↦ [] | some raw ↦ raw ])
      if config.has_file then load now chain file else ok chain
