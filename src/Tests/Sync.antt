-- ===== src/Tests/Sync.antt =====
-- The theorems on the header chain, its sync and header trust at concrete inputs.
use ordspv.Common.{
  ltb, ◌&&◌, ℕ, ◌+◌, ◌/◌, ◌≤◌, ◌<◌, ◌≡◌, refl, ◌⊎◌, true, false, List, [], ◌∷◌, ◌++◌, none, some,
  ok, length, ◌==◌, if◌then◌else◌,
}
use ordspv.Common.Int.{pos}
use ordspv.Bytes.Hex.{bytes_to_hex, hex_to_bytes}
use ordspv.Header.Parse.{BlockHeader, parse_header}
use ordspv.Fetch.HeaderChain.{
  ChainConfig, HeaderChain, tip_height, header_at, append_batch, truncate_to, open_chain,
  raw_headers,
}
use ordspv.Fetch.HeaderChain.Methods.{append_batch-IsValid}
use ordspv.Fetch.HeaderChain.Open.{IsChecked, Loaded, open_chain-IsChecked}
use ordspv.Fetch.HeaderChain.Staged.{IsParseOf}
use ordspv.Fetch.HeaderChain.Valid.{IsValid}
use ordspv.Fetch.HeaderSync.{
  Reply, Transport, SyncOptions, SyncResult, SyncState, enough_fuel, sync_loop, sync_headers,
}
use ordspv.Fetch.HeaderSync.Ends.{sync_loop_fuel}
use ordspv.Fetch.HeaderSync.MostWork.{Extends, sync_headers-MostWork}
use ordspv.Fetch.HeaderSync.Reaches.{sync_headers-AtTip}
use ordspv.Fetch.HeaderTrust.{
  Attester, HeaderTrustOptions, HeaderTrustReport, throws, make_header_trust,
}
use ordspv.Fetch.SyncTrust.{header_sync_trust, sync_report}
use ordspv.Tests.Toy.{zero_hash, as_is, zeros, zero_txid, header_raw, header_hex, ok_value}

abbrev config : ChainConfig
config = record {
  base_height = 0;
  params = record {
    retarget_interval = 2016;
    target_timespan = 1209600;
    pow_limit_bits = 0x1d00ffff;
    no_retarget = false;
  };
  checkpoints = λ h. none;
  has_file = true;
}

abbrev no_chain : HeaderChain
no_chain = record { headers = []; work = 0; dirty = false; disk = [] }

abbrev opened : HeaderChain
opened = ok_value (open_chain config zero_hash 100 header_hex none) no_chain

abbrev chain : HeaderChain
chain = ok_value (append_batch config zero_hash 100 true (header_raw ++ header_raw) opened) no_chain

abbrev cut : HeaderChain
cut = ok_value (truncate_to config true 1 chain) no_chain

abbrev rival_hex : List ℕ
rival_hex = bytes_to_hex (
    (1 ∷ 0 ∷ 0 ∷ 0 ∷ [])
    ++ ((9 ∷ zeros 63) ++ (zeros 4 ++ ((0xff ∷ 0xff ∷ 0 ∷ 0x1d ∷ []) ++ zeros 4))))

abbrev batch : List ℕ → ℕ → List ℕ
batch hex ℕ.zero = []
batch hex (ℕ.suc n) = hex ++ batch hex n

-- The first answer does not link to the tip, so that the sync steps back.
abbrev server : Transport
server = record {
  version = ok tt;
  subscribe = ok 3;
  block_headers = λ i start count cp. ok (record {
    hex = batch (if i == 0 then rival_hex else header_hex) count;
    count = count;
    root = none;
    branch = none;
  });
}

abbrev options : SyncOptions
options = record { batch_size = 2; max_reorg_depth = 10; checkpoint = none }

abbrev no_result : SyncResult
no_result = record { tip = 0; added = 0 }

abbrev after_sync : SyncResult
after_sync = ok_value (sync_headers config zero_hash server options (λ i. 100) chain).1 no_result

runs :
    (open_chain config zero_hash 100 header_hex none ≡ ok opened)
    × (append_batch config zero_hash 100 true (header_raw ++ header_raw) opened ≡ ok chain)
    × (truncate_to config true 1 chain ≡ ok cut)
    × (opened.disk ≡ raw_headers opened.headers)
    × ((sync_headers config zero_hash server options (λ i. 100) chain).1 ≡ ok after_sync)
    × (length cut.headers ≡ 2)
unfolding ordspv.Bytes.Hex.is_hex_char ordspv.Bytes.Hex.all_hex ordspv.Bytes.Hex.hex_value
    ordspv.Bytes.Hex.hex_pairs ordspv.Bytes.Hex.hex_to_bytes ordspv.Bytes.Hex.hex_char
    ordspv.Bytes.Hex.bytes_to_hex ordspv.Bytes.Hex.display_to_internal
    ordspv.Bytes.Hex.internal_to_display ordspv.Bytes.Hex.same_bytes ordspv.Bytes.Hex.bytes_equal
    ordspv.Bytes.Hex.concat_bytes ordspv.Bytes.Order.le_bytes_to_big_int
    ordspv.Bytes.Order.be_bytes_to_big_int ordspv.Bytes.Order.to_le ordspv.Bytes.Order.to_int32
    ordspv.Bytes.Order.of_int32 ordspv.Bytes.Reader.remaining ordspv.Bytes.Reader.need
    ordspv.Bytes.Reader.read_bytes ordspv.Bytes.Reader.read_u8 ordspv.Bytes.Reader.peek_u8
    ordspv.Bytes.Reader.read_u16le ordspv.Bytes.Reader.read_u32le ordspv.Bytes.Reader.read_i32le
    ordspv.Bytes.Reader.read_u64le ordspv.Bytes.Reader.skip ordspv.Bytes.Reader.read_var_int_from
    ordspv.Bytes.Reader.read_var_int ordspv.Bytes.Reader.read_var_int_num
    ordspv.Bytes.Reader.read_many ordspv.Tx.Hash.sha256d ordspv.Tx.Hash.tagged_hash
    ordspv.Merkle.Tree.height_loop ordspv.Merkle.Tree.tree_height ordspv.Merkle.Tree.sibling_index
    ordspv.Merkle.Tree.sibling ordspv.Merkle.Tree.check_width ordspv.Merkle.Tree.check_level
    ordspv.Merkle.Tree.check_count ordspv.Merkle.Tree.hash_pair ordspv.Merkle.Tree.next_level
    ordspv.Merkle.Tree.root_loop ordspv.Merkle.Tree.compute_merkle_root
    ordspv.Merkle.Tree.plain_level ordspv.Merkle.Tree.branch_loop
    ordspv.Merkle.Tree.build_merkle_branch ordspv.Merkle.Tree.fold_branch
    ordspv.Merkle.Tree.verify_merkle_branch ordspv.Text.lower_char ordspv.Text.to_lower_case
    ordspv.Text.is_digit ordspv.Text.all_digits ordspv.Text.is_decimal
    ordspv.Text.is_canonical_decimal ordspv.Text.decimal_value ordspv.Text.decimal_loop
    ordspv.Text.to_decimal ordspv.Text.is_space ordspv.Text.trim_start ordspv.Text.trim
    ordspv.Header.Target.expand ordspv.Header.Target.bits_to_target ordspv.Header.Target.size_loop
    ordspv.Header.Target.byte_size ordspv.Header.Target.mantissa_of ordspv.Header.Target.pack
    ordspv.Header.Target.target_to_bits ordspv.Header.Target.work_from_bits
    ordspv.Header.Parse.read_header ordspv.Header.Parse.parse_header
    ordspv.Header.Parse.check_proof_of_work ordspv.Header.Parse.check_limit
    ordspv.Header.Parse.check_pow_limit ordspv.Fetch.HeaderChain.insert_time
    ordspv.Fetch.HeaderChain.sort_times ordspv.Fetch.HeaderChain.median_time_past
    ordspv.Fetch.HeaderChain.above_median ordspv.Fetch.HeaderChain.raw_headers
    ordspv.Fetch.HeaderChain.work_of ordspv.Fetch.HeaderChain.matches
    ordspv.Fetch.HeaderChain.check_checkpoint ordspv.Fetch.HeaderChain.expected_bits
    ordspv.Fetch.HeaderChain.check_next ordspv.Fetch.HeaderChain.tip_height
    ordspv.Fetch.HeaderChain.header_at ordspv.Fetch.HeaderChain.persist_all
    ordspv.Fetch.HeaderChain.append_to_file ordspv.Fetch.HeaderChain.rewrite_file
    ordspv.Fetch.HeaderChain.persist_staged ordspv.Fetch.HeaderChain.mark_dirty
    ordspv.Fetch.HeaderChain.truncate_to ordspv.Fetch.HeaderChain.flush
    ordspv.Fetch.HeaderChain.restore_state ordspv.Fetch.HeaderChain.stage
    ordspv.Fetch.HeaderChain.append_batch ordspv.Fetch.HeaderChain.new_chain
    ordspv.Fetch.HeaderChain.load ordspv.Fetch.HeaderChain.open_chain
    ordspv.Fetch.HeaderSync.is_reorg ordspv.Fetch.HeaderSync.decode_reply
    ordspv.Fetch.HeaderSync.non_empty ordspv.Fetch.HeaderSync.verify_cp_branch
    ordspv.Fetch.HeaderSync.use_cp ordspv.Fetch.HeaderSync.cp_height
    ordspv.Fetch.HeaderSync.check_cp ordspv.Fetch.HeaderSync.is_forked
    ordspv.Fetch.HeaderSync.capture ordspv.Fetch.HeaderSync.step_back
    ordspv.Fetch.HeaderSync.on_refusal ordspv.Fetch.HeaderSync.add_batch
    ordspv.Fetch.HeaderSync.round ordspv.Fetch.HeaderSync.sync_loop ordspv.Fetch.HeaderSync.restored
    ordspv.Fetch.HeaderSync.adopt ordspv.Fetch.HeaderSync.finish ordspv.Fetch.HeaderSync.sync_from
    ordspv.Fetch.HeaderSync.sync_headers ordspv.Fetch.SyncTrust.sync_report
    ordspv.Fetch.SyncTrust.expect_known ordspv.Fetch.SyncTrust.header_sync_trust
    ordspv.Fetch.SyncTrust.hash_root_loop ordspv.Fetch.SyncTrust.block_hash_merkle_root
runs = (refl, refl, refl, refl, refl, refl)

opened-IsValid : IsValid config opened
opened-IsValid =
    let (_, _, _, _, _, _, checked, _) =
      open_chain-IsChecked config zero_hash 100 header_hex none runs.0 in
    record { built = checked.0; counted = checked.1; saved = λ f d. runs.3 }

append_batch-IsValid_example :
    IsValid config chain
    × (staged : List BlockHeader) × (chain.headers ≡ opened.headers ++ staged)
    × IsParseOf zero_hash staged (header_raw ++ header_raw)
    × (length staged ≡ length (header_raw ++ header_raw) / 80)
    × (opened.work ≤ chain.work)
    × (chain.disk ≡ (
        if true && (config.has_file && ltb 0 (length staged))
        then raw_headers chain.headers
        else opened.disk))
append_batch-IsValid_example =
    append_batch-IsValid config zero_hash 100 true (header_raw ++ header_raw) opened runs.1
      opened-IsValid

chain-IsValid : IsValid config chain
chain-IsValid = append_batch-IsValid_example.0

open_chain-IsChecked_example :
    (raw : List ℕ) × (b : BlockHeader) × (rest : List BlockHeader) × (hex_to_bytes header_hex
      ≡ ok raw)
    × (parse_header zero_hash raw ≡ ok b)
    × (opened.headers ≡ b ∷ rest)
    × IsChecked config opened
    × Loaded zero_hash config.has_file none b rest
open_chain-IsChecked_example = open_chain-IsChecked config zero_hash 100 header_hex none runs.0

sync_headers-MostWork_example :
    let (after, result) = sync_headers config zero_hash server options (λ i. 100) chain in
    IsValid config after
    × (Extends chain after
        ⊎ ((chain.work < after.work) × (answer : SyncResult) × (result ≡ ok answer)))
sync_headers-MostWork_example =
    sync_headers-MostWork config zero_hash server options (λ i. 100) chain chain-IsValid

sync_headers-AtTip_example :
    let after = (sync_headers config zero_hash server options (λ i. 100) chain).0 in
    (3 ≤ tip_height config after) × (after_sync.tip ≡ tip_height config after)
sync_headers-AtTip_example =
    sync_headers-AtTip config zero_hash server options (λ i. 100) chain 3 after_sync refl runs.4

sync_loop_fuel_example :
    let start : SyncState = record { chain = chain; pre_fork = none; rewinds = 0 } in
    let fuel = enough_fuel config zero_hash server options (λ i. 100) 3 chain in
    sync_loop config zero_hash server options (λ i. 100) 3 (5 + fuel) 0 start
    ≡ sync_loop config zero_hash server options (λ i. 100) 3 fuel 0 start
sync_loop_fuel_example =
    sync_loop_fuel config zero_hash server options (λ i. 100) 3 chain 5 chain-IsValid

abbrev no_header : BlockHeader
no_header = record {
  version = pos 0;
  prev_block_le = [];
  prev_block = [];
  merkle_root_le = [];
  merkle_root = [];
  time = 0;
  bits = 0;
  nonce = 0;
  raw = [];
  hash_le = [];
  hash = [];
}

abbrev header : BlockHeader
header = ok_value (parse_header zero_hash header_raw) no_header

trusted : header_sync_trust config 2 chain header 1 ≡ ok (sync_report 2)
unfolding ordspv.Bytes.Hex.is_hex_char ordspv.Bytes.Hex.all_hex ordspv.Bytes.Hex.hex_value
    ordspv.Bytes.Hex.hex_pairs ordspv.Bytes.Hex.hex_to_bytes ordspv.Bytes.Hex.hex_char
    ordspv.Bytes.Hex.bytes_to_hex ordspv.Bytes.Hex.display_to_internal
    ordspv.Bytes.Hex.internal_to_display ordspv.Bytes.Hex.same_bytes ordspv.Bytes.Hex.bytes_equal
    ordspv.Bytes.Hex.concat_bytes ordspv.Bytes.Order.le_bytes_to_big_int
    ordspv.Bytes.Order.be_bytes_to_big_int ordspv.Bytes.Order.to_le ordspv.Bytes.Order.to_int32
    ordspv.Bytes.Order.of_int32 ordspv.Bytes.Reader.remaining ordspv.Bytes.Reader.need
    ordspv.Bytes.Reader.read_bytes ordspv.Bytes.Reader.read_u8 ordspv.Bytes.Reader.peek_u8
    ordspv.Bytes.Reader.read_u16le ordspv.Bytes.Reader.read_u32le ordspv.Bytes.Reader.read_i32le
    ordspv.Bytes.Reader.read_u64le ordspv.Bytes.Reader.skip ordspv.Bytes.Reader.read_var_int_from
    ordspv.Bytes.Reader.read_var_int ordspv.Bytes.Reader.read_var_int_num
    ordspv.Bytes.Reader.read_many ordspv.Tx.Hash.sha256d ordspv.Tx.Hash.tagged_hash
    ordspv.Merkle.Tree.height_loop ordspv.Merkle.Tree.tree_height ordspv.Merkle.Tree.sibling_index
    ordspv.Merkle.Tree.sibling ordspv.Merkle.Tree.check_width ordspv.Merkle.Tree.check_level
    ordspv.Merkle.Tree.check_count ordspv.Merkle.Tree.hash_pair ordspv.Merkle.Tree.next_level
    ordspv.Merkle.Tree.root_loop ordspv.Merkle.Tree.compute_merkle_root
    ordspv.Merkle.Tree.plain_level ordspv.Merkle.Tree.branch_loop
    ordspv.Merkle.Tree.build_merkle_branch ordspv.Merkle.Tree.fold_branch
    ordspv.Merkle.Tree.verify_merkle_branch ordspv.Text.lower_char ordspv.Text.to_lower_case
    ordspv.Text.is_digit ordspv.Text.all_digits ordspv.Text.is_decimal
    ordspv.Text.is_canonical_decimal ordspv.Text.decimal_value ordspv.Text.decimal_loop
    ordspv.Text.to_decimal ordspv.Text.is_space ordspv.Text.trim_start ordspv.Text.trim
    ordspv.Header.Target.expand ordspv.Header.Target.bits_to_target ordspv.Header.Target.size_loop
    ordspv.Header.Target.byte_size ordspv.Header.Target.mantissa_of ordspv.Header.Target.pack
    ordspv.Header.Target.target_to_bits ordspv.Header.Target.work_from_bits
    ordspv.Header.Parse.read_header ordspv.Header.Parse.parse_header
    ordspv.Header.Parse.check_proof_of_work ordspv.Header.Parse.check_limit
    ordspv.Header.Parse.check_pow_limit ordspv.Fetch.HeaderChain.insert_time
    ordspv.Fetch.HeaderChain.sort_times ordspv.Fetch.HeaderChain.median_time_past
    ordspv.Fetch.HeaderChain.above_median ordspv.Fetch.HeaderChain.raw_headers
    ordspv.Fetch.HeaderChain.work_of ordspv.Fetch.HeaderChain.matches
    ordspv.Fetch.HeaderChain.check_checkpoint ordspv.Fetch.HeaderChain.expected_bits
    ordspv.Fetch.HeaderChain.check_next ordspv.Fetch.HeaderChain.tip_height
    ordspv.Fetch.HeaderChain.header_at ordspv.Fetch.HeaderChain.persist_all
    ordspv.Fetch.HeaderChain.append_to_file ordspv.Fetch.HeaderChain.rewrite_file
    ordspv.Fetch.HeaderChain.persist_staged ordspv.Fetch.HeaderChain.mark_dirty
    ordspv.Fetch.HeaderChain.truncate_to ordspv.Fetch.HeaderChain.flush
    ordspv.Fetch.HeaderChain.restore_state ordspv.Fetch.HeaderChain.stage
    ordspv.Fetch.HeaderChain.append_batch ordspv.Fetch.HeaderChain.new_chain
    ordspv.Fetch.HeaderChain.load ordspv.Fetch.HeaderChain.open_chain
    ordspv.Fetch.HeaderSync.is_reorg ordspv.Fetch.HeaderSync.decode_reply
    ordspv.Fetch.HeaderSync.non_empty ordspv.Fetch.HeaderSync.verify_cp_branch
    ordspv.Fetch.HeaderSync.use_cp ordspv.Fetch.HeaderSync.cp_height
    ordspv.Fetch.HeaderSync.check_cp ordspv.Fetch.HeaderSync.is_forked
    ordspv.Fetch.HeaderSync.capture ordspv.Fetch.HeaderSync.step_back
    ordspv.Fetch.HeaderSync.on_refusal ordspv.Fetch.HeaderSync.add_batch
    ordspv.Fetch.HeaderSync.round ordspv.Fetch.HeaderSync.sync_loop ordspv.Fetch.HeaderSync.restored
    ordspv.Fetch.HeaderSync.adopt ordspv.Fetch.HeaderSync.finish ordspv.Fetch.HeaderSync.sync_from
    ordspv.Fetch.HeaderSync.sync_headers ordspv.Fetch.SyncTrust.sync_report
    ordspv.Fetch.SyncTrust.expect_known ordspv.Fetch.SyncTrust.header_sync_trust
    ordspv.Fetch.SyncTrust.hash_root_loop ordspv.Fetch.SyncTrust.block_hash_merkle_root
trusted = refl

abbrev attester : ℕ → Attester
attester name = record {
  base_url = name ∷ [];
  block_hash_at = λ h. some (zero_txid ++ (0x0a ∷ []));
  tip = none;
}

-- Two endpoints of three count: one of them served the bundle.
abbrev asked : HeaderTrustOptions
asked = record {
  esploras = attester 1 ∷ attester 2 ∷ attester 3 ∷ attester 2 ∷ [];
  min_agreement = none;
  checkpoints = λ h. none;
  min_confirmations = 0;
  on_disagreement = throws;
  proof_source = some (3 ∷ []);
  proof_sources = [];
  pow_limit_bits = some 0x1d00ffff;
}

abbrev no_report : HeaderTrustReport
no_report = sync_report 0

abbrev report : HeaderTrustReport
report = ok_value (make_header_trust as_is asked header 7) no_report
