-- ===== src/Fetch/HeaderTrust.antt =====
-- `makeHeaderTrust` and `checkpointTrustHeader` of packages/fetch/src/headertrust.ts. An attester is its
-- base URL with what it answers, `none` where the query fails. `normalizeBaseUrl` rests on the
-- platform's URL parser and is a parameter. Confirmations are compared as `tip + 1` against
-- `height + min`, since the difference may be negative.
pub mod Vote
pub mod Anchored
use ordspv.Common.{
  ℕ, zero, suc, ◌+◌, ◌-◌, ◌*◌, ◌/◌, Bool, true, false, not, ◌&&◌, ◌||◌, List, [], ◌∷◌, ◌++◌, map,
  Option, none, some, Error, header_trust, header_trust_disagreement, Result, ok, err, require,
  ◌>>=◌, ◌>>◌, ltb, leb, ◌==◌, if◌then◌else◌, length, get_elem?,
}
use ordspv.Bytes.Hex.{bytes_equal}
use ordspv.Bytes.Reader.{max_safe_integer}
use ordspv.Custody.Bundle.{HeaderAttestation, nothing_said, hash_at_height}
use ordspv.Fetch.HeaderChain.{sort_times}
use ordspv.Header.Parse.{BlockHeader, mainnet_pow_limit_bits}
use ordspv.Header.Target.{bits_to_target}
use ordspv.Text.{trim, to_lower_case, is_digit, is_decimal, decimal_value}

pub record Attester : Type 0 where
  pub base_url : List ℕ
  pub block_hash_at : ℕ → Option (List ℕ)
  pub tip : Option (List ℕ)

pub data OnDisagreement : Type 0 where
  throws flags : OnDisagreement

pub record HeaderTrustOptions : Type 0 where
  pub esploras : List Attester
  pub min_agreement : Option ℕ
  pub checkpoints : ℕ → Option (List ℕ)
  pub min_confirmations : ℕ
  pub on_disagreement : OnDisagreement
  pub proof_source : Option (List ℕ)
  pub proof_sources : List (List ℕ)
  pub pow_limit_bits : Option ℕ

pub record HeaderTrustReport : Type 0 where
  pub checkpoint_hit : Bool
  pub sources_queried : ℕ
  pub sources_agreed : ℕ
  pub sources_disagreed : ℕ
  pub sources_unreachable : ℕ
  pub sources_malformed : ℕ
  pub disagreements : List (List ℕ × List ℕ)
  pub malformed : List (List ℕ × ℕ)
  pub independent_sources : ℕ
  pub builder_is_source : Bool
  pub anchored : Bool
  pub attests : HeaderAttestation
  pub tip_height : Option ℕ
  pub tips_queried : Option ℕ
  pub tips_answered : Option ℕ
  pub anchored_by_sync : Bool

-- `/^[0-9a-f]{64}$/`
unfoldable pub all_lower_hex : List ℕ → Bool
all_lower_hex [] = true
all_lower_hex (c ∷ s) = (is_digit c || (leb b'a' c && leb c b'f')) && all_lower_hex s

unfoldable pub is_block_hash : List ℕ → Bool
unfolding all_lower_hex
is_block_hash s = (length s == 64) && all_lower_hex s

unfoldable pub tip_height_from : List ℕ → Option ℕ
tip_height_from text =
    if is_decimal text && leb (decimal_value text) max_safe_integer
    then some (decimal_value text)
    else none

-- The answers in their four buckets.
pub record Tally : Type 0 where
  pub agreed : ℕ
  pub unreachable : ℕ
  pub disagreements : List (List ℕ × List ℕ)
  pub malformed : List (List ℕ × ℕ)

abbrev pub empty_tally : Tally
empty_tally = record { agreed = 0; unreachable = 0; disagreements = []; malformed = [] }

unfoldable pub add_answer : List ℕ → List ℕ → Option (List ℕ) → Tally → Tally
unfolding is_block_hash
add_answer hash base_url none t = record t { unreachable = t.unreachable + 1 }
add_answer hash base_url (some text) t =
    let value = to_lower_case (trim text) in
    if not (is_block_hash value)
    then record t { malformed = t.malformed ++ ((base_url, length value) ∷ []) }
    else (if not (bytes_equal value hash)
        then record t { disagreements = t.disagreements ++ ((base_url, value) ∷ []) }
        else record t { agreed = t.agreed + 1 })

unfoldable pub tally_loop : List ℕ → ℕ → List Attester → Tally → Tally
tally_loop hash height [] t = t
tally_loop hash height (e ∷ es) t =
    tally_loop hash height es (add_answer hash e.base_url (e.block_hash_at height) t)

unfoldable pub contains : List ℕ → List (List ℕ) → Bool
contains s [] = false
contains s (t ∷ ts) = bytes_equal t s || contains s ts

-- The tips that are heights.
unfoldable pub tips_of : List Attester → List ℕ
tips_of [] = []
tips_of (e ∷ es) = elim e.tip [
  | none ↦ tips_of es
  | some text ↦ elim (tip_height_from (trim text)) [ none ↦ tips_of es | some h ↦ h ∷ tips_of es ]
]

unfoldable pub expect_checkpoint : Option (List ℕ) → BlockHeader → Result Bool
expect_checkpoint none header = ok false
expect_checkpoint (some checkpoint) header = do
  require (bytes_equal checkpoint header.hash) (header_trust "contradicts checkpoint")
  ok true

-- `checkpointTrustHeader`
unfoldable pub checkpoint_trust_header :
    (ℕ → Option (List ℕ)) → BlockHeader → ℕ → Result HeaderAttestation
unfolding expect_checkpoint
checkpoint_trust_header checkpoints header height = do
  hit ← expect_checkpoint (checkpoints height) header
  ok (if hit then hash_at_height else nothing_said)

module _ (normalize_base_url : List ℕ → List ℕ) where
  -- The base URLs that served bytes for the bundle.
  unfoldable pub serving : HeaderTrustOptions → List (List ℕ)
  serving options =
      map normalize_base_url options.proof_sources
      ++ (elim options.proof_source [ none ↦ [] | some source ↦ normalize_base_url source ∷ [] ])

  -- The attesters that did not serve the bundle, each endpoint once.
  unfoldable pub attesters_loop : List (List ℕ) → List (List ℕ) → List Attester → List Attester
  attesters_loop served seen [] = []
  attesters_loop served seen (e ∷ es) =
      let base = normalize_base_url e.base_url in
      let skip = attesters_loop served seen es in
      let keep = e ∷ attesters_loop served (base ∷ seen) es in
      if contains base served || contains base seen then skip else keep

  unfoldable pub attesters : HeaderTrustOptions → List Attester
  attesters options = attesters_loop (serving options) [] options.esploras

  unfoldable pub required : HeaderTrustOptions → ℕ
  required options = elim options.min_agreement [ none ↦ 2 | some n ↦ n ]

  -- Phase (b): tips are asked for when a depth is enforced.
  unfoldable pub confirm : HeaderTrustOptions → ℕ → List Attester → Result (Option (ℕ × ℕ))
  confirm options height es =
      let tips = sort_times (tips_of es) in
      let enforced : Result (Option (ℕ × ℕ)) = (elim (get_elem? tips (length tips / 2)) [
        | none ↦ err (header_trust "no attester stated a usable tip height")
        | some tip ↦ do
          require (not (ltb (tip + 1) (height + options.min_confirmations)))
              (header_trust "not enough confirmations")
          ok (some (tip, length tips))
      ]) in
      if ltb 0 options.min_confirmations then enforced else ok none

  unfoldable pub refuses : OnDisagreement → Bool
  refuses throws = true
  refuses flags = false

  unfoldable pub tip_of : Option (ℕ × ℕ) → Option ℕ
  tip_of none = none
  tip_of (some (tip, answered)) = some tip

  unfoldable pub answered_of : Option (ℕ × ℕ) → Option ℕ
  answered_of none = none
  answered_of (some (tip, answered)) = some answered

  unfoldable pub queried_of : ℕ → Option (ℕ × ℕ) → Option ℕ
  queried_of n none = none
  queried_of n (some (tip, answered)) = some n

  unfoldable pub vote : HeaderTrustOptions → BlockHeader → ℕ → Result HeaderTrustReport
  unfolding refuses tip_of answered_of queried_of required
  vote options header height = do
    let es = attesters options
    let t = tally_loop header.hash height es empty_tally
    require (not (ltb 0 (length t.disagreements) && refuses options.on_disagreement))
        header_trust_disagreement
    require (not (ltb t.agreed (required options))) (header_trust "not independently anchored")
    depth ← confirm options height es
    ok (record {
      checkpoint_hit = false;
      sources_queried = length es;
      sources_agreed = t.agreed;
      sources_disagreed = length t.disagreements;
      sources_unreachable = t.unreachable;
      sources_malformed = length t.malformed;
      disagreements = t.disagreements;
      malformed = t.malformed;
      independent_sources = t.agreed;
      builder_is_source = ltb 0 (length (serving options));
      anchored = true;
      attests = if ltb 0 (length t.disagreements) then nothing_said else hash_at_height;
      tip_height = tip_of depth;
      tips_queried = queried_of (length es) depth;
      tips_answered = answered_of depth;
      anchored_by_sync = false;
    })

  unfoldable pub checkpoint_report : HeaderTrustOptions → HeaderTrustReport
  checkpoint_report options = record {
    checkpoint_hit = true;
    sources_queried = 0;
    sources_agreed = 0;
    sources_disagreed = 0;
    sources_unreachable = 0;
    sources_malformed = 0;
    disagreements = [];
    malformed = [];
    independent_sources = 0;
    builder_is_source = ltb 0 (length (serving options));
    anchored = true;
    attests = hash_at_height;
    tip_height = none;
    tips_queried = none;
    tips_answered = none;
    anchored_by_sync = false;
  }

  unfoldable pub check_limit : Option ℕ → BlockHeader → Result (Unit {0})
  check_limit none header = ok tt
  check_limit (some limit) header = do
    target ← bits_to_target header.bits
    easiest ← bits_to_target limit
    require (leb target easiest) (header_trust "target is easier than the proof-of-work limit")

  unfoldable pub check_header : HeaderTrustOptions → BlockHeader → ℕ → Result HeaderTrustReport
  unfolding check_limit checkpoint_report
  check_header options header height = do
    check_limit options.pow_limit_bits header
    hit ← expect_checkpoint (options.checkpoints height) header
    if hit then ok (checkpoint_report options) else vote options header height

  -- The checker that `makeHeaderTrust` returns, applied: a threshold of 0 is refused at construction.
  unfoldable pub make_header_trust : HeaderTrustOptions → BlockHeader → ℕ → Result HeaderTrustReport
  unfolding required
  make_header_trust options header height = do
    require (leb 1 (required options)) (header_trust "minAgreement is not 1 or more")
    check_header options header height
