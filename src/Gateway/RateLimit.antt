-- ===== src/Gateway/RateLimit.antt =====
-- `TokenBucketLimiter` of packages/gateway/src/ratelimit.ts. A clock reading is a number of milliseconds
-- that the caller passes. Tokens are counted in thousandths, so that a refill of `elapsed / 1000 *
-- ratePerSec` tokens is `elapsed * rate` of them. This differs from the source in two ways. The source
-- computes in doubles, whose rounding can leave a bucket just below the whole token that it has here.
-- And where the clock steps back, the source takes tokens away for the negative time, while here
-- `t - bucket.last_refill` stops at 0; the theorems ask for a clock that does not run back.
pub mod Buckets
pub mod Spend
pub mod Rate
use ordspv.Common.{
  ℕ, suc, ◌+◌, ◌-◌, ◌*◌, ◌/◌, min, Bool, true, false, not, ◌&&◌, List, [], ◌∷◌, Option, none, some,
  leb, ltb, if◌then◌else◌, length,
}
use ordspv.Dict.{Dict, lookup, delete, put, keep}

pub record Bucket : Type 0 where
  pub tokens : ℕ
  pub last_refill : ℕ

pub record Limits : Type 0 where
  pub rate_per_sec : ℕ
  pub burst : ℕ
  pub max_tracked_keys : ℕ

pub record Limiter : Type 0 where
  pub limits : Limits
  pub buckets : Dict Bucket
  pub last_sweep : ℕ

unfoldable pub new : Limits → ℕ → Limiter
new limits now = record { limits = limits; buckets = []; last_sweep = now }

-- What a bucket holds after the time since its refill, without the cap: exact thousandths, for a reading
-- that is not before the refill.
unfoldable pub effective : Limits → ℕ → Bucket → ℕ
effective limits t bucket = bucket.tokens + (t - bucket.last_refill) * limits.rate_per_sec

-- `bucket.lastRefill < t - 120000`, where the cutoff may be negative.
unfoldable pub is_kept : Limits → ℕ → Bucket → Bool
unfolding effective
is_kept limits t bucket =
    not (
      ltb (bucket.last_refill + 120_000) t && leb (limits.burst * 1000) (effective limits t bucket))

unfoldable pub maybe_sweep : ℕ → Limiter → Limiter
unfolding is_kept
maybe_sweep t limiter = if ltb (t - limiter.last_sweep) 60_000 then limiter else record limiter {
  buckets = keep (is_kept limiter.limits t) limiter.buckets;
  last_sweep = t;
}

-- The map without its first entry.
unfoldable pub drop_oldest : Dict Bucket → Dict Bucket
drop_oldest [] = []
drop_oldest (b ∷ bs) = bs

-- `if (this.buckets.size >= this.maxTrackedKeys) ...`
unfoldable pub make_room : Limits → Dict Bucket → Dict Bucket
unfolding drop_oldest
make_room limits buckets =
    if leb limits.max_tracked_keys (length buckets) then drop_oldest buckets else buckets

-- The bucket of the key, refilled, and the map that holds it.
unfoldable pub refill : List ℕ → ℕ → Limits → Dict Bucket → Option Bucket → Dict Bucket × Bucket
unfolding make_room effective
refill key t limits buckets none =
    (make_room limits buckets, record { tokens = limits.burst * 1000; last_refill = t })
refill key t limits buckets (some bucket) = (
  buckets,
  record { tokens = min (limits.burst * 1000) (effective limits t bucket); last_refill = t },
)

unfoldable pub spend : Bucket → Bucket × Bool
spend bucket =
    if ltb bucket.tokens 1000
    then (bucket, false)
    else (record bucket { tokens = bucket.tokens - 1000 }, true)

-- A bucket is mutated in place, which is one `put` of its final value.
unfoldable pub take_swept : List ℕ → ℕ → Limiter → Limiter × Bool
unfolding refill spend
take_swept key t limiter =
    let (buckets, bucket) =
      refill key t limiter.limits limiter.buckets (lookup key limiter.buckets) in
    let (spent, allowed) = spend bucket in
    (record limiter { buckets = put key spent buckets }, allowed)

unfoldable pub take : List ℕ → ℕ → Limiter → Limiter × Bool
take key t limiter = take_swept key t (maybe_sweep t limiter)

-- `Math.ceil((1 - tokens) / ratePerSec)`; a rate of 0 makes it `Infinity`, here 0.
unfoldable pub wait_for : Limits → Option Bucket → ℕ
wait_for limits none = 0
wait_for limits (some bucket) =
    let rate = limits.rate_per_sec * 1000 in
    if leb 1000 bucket.tokens then 0 else (1000 - bucket.tokens + (rate - 1)) / rate

unfoldable pub retry_after_seconds : List ℕ → Limiter → ℕ
unfolding wait_for
retry_after_seconds key limiter = wait_for limiter.limits (lookup key limiter.buckets)
