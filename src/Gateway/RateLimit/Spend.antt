-- ===== src/Gateway/RateLimit/Spend.antt =====
-- What `take` of packages/gateway/src/ratelimit.ts does to the buckets, and the rate that it admits.
use ordspv.Common.{
  ℕ, ◌+◌, ◌-◌, ◌*◌, ◌≤◌, ◌<◌, min, ◌≡◌, refl, ap, Bool, true, false, Bool-cases, inl, inr, List,
  Option, none, some, Option-cases, leb, ltb, if◌then◌else◌, length, arith,
}
use ordspv.Bytes.Hex.{bytes_equal}
use ordspv.Dict.{Dict, IsDistinct, lookup, put, lookup-put}
use ordspv.Gateway.RateLimit.{
  Bucket, Limits, Limiter, effective, maybe_sweep, make_room, refill, spend, take_swept, take,
}
use ordspv.Gateway.RateLimit.Buckets.{
  held, level, maybe_sweep-level, maybe_sweep-length, maybe_sweep-limits,
}

-- The refilled bucket holds what the key holds now, and room is not made while there is some.
refill-held :
    (key : List ℕ) (t : ℕ) (limits : Limits) (buckets : Dict Bucket)
    → length buckets < limits.max_tracked_keys
    → refill key t limits buckets (lookup key buckets)
      ≡ (buckets, record { tokens = held limits t (lookup key buckets); last_refill = t })
unfolding refill make_room held
refill-held key t limits buckets room = elim (Option-cases (lookup key buckets)) [
  | inl absent ↦ rw absent (ground arith)
  | inr (b, present) ↦ rw present refl
]

pub held-full :
    (limits : Limits) (t : ℕ) (o : Option Bucket) → held limits t o ≤ limits.burst * 1000
unfolding held
held-full limits t none = omega arith
held-full limits t (some b) = omega arith

abbrev pub taken : Bool → ℕ
taken true = 1000
taken false = 0

abbrev pub fresh_level : Limiter → List ℕ → ℕ → ℕ → ℕ
fresh_level limiter key t later =
    let now = level limiter key t in
    min (limiter.limits.burst * 1000)
      (now - taken (leb 1000 now) + (later - t) * limiter.limits.rate_per_sec)

spend_lem :
    (tokens t : ℕ)
    → spend (record { tokens = tokens; last_refill = t })
      ≡ (record { tokens = tokens - taken (leb 1000 tokens); last_refill = t }, leb 1000 tokens)
unfolding spend
spend_lem tokens t = elim (Bool-cases (leb 1000 tokens)) [
  | inl enough ↦ let e : ltb tokens 1000 ≡ false = ground arith in rw (enough, e) refl
  | inr short ↦
      let e : ltb tokens 1000 ≡ true = ground arith in
      let z : tokens - 0 ≡ tokens = omega arith in rw (short, e) (rw z refl)
]

take_swept_lem :
    (key : List ℕ) (t : ℕ) (limiter : Limiter)
    → length limiter.buckets < limiter.limits.max_tracked_keys
    → let now = level limiter key t in
      take_swept key t limiter ≡ (
        record limiter {
          buckets =
              put key
                (record { tokens = now - taken (leb 1000 now); last_refill = t })
                limiter.buckets;
        },
        leb 1000 now,
      )
unfolding take_swept
take_swept_lem key t limiter room =
    rw (refill-held key t limiter.limits limiter.buckets room, spend_lem (level limiter key t) t)
      refl

-- While fewer keys are tracked than the cap, `take` allows a request exactly when the key's bucket
-- holds a token, takes that token from this bucket, and leaves what every other key holds at any
-- later time as it was.
pub take-level :
    (key j : List ℕ) (t later : ℕ) (limiter : Limiter)
    → IsDistinct limiter.buckets
    → length limiter.buckets < limiter.limits.max_tracked_keys
    → t ≤ later
    → ((take key t limiter).1 ≡ leb 1000 (level limiter key t))
      × (level (take key t limiter).0 j later
          ≡ (if bytes_equal key j then fresh_level limiter key t later else level limiter j later))
unfolding take
take-level key j t later limiter d room le =
    let swept = maybe_sweep t limiter in
    let same = maybe_sweep-limits limiter t in
    let sized : length swept.buckets < swept.limits.max_tracked_keys =
      rw same (omega (arith, maybe_sweep-length limiter t)) in
    let now = maybe_sweep-level limiter t t key d (omega arith) in
    let other = maybe_sweep-level limiter t later j d le in
    rw (take_swept_lem key t swept sized, lookup-put key j)
      (
        ap (leb 1000) now,
        elim (Bool-cases (bytes_equal key j)) [
          | inl e ↦ rw e (unfold held effective in rw (now, same) refl)
          | inr e ↦ rw e other
        ],
      )
