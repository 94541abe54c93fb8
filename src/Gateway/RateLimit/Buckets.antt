-- ===== src/Gateway/RateLimit/Buckets.antt =====
-- What the keys of packages/gateway/src/ratelimit.ts hold: each key has a bucket of its own, whether
-- the map still has an entry for it or the sweep took it.
use ordspv.Common.{
  ℕ, ◌+◌, ◌-◌, ◌*◌, ◌≤◌, min, ◌≡◌, refl, sym, false, Bool-cases, inl, inr, List, Option, none, some,
  Option-cases, ltb, length, arith,
}
use ordspv.Dict.{
  Dict, IsDistinct, lookup, keep, lookup-keep, lookup-keep-none, keep-IsDistinct, length-keep-le,
}
use ordspv.Gateway.RateLimit.{Bucket, Limits, Limiter, effective, is_kept, maybe_sweep}

-- A bucket's tokens at a time, in thousandths; a key without an entry has a full bucket.
unfoldable pub held : Limits → ℕ → Option Bucket → ℕ
unfolding effective
held limits t none = limits.burst * 1000
held limits t (some bucket) = min (limits.burst * 1000) (effective limits t bucket)

abbrev pub level : Limiter → List ℕ → ℕ → ℕ
level limiter key t = held limiter.limits t (lookup key limiter.buckets)

-- A bucket that the sweep drops is full from then on.
dropped_full :
    (limits : Limits) (t later : ℕ) (bucket : Bucket)
    → is_kept limits t bucket ≡ false
    → t ≤ later
    → held limits later (some bucket) ≡ limits.burst * 1000
unfolding is_kept held effective
dropped_full limits t later bucket h le =
    let full : limits.burst * 1000
        ≤ bucket.tokens + (t - bucket.last_refill) * limits.rate_per_sec =
      ground arith in
    grind arith

keep-held :
    (limits : Limits) (t later : ℕ) (key : List ℕ) (buckets : Dict Bucket)
    → IsDistinct buckets
    → t ≤ later
    → held limits later (lookup key (keep (is_kept limits t) buckets))
      ≡ held limits later (lookup key buckets)
keep-held limits t later key buckets d le = elim (Option-cases (lookup key buckets)) [
  | inl absent ↦ rw (absent, lookup-keep-none (is_kept limits t) key buckets absent) refl
  | inr (b, present) ↦ elim (Bool-cases (is_kept limits t b)) [
    | inl kept ↦ rw (lookup-keep (is_kept limits t) key buckets d present, present, kept) refl
    | inr gone ↦
        rw (lookup-keep (is_kept limits t) key buckets d present, present, gone)
          (unfold held in sym (dropped_full limits t later b gone le))
  ]
]

-- The sweep changes what no key holds.
pub maybe_sweep-level :
    (limiter : Limiter) (t later : ℕ) (key : List ℕ)
    → IsDistinct limiter.buckets
    → t ≤ later
    → level (maybe_sweep t limiter) key later ≡ level limiter key later
unfolding maybe_sweep
maybe_sweep-level limiter t later key d le =
    elim (Bool-cases (ltb (t - limiter.last_sweep) 60_000)) [
      | inl early ↦ rw early refl
      | inr due ↦ rw due (keep-held limiter.limits t later key limiter.buckets d le)
    ]

pub maybe_sweep-IsDistinct :
    (limiter : Limiter) (t : ℕ)
    → IsDistinct limiter.buckets
    → IsDistinct (maybe_sweep t limiter).buckets
unfolding maybe_sweep
maybe_sweep-IsDistinct limiter t d = elim (Bool-cases (ltb (t - limiter.last_sweep) 60_000)) [
  | inl early ↦ rw early d
  | inr due ↦ rw due (keep-IsDistinct (is_kept limiter.limits t) limiter.buckets d)
]

pub maybe_sweep-length :
    (limiter : Limiter) (t : ℕ) → length (maybe_sweep t limiter).buckets ≤ length limiter.buckets
unfolding maybe_sweep
maybe_sweep-length limiter t = elim (Bool-cases (ltb (t - limiter.last_sweep) 60_000)) [
  | inl early ↦ rw early (omega arith)
  | inr due ↦ rw due (length-keep-le (is_kept limiter.limits t) limiter.buckets)
]

pub maybe_sweep-limits :
    (limiter : Limiter) (t : ℕ) → (maybe_sweep t limiter).limits ≡ limiter.limits
unfolding maybe_sweep
maybe_sweep-limits limiter t = ground arith
