-- ===== src/Gateway/RateLimit/Rate.antt =====
-- How many requests packages/gateway/src/ratelimit.ts lets through, and how many keys it tracks.
use ordspv.Common.{
  ℕ, zero, suc, ◌+◌, ◌-◌, ◌*◌, ◌≤◌, ◌<◌, min, ◌≡◌, ap, ◌&&◌, Bool-cases, inl, inr, List, [], ◌∷◌,
  Option, none, some, Option-cases, leb, leb→le, if◌then◌else◌, length, arith,
}
use ordspv.Bytes.Hex.{bytes_equal, bytes_equal_iff}
use ordspv.Dict.{Dict, IsDistinct, lookup, put, put-IsDistinct, length-put}
use ordspv.Gateway.RateLimit.{
  Bucket, Limits, Limiter, new, effective, maybe_sweep, drop_oldest, make_room, refill, take_swept,
  take,
}
use ordspv.Gateway.RateLimit.Buckets.{
  held, level, maybe_sweep-IsDistinct, maybe_sweep-length, maybe_sweep-limits,
}
use ordspv.Gateway.RateLimit.Spend.{take-level, held-full, taken}

drop_oldest-IsDistinct : (m : Dict Bucket) → IsDistinct m → IsDistinct (drop_oldest m)
unfolding drop_oldest
drop_oldest-IsDistinct [] d = d
drop_oldest-IsDistinct (b ∷ m) (fresh, d) = d

make_room-IsDistinct :
    (limits : Limits) (m : Dict Bucket) → IsDistinct m → IsDistinct (make_room limits m)
unfolding make_room
make_room-IsDistinct limits m d = elim (Bool-cases (leb limits.max_tracked_keys (length m))) [
  | inl over ↦ rw over (drop_oldest-IsDistinct m d)
  | inr room ↦ rw room d
]

refill-IsDistinct :
    (key : List ℕ) (t : ℕ) (limits : Limits) (m : Dict Bucket) (o : Option Bucket)
    → IsDistinct m
    → IsDistinct (refill key t limits m o).0
unfolding refill
refill-IsDistinct key t limits m none d = make_room-IsDistinct limits m d
refill-IsDistinct key t limits m (some b) d = d

pub take-IsDistinct :
    (key : List ℕ) (t : ℕ) (limiter : Limiter)
    → IsDistinct limiter.buckets
    → IsDistinct (take key t limiter).0.buckets
unfolding take take_swept
take-IsDistinct key t limiter d =
    put-IsDistinct key _ _ (refill-IsDistinct key t _ _ _ (maybe_sweep-IsDistinct limiter t d))

pub take-limits :
    (key : List ℕ) (t : ℕ) (limiter : Limiter) → (take key t limiter).0.limits ≡ limiter.limits
unfolding take take_swept
take-limits key t limiter = maybe_sweep-limits limiter t

length-put-le : (k : List ℕ) (b : Bucket) (m : Dict Bucket) → length (put k b m) ≤ length m + 1
unfolding put
length-put-le k b [] = omega arith
length-put-le k b ((j, c) ∷ m) = ground (arith, length-put-le k b m)

make_room-length :
    (limits : Limits) (m : Dict Bucket)
    → 0 < limits.max_tracked_keys
    → length m ≤ limits.max_tracked_keys
    → length (make_room limits m) + 1 ≤ limits.max_tracked_keys
unfolding make_room drop_oldest
make_room-length limits [] pos le = ground arith
make_room-length limits (b ∷ m) pos le = ground arith

swept-length :
    (key : List ℕ) (t : ℕ) (limiter : Limiter)
    → 0 < limiter.limits.max_tracked_keys
    → length limiter.buckets ≤ limiter.limits.max_tracked_keys
    → length (take_swept key t limiter).0.buckets ≤ limiter.limits.max_tracked_keys
unfolding take_swept refill
swept-length key t limiter pos le = elim (Option-cases (lookup key limiter.buckets)) [
  | inl absent ↦ rw absent (
      omega (
        arith,
        length-put-le key _ (make_room limiter.limits limiter.buckets),
        make_room-length limiter.limits limiter.buckets pos le,
      ))
  | inr (b, present) ↦ rw present (rw (length-put key _ limiter.buckets present) le)
]

-- A request of a key at a time.
abbrev pub Request : Type 0
Request = List ℕ × ℕ

abbrev pub run : List Request → Limiter → Limiter
run [] limiter = limiter
run ((key, t) ∷ requests) limiter = run requests (take key t limiter).0

run-length :
    (requests : List Request) (limiter : Limiter)
    → 0 < limiter.limits.max_tracked_keys
    → length limiter.buckets ≤ limiter.limits.max_tracked_keys
    → length (run requests limiter).buckets ≤ limiter.limits.max_tracked_keys
unfolding maybe_sweep
run-length [] limiter pos le = le
run-length ((key, t) ∷ requests) limiter pos le =
    let swept = maybe_sweep t limiter in
    let same = maybe_sweep-limits limiter t in
    let fits : length swept.buckets ≤ swept.limits.max_tracked_keys =
      rw same (omega (arith, maybe_sweep-length limiter t)) in
    let some_cap : 0 < swept.limits.max_tracked_keys = rw same pos in
    let stays = take-limits key t limiter in
    let next = (take key t limiter).0 in
    let after : length next.buckets ≤ next.limits.max_tracked_keys =
      rw stays (unfold take in rw same at (swept-length key t swept some_cap fits)) in
    rw stays at (run-length requests next (rw stays pos) after)

-- Whatever keys are asked for, no more than the cap are tracked, if the cap is not 0.
pub run-new-length :
    (requests : List Request) (limits : Limits) (now : ℕ)
    → 0 < limits.max_tracked_keys
    → length (run requests (new limits now)).buckets ≤ limits.max_tracked_keys
unfolding new
run-new-length requests limits now pos = run-length requests (new limits now) pos (omega arith)

-- The requests of a key that are let through.
abbrev pub admitted : List ℕ → List Request → Limiter → ℕ
admitted j [] limiter = 0
admitted j ((key, t) ∷ requests) limiter =
    (if bytes_equal key j && (take key t limiter).1 then 1 else 0)
    + admitted j requests (take key t limiter).0

-- The clock does not run back, and the cap is not reached.
abbrev pub InOrder : ℕ → List Request → Limiter → Type 0
InOrder now [] limiter = Unit {0}
InOrder now ((key, t) ∷ requests) limiter =
    (now ≤ t)
    × (length limiter.buckets < limiter.limits.max_tracked_keys)
    × InOrder t requests (take key t limiter).0

abbrev pub end_time : ℕ → List Request → ℕ
end_time now [] = now
end_time now ((key, t) ∷ requests) = end_time t requests

end_time-le :
    (now : ℕ) (requests : List Request) (limiter : Limiter)
    → InOrder now requests limiter
    → now ≤ end_time now requests
end_time-le now [] limiter o = omega arith
end_time-le now ((key, t) ∷ requests) limiter (le, _, o) = omega (arith, end_time-le t requests _ o)

mul_mono : (a b c r : ℕ) → a ≤ b + c → a * r ≤ b * r + c * r
mul_mono a b c zero h = omega arith
mul_mono a b c (suc r) h = omega (arith, mul_mono a b c r h)

held-grows :
    (limits : Limits) (now t : ℕ) (o : Option Bucket)
    → now ≤ t
    → held limits t o ≤ held limits now o + (t - now) * limits.rate_per_sec
unfolding held effective
held-grows limits now t none le = omega arith
held-grows limits now t (some b) le =
    let r = limits.rate_per_sec in
    let split : (t - b.last_refill) * r ≤ (now - b.last_refill) * r + (t - now) * r =
      mul_mono (t - b.last_refill) (now - b.last_refill) (t - now) r (omega arith) in
    omega (arith, split)

spent_level :
    (lvl cap t r : ℕ)
    → (if leb 1000 lvl then 1 else 0) * 1000 + min cap (lvl - taken (leb 1000 lvl) + (t - t) * r)
      ≤ lvl
spent_level lvl cap t r =
    let none_since : t - t ≡ 0 = omega arith in
    rw none_since (elim (Bool-cases (leb 1000 lvl)) [
      | inl enough ↦ rw enough (omega (arith, leb→le _ _ enough))
      | inr short ↦ rw short (omega arith)
    ])

-- A token per admitted request: what is let through comes from the bucket and its refills.
admitted-level :
    (j : List ℕ) (requests : List Request) (limiter : Limiter) (now : ℕ)
    → IsDistinct limiter.buckets
    → InOrder now requests limiter
    → admitted j requests limiter * 1000
      ≤ level limiter j now + (end_time now requests - now) * limiter.limits.rate_per_sec
admitted-level j [] limiter now d o = omega arith
admitted-level j ((key, t) ∷ requests) limiter now d (le, room, o) =
    let r = limiter.limits.rate_per_sec in
    let end = end_time t requests in
    let after : t ≤ end = end_time-le t requests _ o in
    let (decides, leaves) = take-level key j t t limiter d room (omega arith) in
    let rest =
      admitted-level j requests (take key t limiter).0 t (take-IsDistinct key t limiter d) o in
    let rate = ap (λ (l : Limits). (end - t) * l.rate_per_sec) (take-limits key t limiter) in
    let grows = held-grows limiter.limits now t (lookup j limiter.buckets) le in
    let full = held-full limiter.limits t (lookup key limiter.buckets) in
    let split : (end - now) * r ≡ (end - t) * r + (t - now) * r = grind arith in
    elim (Bool-cases (bytes_equal key j)) [
      | inl same ↦
          let here : level limiter key t ≡ level limiter j t =
            ap (λ (k : List ℕ). level limiter k t) ((bytes_equal_iff key j).0 same) in
          let spent = spent_level (level limiter key t) (limiter.limits.burst * 1000) t r in
          let spent' = rw (← (rw same at leaves)) at spent in
          rw (same, decides) (omega (arith, rest, rate, spent', here, grows, split))
      | inr other ↦
          let kept = rw other at leaves in rw other (omega (arith, rest, rate, kept, grows, split))
    ]

-- While the clock runs forward and the cap on tracked keys is not reached, a key gets no more requests
-- through than its burst and the refills of the time that passed, whatever other keys ask.
pub admitted_bound :
    (j : List ℕ) (requests : List Request) (limiter : Limiter) (now : ℕ)
    → IsDistinct limiter.buckets
    → InOrder now requests limiter
    → admitted j requests limiter * 1000
      ≤ limiter.limits.burst * 1000 + (end_time now requests - now) * limiter.limits.rate_per_sec
admitted_bound j requests limiter now d o = omega (
  arith,
  admitted-level j requests limiter now d o,
  held-full limiter.limits now (lookup j limiter.buckets),
)
