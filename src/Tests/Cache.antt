-- ===== src/Tests/Cache.antt =====
-- The theorems on the gateway's cache and rate limiter at concrete inputs.
use ordspv.Common.{
  ℕ, ◌+◌, ◌-◌, ◌*◌, ◌≤◌, ◌<◌, ◌≡◌, refl, arith, false, List, [], ◌∷◌, ◌++◌, some, length, ltb,
  if◌then◌else◌,
}
use ordspv.Bytes.Hex.{bytes_equal}
use ordspv.Dict.{IsDistinct, delete}
use ordspv.Gateway.Lru.{CachedResponse, ByteLru, new, get, set}
use ordspv.Gateway.Lru.Invariant.{IsValid, Call, gets, sets, run, run-new-IsValid}
use ordspv.Gateway.Lru.Order.{total, newest, set-newest}
use ordspv.Gateway.Lru.Reads.{get-set}
use ordspv.Gateway.RateLimit.{Limits, Limiter, take}
use ordspv.Gateway.RateLimit.Rate.{
  Request, InOrder, admitted, admitted_bound, end_time, run-new-length,
}
use ordspv.Gateway.RateLimit
use ordspv.Tests.Toy.{zeros}

abbrev of_size : ℕ → CachedResponse
of_size n = record { status = 200; headers = []; body = zeros n }

abbrev key : ℕ → List ℕ
key c = c ∷ []

-- The third response puts the oldest of the others out.
abbrev calls : List Call
calls =
    sets (key 1) (of_size 4)
    ∷ sets (key 2) (of_size 3)
    ∷ gets (key 1)
    ∷ sets (key 3) (of_size 5)
    ∷ gets (key 2)
    ∷ []

run-new-IsValid_example : IsValid (run calls (new 10 6))
run-new-IsValid_example = run-new-IsValid calls 10 6

abbrev cache : ByteLru
cache = run calls (new 10 6)

set-newest_example : set (key 2) (of_size 6) cache ≡ (
    if ltb cache.max_entry_bytes (length (of_size 6).body)
    then cache
    else (let kept =
          newest cache.max_bytes (delete (key 2) cache.entries ++ ((key 2, of_size 6) ∷ [])) in
        record cache { entries = kept; bytes = total kept }))
set-newest_example =
    set-newest (key 2) (of_size 6) cache run-new-IsValid_example.distinct
      run-new-IsValid_example.counted

evicted :
    (length cache.entries ≡ 2)
    × (cache.misses ≡ 1)
    × (cache.bytes ≡ 9)
    × (cache.max_entry_bytes ≡ 6)
    × (bytes_equal (key 2) (key 1) ≡ false)
unfolding ordspv.Bytes.Hex.is_hex_char ordspv.Bytes.Hex.all_hex ordspv.Bytes.Hex.hex_value
    ordspv.Bytes.Hex.hex_pairs ordspv.Bytes.Hex.hex_to_bytes ordspv.Bytes.Hex.hex_char
    ordspv.Bytes.Hex.bytes_to_hex ordspv.Bytes.Hex.display_to_internal
    ordspv.Bytes.Hex.internal_to_display ordspv.Bytes.Hex.same_bytes ordspv.Bytes.Hex.bytes_equal
    ordspv.Bytes.Hex.concat_bytes ordspv.Dict.lookup ordspv.Dict.delete ordspv.Dict.put
    ordspv.Dict.keep ordspv.Gateway.Lru.new ordspv.Gateway.Lru.refresh ordspv.Gateway.Lru.get
    ordspv.Gateway.Lru.evict ordspv.Gateway.Lru.forget ordspv.Gateway.Lru.set
    ordspv.Gateway.Lru.Order.total
evicted = (refl, refl, refl, refl, refl)

fits : length (of_size 6).body ≤ cache.max_entry_bytes
fits = omega (arith, evicted.3)

get-set_example : (get (key 2) (set (key 2) (of_size 6) cache)).1 ≡ some (of_size 6)
get-set_example = get-set (key 2) (of_size 6) cache run-new-IsValid_example fits

abbrev limits : Limits
limits = record { rate_per_sec = 2; burst = 3; max_tracked_keys = 5 }

abbrev limiter : Limiter
limiter = RateLimit.new limits 0

-- Five requests of a key within a second and one of another.
abbrev requests : List Request
requests =
    (key 1, 0) ∷ (key 1, 100) ∷ (key 2, 100) ∷ (key 1, 200) ∷ (key 1, 300) ∷ (key 1, 900) ∷ []

run-new-length_example : length (RateLimit.Rate.run requests (RateLimit.new limits 0)).buckets ≤ 5
run-new-length_example = run-new-length requests limits 0 (omega arith)

limited :
    IsDistinct limiter.buckets
    × InOrder 0 requests limiter
    × (admitted (key 1) requests limiter ≡ 4)
unfolding ordspv.Bytes.Hex.is_hex_char ordspv.Bytes.Hex.all_hex ordspv.Bytes.Hex.hex_value
    ordspv.Bytes.Hex.hex_pairs ordspv.Bytes.Hex.hex_to_bytes ordspv.Bytes.Hex.hex_char
    ordspv.Bytes.Hex.bytes_to_hex ordspv.Bytes.Hex.display_to_internal
    ordspv.Bytes.Hex.internal_to_display ordspv.Bytes.Hex.same_bytes ordspv.Bytes.Hex.bytes_equal
    ordspv.Bytes.Hex.concat_bytes ordspv.Dict.lookup ordspv.Dict.delete ordspv.Dict.put
    ordspv.Dict.keep ordspv.Gateway.RateLimit.new ordspv.Gateway.RateLimit.effective
    ordspv.Gateway.RateLimit.is_kept ordspv.Gateway.RateLimit.maybe_sweep
    ordspv.Gateway.RateLimit.drop_oldest ordspv.Gateway.RateLimit.make_room
    ordspv.Gateway.RateLimit.refill ordspv.Gateway.RateLimit.spend
    ordspv.Gateway.RateLimit.take_swept ordspv.Gateway.RateLimit.take
    ordspv.Gateway.RateLimit.wait_for ordspv.Gateway.RateLimit.retry_after_seconds
limited = (
  tt,
  (
    omega arith,
    omega arith,
    (
      omega arith,
      omega arith,
      (
        omega arith,
        omega arith,
        (omega arith, omega arith, (omega arith, omega arith, (omega arith, omega arith, tt))),
      ),
    ),
  ),
  refl,
)

admitted_bound_example :
    admitted (key 1) requests limiter * 1000
    ≤ limiter.limits.burst * 1000 + (end_time 0 requests - 0) * limiter.limits.rate_per_sec
admitted_bound_example = admitted_bound (key 1) requests limiter 0 limited.0 limited.1

room : length limiter.buckets < limiter.limits.max_tracked_keys
unfolding ordspv.Gateway.RateLimit.new
room = omega arith
