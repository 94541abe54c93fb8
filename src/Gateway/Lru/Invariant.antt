-- ===== src/Gateway/Lru/Invariant.antt =====
-- The invariant of the cache of packages/gateway/src/lru.ts, and what a reader of it sees.
use ordspv.Common.{
  ℕ, ◌+◌, ◌≤◌, ◌≡◌, refl, ◌∙◌, ◌||◌, ◌⊎◌, inl, inr, Bool-cases, List, [], ◌∷◌, ◌++◌, none, some,
  Option-cases, leb, leb→le, ltb, ltb→ge, ◌==◌, ==_iff, length, All, arith,
}
use ordspv.Bytes.Hex.{bytes_equal}
use ordspv.Dict.{
  Dict, IsDistinct, equal_self, lookup, delete, put_fresh, lookup-delete, append-IsDistinct,
  delete-IsDistinct,
}
use ordspv.Gateway.Lru.{CachedResponse, ByteLru, new, refresh, get, set}
use ordspv.Gateway.Lru.Order.{total, newest, set-newest, total-append, total-delete}

abbrev pub Fits : ℕ → Dict CachedResponse → Type 0
Fits limit = All (λ e. length e.1.body ≤ limit)

-- The count is that of the bodies, no body is over its limit, and the budget holds unless one entry
-- alone is over it.
pub record IsValid (lru : ByteLru) : Type 0 where
  pub distinct : IsDistinct lru.entries
  pub counted : lru.bytes ≡ total lru.entries
  pub small : Fits lru.max_entry_bytes lru.entries
  pub within : (lru.bytes ≤ lru.max_bytes) ⊎ (length lru.entries ≤ 1)

newest-Fits : (limit max : ℕ) (m : Dict CachedResponse) → Fits limit m → Fits limit (newest max m)
unfolding newest
newest-Fits limit max [] h = h
newest-Fits limit max (e ∷ m) (h, hs) =
    elim (Bool-cases (leb (total (e ∷ m)) max || (length m == 0))) [
      | inl stop ↦ rw stop (h, hs)
      | inr over ↦ rw over (newest-Fits limit max m hs)
    ]

newest-IsDistinct : (max : ℕ) (m : Dict CachedResponse) → IsDistinct m → IsDistinct (newest max m)
unfolding newest
newest-IsDistinct max [] h = h
newest-IsDistinct max (e ∷ m) (h, hs) =
    elim (Bool-cases (leb (total (e ∷ m)) max || (length m == 0))) [
      | inl stop ↦ rw stop (h, hs)
      | inr over ↦ rw over (newest-IsDistinct max m hs)
    ]

newest-within :
    (max : ℕ) (m : Dict CachedResponse) → (total (newest max m) ≤ max) ⊎ (length (newest max m) ≤ 1)
unfolding newest
newest-within max [] = inr (omega arith)
newest-within max (e ∷ m) = elim (Bool-cases (leb (total (e ∷ m)) max)) [
  | inl fits ↦ rw fits (inl (leb→le _ _ fits))
  | inr over ↦ elim (Bool-cases (length m == 0)) [
    | inl alone ↦ rw (over, alone) (inr (omega (arith, (==_iff (length m) 0).0 alone)))
    | inr more ↦ rw (over, more) (newest-within max m)
  ]
]

delete-Fits :
    (limit : ℕ) (key : List ℕ) (m : Dict CachedResponse) → Fits limit m → Fits limit (delete key m)
unfolding delete
delete-Fits limit key [] h = h
delete-Fits limit key ((j, e) ∷ m) (h, hs) = elim (Bool-cases (bytes_equal j key)) [
  | inl e ↦ rw e hs
  | inr e ↦ rw e (h, delete-Fits limit key m hs)
]

append-Fits :
    (limit : ℕ) (key : List ℕ) (r : CachedResponse) (m : Dict CachedResponse)
    → length r.body ≤ limit
    → Fits limit m
    → Fits limit (m ++ ((key, r) ∷ []))
append-Fits limit key r [] h hs = (h, tt)
append-Fits limit key r (e ∷ m) h (g, gs) = (g, append-Fits limit key r m h gs)

lookup-Fits :
    (limit : ℕ) (key : List ℕ) (m : Dict CachedResponse) (r : CachedResponse)
    → lookup key m ≡ some r
    → Fits limit m
    → length r.body ≤ limit
unfolding lookup
lookup-Fits limit key [] r h fits = absurd cc
lookup-Fits limit key ((j, e) ∷ m) r h (g, gs) = ground (arith, lookup-Fits limit key m r)

delete-fresh :
    (key : List ℕ) (m : Dict CachedResponse) → IsDistinct m → lookup key (delete key m) ≡ none
delete-fresh key m d = lookup-delete key key m d ∙ (rw (equal_self key) refl)

length-moved :
    (key : List ℕ) (m : Dict CachedResponse) (r : CachedResponse)
    → lookup key m ≡ some r
    → length (delete key m ++ ((key, r) ∷ [])) ≡ length m
unfolding lookup delete
length-moved key [] r h = absurd cc
length-moved key ((j, e) ∷ m) r h = ground (arith, length-moved key m r, length-snoc m)
  where
    length-snoc : (m : Dict CachedResponse) → length (m ++ ((key, r) ∷ [])) ≡ length m + 1
    length-snoc [] = refl
    length-snoc (e ∷ m) = omega (arith, length-snoc m)

pub get-IsValid : (key : List ℕ) (lru : ByteLru) → IsValid lru → IsValid (get key lru).0
unfolding get refresh
get-IsValid key lru v = elim (Option-cases (lookup key lru.entries)) [
  | inl absent ↦
      rw absent
        (record { distinct = v.distinct; counted = v.counted; small = v.small; within = v.within })
  | inr (r, present) ↦
      let rest = delete key lru.entries in
      let fresh = delete-fresh key lru.entries v.distinct in
      let placed = put_fresh key r rest fresh in
      rw present (
        rw placed (record {
          distinct =
              append-IsDistinct key r rest fresh (delete-IsDistinct key lru.entries v.distinct);
          counted =
              omega
                (arith, v.counted, total-append rest key r, total-delete key lru.entries r present);
          small =
              append-Fits _ key r rest (lookup-Fits _ key lru.entries r present v.small)
                (delete-Fits _ key lru.entries v.small);
          within = rw (length-moved key lru.entries r present) v.within;
        }))
]

pub set-IsValid :
    (key : List ℕ) (value : CachedResponse) (lru : ByteLru)
    → IsValid lru
    → IsValid (set key value lru)
set-IsValid key value lru v =
    let rest = delete key lru.entries in
    let all = rest ++ ((key, value) ∷ []) in
    let fresh = delete-fresh key lru.entries v.distinct in
    rw (set-newest key value lru v.distinct v.counted)
      (elim (Bool-cases (ltb lru.max_entry_bytes (length value.body))) [
        | inl large ↦ rw large v
        | inr fits ↦ rw fits (record {
          distinct = newest-IsDistinct lru.max_bytes all (
              append-IsDistinct key value rest fresh
                (delete-IsDistinct key lru.entries v.distinct));
          counted = refl;
          small = newest-Fits _ lru.max_bytes all (
              append-Fits _ key value rest (ltb→ge _ _ fits)
                (delete-Fits _ key lru.entries v.small));
          within = newest-within lru.max_bytes all;
        })
      ])

pub data Call : Type 0 where
  gets : List ℕ → Call
  sets : List ℕ → CachedResponse → Call

abbrev pub run : List Call → ByteLru → ByteLru
run [] lru = lru
run (gets key ∷ calls) lru = run calls (get key lru).0
run (sets key value ∷ calls) lru = run calls (set key value lru)

run-IsValid : (calls : List Call) (lru : ByteLru) → IsValid lru → IsValid (run calls lru)
run-IsValid [] lru v = v
run-IsValid (gets key ∷ calls) lru v = run-IsValid calls _ (get-IsValid key lru v)
run-IsValid (sets key value ∷ calls) lru v = run-IsValid calls _ (set-IsValid key value lru v)

-- After any calls on a new cache the count is that of the bodies, no key stands twice, no body is over
-- its limit, and the budget is kept unless a single entry is over it.
pub run-new-IsValid :
    (calls : List Call) (max_bytes max_entry_bytes : ℕ)
    → IsValid (run calls (new max_bytes max_entry_bytes))
unfolding new total
run-new-IsValid calls max_bytes max_entry_bytes =
    run-IsValid calls _
      (record { distinct = tt; counted = refl; small = tt; within = inl (omega arith) })
