-- ===== src/Gateway/Lru/Order.antt =====
-- What `set` of packages/gateway/src/lru.ts keeps: the newest entries that fit the budget.
use ordspv.Common.{
  ℕ, ◌+◌, ◌-◌, ◌≡◌, refl, ap, sym, ◌∙◌, ◌||◌, inl, inr, false, Bool-cases, List, [], ◌∷◌, ◌++◌,
  none, some, Option-cases, leb, ltb, ◌==◌, if◌then◌else◌, length, arith,
}
use ordspv.Dict.{
  Dict, IsDistinct, equal_self, lookup, delete, put_fresh, delete_fresh, lookup-delete,
}
use ordspv.Gateway.Lru.{CachedResponse, ByteLru, evict, forget, set}

-- The bytes of all bodies.
unfoldable pub total : Dict CachedResponse → ℕ
total [] = 0
total ((key, entry) ∷ later) = length entry.body + total later

-- Oldest entries are dropped while the budget is exceeded and another entry is left.
unfoldable pub newest : ℕ → Dict CachedResponse → Dict CachedResponse
unfolding total
newest max [] = []
newest max (e ∷ later) =
    let shorter = newest max later in
    if leb (total (e ∷ later)) max || (length later == 0) then e ∷ later else shorter

pub total-append :
    (m : Dict CachedResponse) (key : List ℕ) (r : CachedResponse)
    → total (m ++ ((key, r) ∷ [])) ≡ total m + length r.body
unfolding total
total-append [] key r = omega arith
total-append ((j, e) ∷ m) key r = omega (arith, total-append m key r)

pub total-delete :
    (key : List ℕ) (m : Dict CachedResponse) (r : CachedResponse)
    → lookup key m ≡ some r
    → total (delete key m) + length r.body ≡ total m
unfolding total lookup delete
total-delete key [] r h = absurd cc
total-delete key ((j, e) ∷ m) r h = ground (arith, total-delete key m r)

length-snoc :
    (m : Dict CachedResponse) (key : List ℕ) (r : CachedResponse)
    → length (m ++ ((key, r) ∷ [])) ≡ length m + 1
length-snoc [] key r = refl
length-snoc (e ∷ m) key r = omega (arith, length-snoc m key r)

-- The loop over the entries, where the last is the one just written.
evict-newest :
    (max : ℕ) (key : List ℕ) (r : CachedResponse) (m : Dict CachedResponse)
    → let all = m ++ ((key, r) ∷ []) in
      evict max key all all (total all) ≡ (newest max all, total (newest max all))
unfolding evict total newest delete
evict-newest max key r [] = ground (arith, equal_self key)
evict-newest max key r ((j, e) ∷ m) =
    let all = m ++ ((key, r) ∷ []) in
    let left : length e.body + total all - length e.body ≡ total all = omega arith in
    let more : (length all == 0) ≡ false = ground (arith, length-snoc m key r) in
    elim (Bool-cases (leb (length e.body + total all) max)) [
      | inl fits ↦ rw fits refl
      | inr over ↦
          rw (over, more, equal_self j, left)
            (ground (arith, evict-newest max key r m, length-snoc m key r))
    ]

module _ (key : List ℕ) (value : CachedResponse) (lru : ByteLru) where
  abbrev pub others : Dict CachedResponse
  others = delete key lru.entries

  forget-others :
      lru.bytes ≡ total lru.entries
      → forget key lru (lookup key lru.entries) ≡ (others, total others)
  unfolding forget
  forget-others count = elim (Option-cases (lookup key lru.entries)) [
    | inl absent ↦ rw absent (rw (delete_fresh key lru.entries absent, count) refl)
    | inr (r, present) ↦
        rw present (
          ap (λ (b : ℕ). (others, b))
            (omega (arith, total-delete key lru.entries r present, count)))
  ]

  others_fresh : IsDistinct lru.entries → lookup key others ≡ none
  others_fresh d = lookup-delete key key lru.entries d ∙ (rw (equal_self key) refl)

-- Where the cache's count is right, `set` keeps the newest entries within the budget, the new one last,
-- and counts their bytes; a body over the limit for one entry changes nothing.
pub set-newest :
    (key : List ℕ) (value : CachedResponse) (lru : ByteLru)
    → IsDistinct lru.entries
    → lru.bytes ≡ total lru.entries
    → set key value lru ≡ (
        if ltb lru.max_entry_bytes (length value.body)
        then lru
        else (let kept = newest lru.max_bytes (delete key lru.entries ++ ((key, value) ∷ [])) in
            record lru { entries = kept; bytes = total kept }))
unfolding set
set-newest key value lru d count =
    let rest = others key value lru in
    let all = rest ++ ((key, value) ∷ []) in
    let fresh = put_fresh key value rest (others_fresh key value lru d) in
    let sum : total rest + length value.body ≡ total all = sym (total-append rest key value) in
    rw (forget-others key value lru count, fresh, sum, evict-newest lru.max_bytes key value rest)
      refl
