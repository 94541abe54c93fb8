-- ===== src/Gateway/Lru/Reads.antt =====
-- What `get` of packages/gateway/src/lru.ts answers after `set`.
use ordspv.Common.{
  ℕ, ◌≤◌, ◌≡◌, refl, ◌∙◌, ◌||◌, ◌⊎◌, inl, inr, false, Bool-cases, List, [], ◌∷◌, ◌++◌, none, some,
  Option-cases, leb, ltb, ◌==◌, length, arith,
}
use ordspv.Bytes.Hex.{bytes_equal, bytes_equal_iff}
use ordspv.Dict.{
  Dict, IsDistinct, equal_self, lookup, delete, lookup-delete, lookup-append, append-IsDistinct,
  delete-IsDistinct,
}
use ordspv.Gateway.Lru.{CachedResponse, ByteLru, refresh, get, set}
use ordspv.Gateway.Lru.Invariant.{IsValid}
use ordspv.Gateway.Lru.Order.{total, newest, set-newest}

get-lookup : (key : List ℕ) (lru : ByteLru) → (get key lru).1 ≡ lookup key lru.entries
unfolding get refresh
get-lookup key lru = elim (Option-cases (lookup key lru.entries)) [
  | inl absent ↦ rw absent refl
  | inr (r, present) ↦ rw present refl
]

lookup-newest-none :
    (max : ℕ) (j : List ℕ) (m : Dict CachedResponse)
    → lookup j m ≡ none
    → lookup j (newest max m) ≡ none
unfolding lookup newest
lookup-newest-none max j [] h = refl
lookup-newest-none max j ((i, e) ∷ m) h = ground (arith, lookup-newest-none max j m)

-- An entry is kept as it is, or dropped.
lookup-newest :
    (max : ℕ) (j : List ℕ) (m : Dict CachedResponse)
    → IsDistinct m
    → (lookup j (newest max m) ≡ none) ⊎ (lookup j (newest max m) ≡ lookup j m)
unfolding newest lookup
lookup-newest max j [] d = inr refl
lookup-newest max j ((i, e) ∷ m) (fresh, d) =
    elim (Bool-cases (leb (total ((i, e) ∷ m)) max || (length m == 0))) [
      | inl stop ↦ rw stop (inr refl)
      | inr over ↦ rw over (elim (Bool-cases (bytes_equal i j)) [
        | inl same ↦ inl (lookup-newest-none max j m (rw ((bytes_equal_iff i j).0 same) at fresh))
        | inr other ↦ rw other (lookup-newest max j m d)
      ])
    ]

lookup-newest_last :
    (max : ℕ) (key : List ℕ) (r : CachedResponse) (m : Dict CachedResponse)
    → lookup key m ≡ none
    → lookup key (newest max (m ++ ((key, r) ∷ []))) ≡ some r
unfolding lookup newest
lookup-newest_last max key r [] h = ground (arith, equal_self key)
lookup-newest_last max key r ((i, e) ∷ m) h =
    ground (arith, lookup-newest_last max key r m, lookup-append key key r m, equal_self key)

le→not-ltb : (a b : ℕ) → b ≤ a → ltb a b ≡ false
le→not-ltb a b h = ground arith

-- A response that fits the limit for one entry is what `get` answers right after `set`.
pub get-set :
    (key : List ℕ) (value : CachedResponse) (lru : ByteLru)
    → IsValid lru
    → length value.body ≤ lru.max_entry_bytes
    → (get key (set key value lru)).1 ≡ some value
get-set key value lru v fits =
    let fresh = lookup-delete key key lru.entries v.distinct ∙ (rw (equal_self key) refl) in
    let small = le→not-ltb _ _ fits in
    get-lookup key (set key value lru)
    ∙ (rw (set-newest key value lru v.distinct v.counted)
        (rw small (lookup-newest_last lru.max_bytes key value (delete key lru.entries) fresh)))

-- After `set` another key is answered as before, or no longer.
pub get-set_other :
    (key j : List ℕ) (value : CachedResponse) (lru : ByteLru)
    → IsValid lru
    → bytes_equal key j ≡ false
    → ((get j (set key value lru)).1 ≡ none) ⊎ ((get j (set key value lru)).1 ≡ (get j lru).1)
get-set_other key j value lru v other =
    let rest = delete key lru.entries in
    let all = rest ++ ((key, value) ∷ []) in
    let fresh = lookup-delete key key lru.entries v.distinct ∙ (rw (equal_self key) refl) in
    let same : lookup j all ≡ lookup j lru.entries =
      lookup-append key j value rest fresh
      ∙ (rw other (lookup-delete key j lru.entries v.distinct ∙ (rw other refl))) in
    let distinct =
      append-IsDistinct key value rest fresh (delete-IsDistinct key lru.entries v.distinct) in
    rw
      (
        get-lookup j (set key value lru),
        get-lookup j lru,
        set-newest key value lru v.distinct v.counted,
      )
      (elim (Bool-cases (ltb lru.max_entry_bytes (length value.body))) [
        | inl large ↦ rw large (inr refl)
        | inr fits ↦ rw fits (elim (lookup-newest lru.max_bytes j all distinct) [
          | inl gone ↦ inl gone
          | inr kept ↦ inr (kept ∙ same)
        ])
      ])
