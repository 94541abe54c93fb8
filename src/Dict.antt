-- ===== src/Dict.antt =====
-- A JavaScript `Map` with string keys: its entries in the order of their insertion.
use ordspv.Common.{
  ℕ, ◌≡◌, refl, Bool, true, List, [], ◌∷◌, ◌++◌, Option, none, some, arith, if◌then◌else◌, length,
  Bool-cases, inl, inr, ◌≤◌,
}
use ordspv.Bytes.Hex.{bytes_equal, bytes_equal_iff}

abbrev pub Dict {ℓ} : Type ℓ → Type ℓ
Dict V = List (List ℕ × V)

pub equal_self : (k : List ℕ) → bytes_equal k k ≡ true
equal_self k = (bytes_equal_iff k k).1 refl

module _ {ℓ} {V : Type ℓ} where
  unfoldable pub lookup : List ℕ → Dict V → Option V
  lookup k [] = none
  lookup k ((j, v) ∷ m) = if bytes_equal j k then some v else lookup k m

  -- `map.delete(key)`
  unfoldable pub delete : List ℕ → Dict V → Dict V
  delete k [] = []
  delete k ((j, v) ∷ m) = if bytes_equal j k then m else (j, v) ∷ delete k m

  -- `map.set(key, value)`: a key that is there keeps its place, a new one comes last.
  unfoldable pub put : List ℕ → V → Dict V → Dict V
  put k v [] = (k, v) ∷ []
  put k v ((j, w) ∷ m) = if bytes_equal j k then (j, v) ∷ m else (j, w) ∷ put k v m

  -- A loop that deletes the entries which fail a test.
  unfoldable pub keep : (V → Bool) → Dict V → Dict V
  keep p [] = []
  keep p ((j, v) ∷ m) = if p v then (j, v) ∷ keep p m else keep p m

  -- No key stands twice.
  abbrev pub IsDistinct : Dict V → Type ℓ
  IsDistinct [] = Unit
  IsDistinct ((j, v) ∷ m) = (lookup j m ≡ none) × IsDistinct m

  pub lookup-append :
      (k j : List ℕ) (v : V) (m : Dict V)
      → lookup k m ≡ none
      → lookup j (m ++ ((k, v) ∷ [])) ≡ (if bytes_equal k j then some v else lookup j m)
  unfolding lookup
  lookup-append k j v [] h = refl
  lookup-append k j v ((i, w) ∷ m) h =
      ground (
        arith,
        bytes_equal_iff i k,
        bytes_equal_iff k j,
        bytes_equal_iff i j,
        lookup-append k j v m,
      )

  pub put_fresh :
      (k : List ℕ) (v : V) (m : Dict V) → lookup k m ≡ none → put k v m ≡ m ++ ((k, v) ∷ [])
  unfolding lookup put
  put_fresh k v [] h = refl
  put_fresh k v ((i, w) ∷ m) h = ground (arith, put_fresh k v m)

  pub lookup-put :
      (k j : List ℕ) (v : V) (m : Dict V)
      → lookup j (put k v m) ≡ (if bytes_equal k j then some v else lookup j m)
  unfolding lookup put
  lookup-put k j v [] = refl
  lookup-put k j v ((i, w) ∷ m) =
      ground
        (arith, bytes_equal_iff i k, bytes_equal_iff k j, bytes_equal_iff i j, lookup-put k j v m)

  pub lookup-delete :
      (k j : List ℕ) (m : Dict V)
      → IsDistinct m
      → lookup j (delete k m) ≡ (if bytes_equal k j then none else lookup j m)
  unfolding lookup delete
  lookup-delete k j [] d = ground arith
  lookup-delete k j ((i, w) ∷ m) d =
      ground
        (arith, bytes_equal_iff i k, bytes_equal_iff k j, bytes_equal_iff i j, lookup-delete k j m)

  pub delete_fresh : (k : List ℕ) (m : Dict V) → lookup k m ≡ none → delete k m ≡ m
  unfolding lookup delete
  delete_fresh k [] h = refl
  delete_fresh k ((i, w) ∷ m) h = ground (arith, delete_fresh k m)

  pub append-IsDistinct :
      (k : List ℕ) (v : V) (m : Dict V)
      → lookup k m ≡ none
      → IsDistinct m
      → IsDistinct (m ++ ((k, v) ∷ []))
  unfolding lookup
  append-IsDistinct k v [] h d = (refl, tt)
  append-IsDistinct k v ((i, w) ∷ m) h (fresh, d) = (
    ground (arith, lookup-append k i v m, bytes_equal_iff i k, bytes_equal_iff k i),
    append-IsDistinct k v m (ground arith) d,
  )

  pub delete-IsDistinct : (k : List ℕ) (m : Dict V) → IsDistinct m → IsDistinct (delete k m)
  unfolding delete
  delete-IsDistinct k [] d = d
  delete-IsDistinct k ((i, w) ∷ m) (fresh, d) = elim (Bool-cases (bytes_equal i k)) [
    | inl e ↦ rw e d
    | inr e ↦ rw e (ground (arith, lookup-delete k i m), delete-IsDistinct k m d)
  ]

  pub put-IsDistinct : (k : List ℕ) (v : V) (m : Dict V) → IsDistinct m → IsDistinct (put k v m)
  unfolding put lookup
  put-IsDistinct k v [] d = (refl, tt)
  put-IsDistinct k v ((i, w) ∷ m) (fresh, d) = elim (Bool-cases (bytes_equal i k)) [
    | inl e ↦ rw e (fresh, d)
    | inr e ↦ rw e (
      ground (arith, lookup-put k i v m, bytes_equal_iff i k, bytes_equal_iff k i),
      put-IsDistinct k v m d,
    )
  ]

  pub lookup-keep-none :
      (p : V → Bool) (j : List ℕ) (m : Dict V) → lookup j m ≡ none → lookup j (keep p m) ≡ none
  unfolding lookup keep
  lookup-keep-none p j [] h = refl
  lookup-keep-none p j ((i, w) ∷ m) h = ground (arith, lookup-keep-none p j m)

  -- What a key has after the loop.
  pub lookup-keep :
      (p : V → Bool) (j : List ℕ) (m : Dict V) {v : V}
      → IsDistinct m
      → lookup j m ≡ some v
      → lookup j (keep p m) ≡ (if p v then some v else none)
  unfolding lookup keep
  lookup-keep p j [] d h = absurd cc
  lookup-keep p j ((i, w) ∷ m) {v = v} (fresh, d) h = elim (Bool-cases (bytes_equal i j)) [
    | inl e ↦ ground (arith, bytes_equal_iff i j, lookup-keep-none p j m)
    | inr e ↦ ground (arith, lookup-keep p j m {v = v})
  ]

  pub keep-IsDistinct : (p : V → Bool) (m : Dict V) → IsDistinct m → IsDistinct (keep p m)
  unfolding keep
  keep-IsDistinct p [] d = tt
  keep-IsDistinct p ((i, w) ∷ m) (fresh, d) = elim (Bool-cases (p w)) [
    | inl e ↦ rw e (lookup-keep-none p i m fresh, keep-IsDistinct p m d)
    | inr e ↦ rw e (keep-IsDistinct p m d)
  ]

  pub length-keep-le : (p : V → Bool) (m : Dict V) → length (keep p m) ≤ length m
  unfolding keep
  length-keep-le p [] = omega arith
  length-keep-le p ((i, w) ∷ m) = ground (arith, length-keep-le p m)

  pub length-put :
      (k : List ℕ) (v : V) (m : Dict V) {w : V}
      → lookup k m ≡ some w
      → length (put k v m) ≡ length m
  unfolding lookup put
  length-put k v [] h = absurd cc
  length-put k v ((i, u) ∷ m) {w = w} h = ground (arith, length-put k v m {w = w})
