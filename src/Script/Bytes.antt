-- ===== src/Script/Bytes.antt =====
-- The bytes that `parseScript` of packages/core/src/script.ts reads at an offset.
use ordspv.Common.{
  ℕ, zero, suc, ◌+◌, ◌*◌, ◌^◌, ◌≤◌, ◌<◌, ◌≡◌, refl, List, [], ◌∷◌, ◌++◌, some, ok, arith, length,
  get_or, drop, drop-add, take-append-drop, All, length-drop, length-take,
}
use ordspv.Bytes.Hex.{IsByte}
use ordspv.Bytes.Order.{to_le}
use ordspv.Bytes.Reader.{slice}
use ordspv.Script.Parse.{ScriptOp, at, push_at}

pub drop_here : (i : ℕ) (xs : List ℕ) → i < length xs → drop i xs ≡ get_or xs i 0 ∷ drop (i + 1) xs
drop_here zero [] h = absurd (omega arith)
drop_here (suc i) [] h = absurd (omega arith)
drop_here zero (x ∷ xs) h = refl
drop_here (suc i) (x ∷ xs) h =
    let e : suc i + 1 ≡ suc (i + 1) = omega arith in rw e (drop_here i xs (omega arith))

slice-drop : (i n : ℕ) (xs : List ℕ) → slice xs i n ++ drop (i + n) xs ≡ drop i xs
slice-drop i n xs = rw drop-add (take-append-drop n (drop i xs))

pub at-drop :
    (s : List ℕ) (i b : ℕ) → at s i ≡ ok b → (i < length s) × (drop i s ≡ b ∷ drop (i + 1) s)
unfolding at
at-drop s i b h = ground (arith, drop_here i s)

length-slice : (xs : List ℕ) (i n : ℕ) → i + n ≤ length xs → length (slice xs i n) ≡ n
length-slice xs i n h = omega (arith, length-take n (drop i xs), length-drop i xs)

-- What a push leaves and what it took.
pub push_at_lem :
    (s : List ℕ) (offset opcode i len : ℕ) (op : ScriptOp) (next : ℕ)
    → push_at s offset opcode i len ≡ ok (op, next)
    → (op.opcode ≡ opcode)
      × (next ≡ i + len)
      × (next ≤ length s)
      × (bs : List ℕ) × (op.payload ≡ some bs)
      × (length bs ≡ len)
      × (bs ++ drop next s ≡ drop i s)
unfolding push_at
push_at_lem s offset opcode i len op next h = (
  ground arith,
  ground arith,
  ground arith,
  slice s i len,
  ground arith,
  ground (arith, length-slice s i len),
  ground (arith, slice-drop i len s),
)

-- Little-endian length bytes are what `to_le` gives back.
pub two_le : (a b : ℕ) → a < 256 → b < 256 → to_le 2 (a + b * 2 ^ 8) ≡ a ∷ b ∷ []
unfolding to_le
two_le a b ha hb = ground arith

pub four_le :
    (a b c d : ℕ)
    → a < 256
    → b < 256
    → c < 256
    → d < 256
    → to_le 4 (a + b * 2 ^ 8 + c * 2 ^ 16 + d * 2 ^ 24) ≡ a ∷ b ∷ c ∷ d ∷ []
unfolding to_le
four_le a b c d ha hb hc hd = ground arith

pub byte_at : (s : List ℕ) (i b : ℕ) → All IsByte s → at s i ≡ ok b → b < 256
unfolding at
byte_at [] i b h e = ground arith
byte_at (x ∷ xs) zero b (hx, hxs) e = ground arith
byte_at (x ∷ xs) (suc i) b (hx, hxs) e = ground (arith, byte_at xs i b hxs)

pub drop_all : (i : ℕ) (xs : List ℕ) → length xs ≤ i → drop i xs ≡ []
drop_all zero [] h = refl
drop_all (suc i) [] h = refl
drop_all zero (x ∷ xs) h = absurd (omega arith)
drop_all (suc i) (x ∷ xs) h = drop_all i xs (omega arith)
