-- ===== src/Bytes/Writer.antt =====
-- `ByteWriter` of packages/core/src/bytes.ts: the chunks written so far, first to last.
use ordspv.Common.{
  ℕ, ◌%◌, ◌≡◌, ap, ◌∙◌, List, [], ◌∷◌, ◌++◌, append-nil, append_assoc, arith, ltb, leb,
  if◌then◌else◌, Bool-cases, inl, inr, ltb→lt, ◌<◌, ◌≢◌,
}
use ordspv.Common.Int.{ℤ}
use ordspv.Bytes.Hex.{concat_bytes}
use ordspv.Bytes.Order.{to_le, of_int32}

abbrev pub Writer : Type 0
Writer = List (List ℕ)

-- `this.chunks.push(b)`
unfoldable pub write_bytes : List ℕ → Writer → Writer
write_bytes b w = w ++ (b ∷ [])

unfoldable pub write_u8 : ℕ → Writer → Writer
unfolding write_bytes
write_u8 v w = write_bytes ((v % 256) ∷ []) w

unfoldable pub write_u32le : ℕ → Writer → Writer
unfolding write_bytes
write_u32le v w = write_bytes (to_le 4 v) w

unfoldable pub write_i32le : ℤ → Writer → Writer
unfolding write_bytes
write_i32le v w = write_bytes (to_le 4 (of_int32 v)) w

unfoldable pub write_u64le : ℕ → Writer → Writer
unfolding write_bytes
write_u64le v w = write_bytes (to_le 8 v) w

unfoldable pub write_var_int : ℕ → Writer → Writer
write_var_int n w =
    if ltb n 0xfd
    then write_u8 n w
    else (if leb n 0xffff
        then write_bytes (to_le 2 n) (write_u8 0xfd w)
        else (if leb n 0xffff_ffff
            then write_u32le n (write_u8 0xfe w)
            else write_u64le n (write_u8 0xff w)))

unfoldable pub to_bytes : Writer → List ℕ
to_bytes = concat_bytes

-- The bytes of a CompactSize.
unfoldable pub var_int : ℕ → List ℕ
var_int n =
    if ltb n 0xfd
    then n ∷ []
    else (if leb n 0xffff
        then 0xfd ∷ to_le 2 n
        else (if leb n 0xffff_ffff then 0xfe ∷ to_le 4 n else 0xff ∷ to_le 8 n))

pub to_bytes-write_bytes : (b : List ℕ) (w : Writer) → to_bytes (write_bytes b w) ≡ to_bytes w ++ b
unfolding to_bytes write_bytes concat_bytes
to_bytes-write_bytes b [] = append-nil b
to_bytes-write_bytes b (c ∷ w) =
    ap (◌++◌ c) (to_bytes-write_bytes b w) ∙ (rw (append_assoc c (concat_bytes w) b))

pub to_bytes-write_u8 :
    (v : ℕ) (w : Writer) → to_bytes (write_u8 v w) ≡ to_bytes w ++ ((v % 256) ∷ [])
unfolding write_u8
to_bytes-write_u8 v w = to_bytes-write_bytes ((v % 256) ∷ []) w

pub to_bytes-write_u32le :
    (v : ℕ) (w : Writer) → to_bytes (write_u32le v w) ≡ to_bytes w ++ to_le 4 v
unfolding write_u32le
to_bytes-write_u32le v w = to_bytes-write_bytes (to_le 4 v) w

pub to_bytes-write_u64le :
    (v : ℕ) (w : Writer) → to_bytes (write_u64le v w) ≡ to_bytes w ++ to_le 8 v
unfolding write_u64le
to_bytes-write_u64le v w = to_bytes-write_bytes (to_le 8 v) w

pub to_bytes-write_i32le :
    (v : ℤ) (w : Writer) → to_bytes (write_i32le v w) ≡ to_bytes w ++ to_le 4 (of_int32 v)
unfolding write_i32le
to_bytes-write_i32le v w = to_bytes-write_bytes (to_le 4 (of_int32 v)) w

two_chunks :
    (a : ℕ) (enc : List ℕ) (w : Writer)
    → a < 256
    → (to_bytes w ++ ((a % 256) ∷ [])) ++ enc ≡ to_bytes w ++ (a ∷ enc)
two_chunks a enc w h =
    let same : a % 256 ≡ a = omega arith in
    rw (append_assoc (to_bytes w) ((a % 256) ∷ []) enc, same)

-- `writeVarInt` appends the CompactSize.
pub to_bytes-write_var_int :
    (n : ℕ) (w : Writer) → to_bytes (write_var_int n w) ≡ to_bytes w ++ var_int n
unfolding write_var_int var_int
to_bytes-write_var_int n w = elim (Bool-cases (ltb n 0xfd)) [
  | inl tiny ↦
      let same : n % 256 ≡ n = omega (arith, ltb→lt _ _ tiny) in
      rw (tiny, to_bytes-write_u8 n w, same)
  | inr big ↦ rw big (elim (Bool-cases (leb n 0xffff)) [
    | inl two ↦
        rw (two, to_bytes-write_bytes (to_le 2 n) (write_u8 0xfd w), to_bytes-write_u8 0xfd w)
          (two_chunks 0xfd (to_le 2 n) w (omega arith))
    | inr more ↦ rw more (elim (Bool-cases (leb n 0xffff_ffff)) [
      | inl four ↦
          rw (four, to_bytes-write_u32le n (write_u8 0xfe w), to_bytes-write_u8 0xfe w)
            (two_chunks 0xfe (to_le 4 n) w (omega arith))
      | inr eight ↦
          rw (eight, to_bytes-write_u64le n (write_u8 0xff w), to_bytes-write_u8 0xff w)
            (two_chunks 0xff (to_le 8 n) w (omega arith))
    ])
  ])
]

-- The CompactSize of a positive number does not begin with the segwit marker.
pub var_int-head : (n : ℕ) → 0 < n → (b : ℕ) × (t : List ℕ) × (var_int n ≡ b ∷ t) × (b ≢ 0)
unfolding var_int
var_int-head n h = elim (Bool-cases (ltb n 0xfd)) [
  | inl tiny ↦ (n, [], rw tiny, omega arith)
  | inr big ↦ elim (Bool-cases (leb n 0xffff)) [
    | inl two ↦ (0xfd, to_le 2 n, rw (big, two), omega arith)
    | inr more ↦ elim (Bool-cases (leb n 0xffff_ffff)) [
      | inl four ↦ (0xfe, to_le 4 n, rw (big, more, four), omega arith)
      | inr eight ↦ (0xff, to_le 8 n, rw (big, more, eight), omega arith)
    ]
  ]
]
