-- ===== src/Bytes/Reads.antt =====
-- What a `ByteReader` method does on an encoding of its value, wherever that stands in the buffer.
use ordspv.Common.{
  ℕ, ◌+◌, ◌^◌, ◌%◌, ◌<◌, ◌≡◌, sym, ap, ◌∙◌, Bool, true, List, [], ◌∷◌, ◌++◌, append-nil,
  append_assoc, ok, arith, length, length-append, take-length-append, drop-length-append, drop-add,
  String, All, leb,
}
use ordspv.Common.Int.{ℤ}
use ordspv.Bytes.Order.{
  le_bytes_to_big_int, to_le, length-to_le, le_bytes_to_big_int-to_le, of_int32, IsInt32,
  to_int32-of_int32,
}
use ordspv.Bytes.Reader.{
  reader, Read, pure, ◌>>=◌, check, slice, read_bytes, read_u8, peek_u8, read_u16le, read_u32le,
  read_i32le, read_u64le, read_many, ◌>>◌,
}

-- From the place where `enc` begins, `m` returns `a` and stops right behind `enc`.
pub record Reads {ℓ} {A : Type ℓ} (m : Read A) (enc : List ℕ) (a : A) : Type ℓ where
  pub runs :
      (pre rest : List ℕ)
      → m (reader (pre ++ (enc ++ rest)) (length pre))
        ≡ ok (a, reader (pre ++ (enc ++ rest)) (length pre + length enc))

pub Reads-pure {ℓ} : {A : Type ℓ} (a : A) → Reads (pure a) [] a
Reads-pure a = record { runs = λ pre rest. ap (λ n. ok (a, reader (pre ++ rest) n)) (omega arith) }

pub Reads-bind {ℓ κ} :
    {A : Type ℓ} {B : Type κ} (m : Read A) (f : A → Read B) (enc enc' : List ℕ) (a : A) (b : B)
    → Reads m enc a
    → Reads (f a) enc' b
    → Reads (m >>= f) (enc ++ enc') b
Reads-bind m f enc enc' a b hm hf = record { runs = whole }
  where
    whole :
        (pre rest : List ℕ)
        → (m >>= f) (reader (pre ++ ((enc ++ enc') ++ rest)) (length pre))
          ≡ ok (b, reader (pre ++ ((enc ++ enc') ++ rest)) (length pre + length (enc ++ enc')))
    whole pre rest =
        let after =
          rw (append_assoc pre enc (enc' ++ rest), length-append pre enc) at
            (hf.runs (pre ++ enc) rest) in
        rw (append_assoc enc enc' rest, hm.runs pre (enc' ++ rest))
          (after
            ∙ ap (λ n. ok (b, reader (pre ++ (enc ++ (enc' ++ rest))) n))
                (omega (arith, length-append enc enc')))

slice-append :
    (pre enc rest : List ℕ) → slice (pre ++ (enc ++ rest)) (length pre) (length enc) ≡ enc
slice-append pre enc rest = rw (drop-length-append, take-length-append)

fits_in :
    (pre enc rest : List ℕ) → leb (length pre + length enc) (length (pre ++ (enc ++ rest))) ≡ true
fits_in pre enc rest = ground (arith, length-append pre (enc ++ rest), length-append enc rest)

pub Reads-read_bytes : (bs : List ℕ) → Reads (read_bytes (length bs)) bs bs
unfolding read_bytes
Reads-read_bytes bs = record {
  runs = λ pre rest. rw (fits_in pre bs rest, slice-append pre bs rest);
}

-- A value of `n` little-endian bytes, read through `slice`.
le_slice :
    (n v : ℕ) (pre rest : List ℕ)
    → v < 256 ^ n
    → (leb (length pre + n) (length (pre ++ (to_le n v ++ rest))) ≡ true)
      × (le_bytes_to_big_int (slice (pre ++ (to_le n v ++ rest)) (length pre) n) ≡ v)
le_slice n v pre rest h = (
  rw (length-to_le n v) at (fits_in pre (to_le n v) rest),
  rw (rw (length-to_le n v) at (slice-append pre (to_le n v) rest))
      (le_bytes_to_big_int-to_le n v h),
)

-- The hypothesis that the value fits the width is what makes the width enough.
pub Reads-u8 : (v : ℕ) → v < 256 → Reads read_u8 (v ∷ []) v
unfolding read_u8
Reads-u8 v h = record {
  runs = λ pre rest.
      let same : v % 256 ≡ v = omega arith in
      let one : to_le 1 v ≡ v ∷ [] = unfold to_le in ap (λ n. n ∷ []) same in
      let (fits, value) = le_slice 1 v pre rest (omega arith) in
      rw (rw one at fits, rw one at value);
}

pub Reads-u16 : (v : ℕ) → v < 2 ^ 16 → Reads read_u16le (to_le 2 v) v
unfolding read_u16le
Reads-u16 v h = record {
  runs = λ pre rest.
      let (fits, value) = le_slice 2 v pre rest (omega arith) in rw (fits, value, length-to_le 2 v);
}

pub Reads-u32 : (v : ℕ) → v < 2 ^ 32 → Reads read_u32le (to_le 4 v) v
unfolding read_u32le
Reads-u32 v h = record {
  runs = λ pre rest.
      let (fits, value) = le_slice 4 v pre rest (omega arith) in rw (fits, value, length-to_le 4 v);
}

pub Reads-u64 : (v : ℕ) → v < 2 ^ 64 → Reads read_u64le (to_le 8 v) v
unfolding read_u64le
Reads-u64 v h = record {
  runs = λ pre rest.
      let (fits, value) = le_slice 8 v pre rest (omega arith) in rw (fits, value, length-to_le 8 v);
}

pub Reads-i32 : (z : ℤ) → IsInt32 z → Reads read_i32le (to_le 4 (of_int32 z)) z
unfolding read_i32le
Reads-i32 z h = record {
  runs = λ pre rest.
      let (same, lt) = to_int32-of_int32 z h in
      let (fits, value) = le_slice 4 (of_int32 z) pre rest lt in
      rw (fits, value, length-to_le 4 (of_int32 z), same);
}

module _ {ℓ} {A : Type ℓ} where
  abbrev pub encode_all : (A → List ℕ) → List A → List ℕ
  encode_all enc [] = []
  encode_all enc (x ∷ xs) = enc x ++ encode_all enc xs

  pub Reads-many :
      (item : Read A) (enc : A → List ℕ) (xs : List A)
      → All (λ x. Reads item (enc x) x) xs
      → Reads (read_many item (length xs)) (encode_all enc xs) xs
  unfolding read_many
  Reads-many item enc [] h = Reads-pure []
  Reads-many item enc (x ∷ xs) (hx, hxs) =
      Reads-bind item (λ a. read_many item (length xs) >>= λ r. pure (a ∷ r)) (enc x)
        (encode_all enc xs) x (x ∷ xs) hx
        (rw (sym (append-nil (encode_all enc xs))) (
          Reads-bind (read_many item (length xs)) (λ r. pure (x ∷ r)) (encode_all enc xs) [] xs
            (x ∷ xs) (Reads-many item enc xs hxs) (Reads-pure (x ∷ xs))))

pub Reads-check {ℓ} :
    {A : Type ℓ} (test : Bool) (message : String) (k : Read A) (enc : List ℕ) (a : A)
    → test ≡ true
    → Reads k enc a
    → Reads (check test message >> k) enc a
Reads-check test message k enc a h r = record { runs = λ pre rest. rw h (r.runs pre rest) }

-- The byte at the reader's place, and the one behind it.
pub peek_here :
    (b : ℕ) (pre rest : List ℕ)
    → peek_u8 0 (reader (pre ++ (b ∷ rest)) (length pre))
      ≡ ok (b, reader (pre ++ (b ∷ rest)) (length pre))
unfolding peek_u8 le_bytes_to_big_int
peek_here b pre rest =
    let at : length pre + 0 ≡ length pre = omega arith in
    rw (fits_in pre (b ∷ []) rest)
      (let z : 0 + b ≡ b = omega arith in rw (at, drop-length-append, z))

pub peek_next :
    (a b : ℕ) (pre rest : List ℕ)
    → peek_u8 1 (reader (pre ++ (a ∷ b ∷ rest)) (length pre))
      ≡ ok (b, reader (pre ++ (a ∷ b ∷ rest)) (length pre))
unfolding peek_u8 le_bytes_to_big_int
peek_next a b pre rest = rw (fits_in pre (a ∷ b ∷ []) rest) (
    let z : 0 + b ≡ b = omega arith in
    rw (drop-add (length pre) 1 (pre ++ (a ∷ b ∷ rest)), drop-length-append, z))
