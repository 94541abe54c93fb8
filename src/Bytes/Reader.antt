-- ===== src/Bytes/Reader.antt =====
-- `ByteReader` of packages/core/src/bytes.ts. A method takes the reader and returns its result with
-- the reader's new state, or throws.
use ordspv.Common.{
  ℕ, zero, suc, ◌+◌, ◌-◌, ◌^◌, Bool, List, [], ◌∷◌, Result, ok, err, throw, leb, ltb, ◌==◌,
  if◌then◌else◌, length, take, drop, String, Error,
}
use ordspv.Common
use ordspv.Common.Int.{ℤ}
use ordspv.Bytes.Order.{le_bytes_to_big_int, to_int32}

pub record Reader : Type 0 where
  pub bytes : List ℕ
  pub pos : ℕ

abbrev pub reader : List ℕ → ℕ → Reader
reader bs p = record { bytes = bs; pos = p }

abbrev pub Read {ℓ} : Type ℓ → Type ℓ
Read A = Reader → Result (A × Reader)

abbrev pub pure {ℓ} : {A : Type ℓ} → A → Read A
pure a r = ok (a, r)

infixl 5 ◌>>=◌ ◌>>◌
abbrev pub ◌>>=◌ {ℓ κ} : {A : Type ℓ} {B : Type κ} → Read A → (A → Read B) → Read B
m >>= f = λ r. Common.◌>>=◌ (m r) (λ (a, r'). f a r')

abbrev pub ◌>>◌ {ℓ} : {B : Type ℓ} → Read (Unit {0}) → Read B → Read B
m >> k = m >>= λ _. k

abbrev pub fail {ℓ} : {A : Type ℓ} → Error → Read A
fail e r = err e

-- `if (!test) throw ...`
abbrev pub check : Bool → String → Read (Unit {0})
check test message r = if test then ok (tt, r) else throw message

unfoldable pub remaining : Reader → ℕ
remaining r = length r.bytes - r.pos

-- `this.bytes.slice(at, at + n)`
abbrev pub slice : List ℕ → ℕ → ℕ → List ℕ
slice bytes at n = take n (drop at bytes)

unfoldable pub need : ℕ → Read (Unit {0})
need n r = check (leb (r.pos + n) (length r.bytes)) "unexpected end of data" r

unfoldable pub read_bytes : ℕ → Read (List ℕ)
unfolding need
read_bytes n = do need n; λ r. ok (slice r.bytes r.pos n, record r { pos = r.pos + n })

unfoldable pub read_u8 : Read ℕ
unfolding need
read_u8 = do
  need 1
  λ r. ok (le_bytes_to_big_int (slice r.bytes r.pos 1), record r { pos = r.pos + 1 })

-- A byte ahead, with nothing consumed.
unfoldable pub peek_u8 : ℕ → Read ℕ
unfolding need
peek_u8 offset = do
  need (offset + 1)
  λ r. ok (le_bytes_to_big_int (slice r.bytes (r.pos + offset) 1), r)

unfoldable pub read_u16le : Read ℕ
unfolding need
read_u16le = do
  need 2
  λ r. ok (le_bytes_to_big_int (slice r.bytes r.pos 2), record r { pos = r.pos + 2 })

unfoldable pub read_u32le : Read ℕ
unfolding need
read_u32le = do
  need 4
  λ r. ok (le_bytes_to_big_int (slice r.bytes r.pos 4), record r { pos = r.pos + 4 })

unfoldable pub read_i32le : Read ℤ
unfolding need
read_i32le = do
  need 4
  λ r. ok (to_int32 (le_bytes_to_big_int (slice r.bytes r.pos 4)), record r { pos = r.pos + 4 })

unfoldable pub read_u64le : Read ℕ
unfolding need
read_u64le = do
  need 8
  λ r. ok (le_bytes_to_big_int (slice r.bytes r.pos 8), record r { pos = r.pos + 8 })

-- `r.pos += n`
unfoldable pub skip : ℕ → Read (Unit {0})
skip n r = ok (tt, record r { pos = r.pos + n })

abbrev pub max_safe_integer : ℕ
max_safe_integer = 2 ^ 53 - 1

-- CompactSize behind its first byte. A wider form than the value needs is accepted.
unfoldable pub read_var_int_from : ℕ → Read ℕ
read_var_int_from first =
    if ltb first 0xfd
    then pure first
    else (if first == 0xfd then read_u16le else (if first == 0xfe then read_u32le else read_u64le))

unfoldable pub read_var_int : Read ℕ
unfolding read_var_int_from
read_var_int = do first ← read_u8; read_var_int_from first

unfoldable pub read_var_int_num : Read ℕ
read_var_int_num = do
  v ← read_var_int
  check (leb v max_safe_integer) "varint too large for number"
  pure v

-- `for (let i = 0; i < n; i++) out.push(item())`
unfoldable pub read_many {ℓ} : {A : Type ℓ} → Read A → ℕ → Read (List A)
read_many item zero = pure []
read_many item (suc n) = do a ← item; rest ← read_many item n; pure (a ∷ rest)
