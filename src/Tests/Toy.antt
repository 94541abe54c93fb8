-- ===== src/Tests/Toy.antt =====
-- Test data: a hash that answers 32 zero bytes, a curve of one point, and transactions under them.
use ordspv.Common.{
  ℕ, ◌+◌, Bool, true, false, Result, ok, err, List, [], ◌∷◌, ◌++◌, some, replicate, foldl, ◌%◌,
}
use ordspv.Bytes.Hex.{bytes_to_hex}
use ordspv.Taproot.{Curve}

abbrev pub zero_hash : List ℕ → List ℕ
zero_hash bytes = replicate 32 0

abbrev pub point_curve : Curve
point_curve = record {
  Point = Unit {0};
  order = 1;
  from_bytes = λ b. some tt;
  add_tweak = λ p t. some p;
  is_zero = λ p. false;
  compress = λ p. 2 ∷ replicate 32 0;
}

abbrev pub as_is : List ℕ → List ℕ
as_is bytes = bytes

abbrev pub zeros : ℕ → List ℕ
zeros n = replicate n 0

-- A txid under the hash, as hex.
abbrev pub zero_txid : List ℕ
zero_txid = replicate 64 b'0'

-- `<empty> OP_IF "ord" OP_1 "a" <empty> "hi" OP_ENDIF`
abbrev pub ord_script : List ℕ
ord_script = 0 ∷ 0x63 ∷ 3 ∷ 0x6f ∷ 0x72 ∷ 0x64 ∷ 1 ∷ 1 ∷ 1 ∷ 0x61 ∷ 0 ∷ 2 ∷ 0x68 ∷ 0x69 ∷ 0x68 ∷ []

-- A single-leaf control block.
abbrev pub control : List ℕ
control = 0xc0 ∷ zeros 32

abbrev pub p2tr : List ℕ
p2tr = 0x51 ∷ 0x20 ∷ zeros 32

-- version 2, one input of an empty script that spends output 0 of the zero txid, one output of 100
-- sats, and the reveal witness.
abbrev pub reveal_raw : List ℕ
reveal_raw =
    (2 ∷ 0 ∷ 0 ∷ 0 ∷ 0 ∷ 1 ∷ 1 ∷ [])
    ++ (zeros 32
        ++ ((0 ∷ 0 ∷ 0 ∷ 0 ∷ 0 ∷ 0 ∷ 0 ∷ 0 ∷ 0 ∷ 1 ∷ 100 ∷ 0 ∷ 0 ∷ 0 ∷ 0 ∷ 0 ∷ 0 ∷ 0 ∷ 0 ∷ 2 ∷ 15
              ∷ [])
            ++ (ord_script ++ ((33 ∷ []) ++ (control ++ zeros 4)))))

-- One input of the null outpoint, and a P2TR output of 50 bitcoin.
abbrev pub coinbase_raw : List ℕ
coinbase_raw =
    (1 ∷ 0 ∷ 0 ∷ 0 ∷ 1 ∷ [])
    ++ (zeros 32
        ++ ((0xff ∷ 0xff ∷ 0xff ∷ 0xff ∷ 0 ∷ 0 ∷ 0 ∷ 0 ∷ 0 ∷ 1 ∷ 0x00 ∷ 0xf2 ∷ 0x05 ∷ 0x2a ∷ 1 ∷ 0
              ∷ 0 ∷ 0 ∷ 34 ∷ [])
            ++ (p2tr ++ zeros 4)))

-- A header of the bits 0x1d00ffff over a root of zeros.
abbrev pub header_raw : List ℕ
header_raw =
    (1 ∷ 0 ∷ 0 ∷ 0 ∷ []) ++ (zeros 64 ++ (zeros 4 ++ ((0xff ∷ 0xff ∷ 0 ∷ 0x1d ∷ []) ++ zeros 4)))

abbrev pub reveal_hex : List ℕ
reveal_hex = bytes_to_hex reveal_raw

abbrev pub coinbase_hex : List ℕ
coinbase_hex = bytes_to_hex coinbase_raw

abbrev pub header_hex : List ℕ
header_hex = bytes_to_hex header_raw

abbrev pub reveal_id : List ℕ
reveal_id = zero_txid ++ (b'i' ∷ b'0' ∷ [])

-- A hash of the sum of the bytes, for trees in which an equal pair is refused.
abbrev pub sum_hash : List ℕ → List ℕ
sum_hash bytes = (foldl (λ v b. v + b) 0 bytes % 256) ∷ replicate 31 0

-- A coinbase with a witness commitment of the byte 7, and a reserved value of zeros.
abbrev pub commit_coinbase_raw : List ℕ
commit_coinbase_raw =
    (1 ∷ 0 ∷ 0 ∷ 0 ∷ 0 ∷ 1 ∷ 1 ∷ [])
    ++ (zeros 32
        ++ ((0xff ∷ 0xff ∷ 0xff ∷ 0xff ∷ 0 ∷ 0 ∷ 0 ∷ 0 ∷ 0 ∷ 1 ∷ [])
            ++ (zeros 8
                ++ ((38 ∷ 0x6a ∷ 0x24 ∷ 0xaa ∷ 0x21 ∷ 0xa9 ∷ 0xed ∷ 7 ∷ [])
                    ++ (zeros 31 ++ ((1 ∷ 32 ∷ []) ++ (zeros 32 ++ zeros 4)))))))

abbrev pub byte_hex : ℕ → List ℕ
byte_hex b = bytes_to_hex (zeros 31 ++ (b ∷ []))

abbrev pub is_ok {ℓ} : {A : Type ℓ} → Result A → Bool
is_ok (ok a) = true
is_ok (err e) = false

-- The value of a result that is one.
abbrev pub ok_value {ℓ} : {A : Type ℓ} → Result A → A → A
ok_value (ok a) other = a
ok_value (err e) other = other
