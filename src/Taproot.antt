-- ===== src/Taproot.antt =====
-- packages/core/src/taproot.ts: BIP-341 script-path commitments. SHA-256 and the secp256k1 arithmetic of
-- @noble/curves are parameters.
pub mod Commits
use ordspv.Common.{
  or_throw, ℕ, zero, suc, ◌+◌, ◌-◌, ◌*◌, ◌/◌, ◌%◌, Bool, false, not, ◌&&◌, ◌||◌, List, [], ◌∷◌,
  ◌++◌, Option, none, some, Result, ok, throw, require, failure, ◌>>=◌, ◌>>◌, ltb, ◌==◌,
  if◌then◌else◌, length, take, drop, get_or, foldl, reverse,
}
use ordspv.Bytes.Hex.{bytes_equal}
use ordspv.Bytes.Order.{be_bytes_to_big_int}
use ordspv.Bytes.Reader.{slice}
use ordspv.Bytes.Writer.{write_u8, write_var_int, write_bytes, to_bytes}
use ordspv.Tx.Hash.{tagged_hash}

pub record ControlBlock : Type 0 where
  pub leaf_version : ℕ
  pub output_key_parity : ℕ
  pub internal_key : List ℕ
  pub path : List (List ℕ)

-- `bytes.slice(33 + i * 32, 33 + (i + 1) * 32)` for `n` rounds from `i`.
unfoldable pub path_nodes : ℕ → ℕ → List ℕ → List (List ℕ)
path_nodes zero i bs = []
path_nodes (suc n) i bs = slice bs (33 + i * 32) 32 ∷ path_nodes n (i + 1) bs

-- `& 0xfe` and `& 0x01` of a byte.
unfoldable pub parse_control_block : List ℕ → Result ControlBlock
parse_control_block bs =
    if ltb (length bs) 33 || not ((length bs - 33) % 32 == 0)
    then throw "invalid control block length"
    else (let depth = (length bs - 33) / 32 in
        if ltb 128 depth
        then throw "control block merkle path too deep"
        else ok (record {
          leaf_version = get_or bs 0 0 / 2 * 2;
          output_key_parity = get_or bs 0 0 % 2;
          internal_key = slice bs 1 32;
          path = path_nodes depth 0 bs;
        }))

-- The lexicographic comparison of `tapBranch`, over the bytes of two hashes.
unfoldable pub must_swap : List ℕ → List ℕ → Bool
must_swap [] b = false
must_swap (x ∷ xs) [] = false
must_swap (x ∷ xs) (y ∷ ys) = if x == y then must_swap xs ys else ltb y x

unfoldable pub is_p2tr : List ℕ → Bool
is_p2tr spk = (length spk == 34) && ((get_or spk 0 0 == 0x51) && (get_or spk 1 0 == 0x20))

pub record Tapscript : Type 0 where
  pub script : List ℕ
  pub control_block : List ℕ

-- The test for an annex, on the last item of a stack of two at least.
unfoldable pub is_annex : List ℕ → Bool
is_annex item = ltb 0 (length item) && (get_or item 0 0 == 0x50)

-- The stack is read from its last item on.
unfoldable pub last_two : List (List ℕ) → Option Tapscript
last_two [] = none
last_two (a ∷ []) = none
last_two (control_block ∷ script ∷ below) =
    some (record { script = script; control_block = control_block })

unfoldable pub from_top : List (List ℕ) → Option Tapscript
unfolding is_annex last_two
from_top [] = none
from_top (a ∷ []) = none
from_top (top ∷ next ∷ below) =
    if is_annex top then last_two (next ∷ below) else last_two (top ∷ next ∷ below)

unfoldable pub extract_tapscript : List (List ℕ) → Option Tapscript
unfolding from_top
extract_tapscript witness = from_top (reverse witness)

-- The curve: its order, `Point.fromBytes`, `P + tweak * G`, which
-- throws on a scalar that it refuses, and the compressed form of a point.
pub record Curve : Type 1 where
  pub Point : Type 0
  pub order : ℕ
  pub from_bytes : List ℕ → Option Point
  pub add_tweak : Point → ℕ → Option Point
  pub is_zero : Point → Bool
  pub compress : Point → List ℕ

pub record ScriptPathCheck : Type 0 where
  pub output_key : List ℕ
  pub leaf_hash : List ℕ
  pub merkle_root : List ℕ

abbrev tag_leaf : List ℕ
tag_leaf = b'T' ∷ b'a' ∷ b'p' ∷ b'L' ∷ b'e' ∷ b'a' ∷ b'f' ∷ []

abbrev tag_branch : List ℕ
tag_branch = b'T' ∷ b'a' ∷ b'p' ∷ b'B' ∷ b'r' ∷ b'a' ∷ b'n' ∷ b'c' ∷ b'h' ∷ []

abbrev tag_tweak : List ℕ
tag_tweak = b'T' ∷ b'a' ∷ b'p' ∷ b'T' ∷ b'w' ∷ b'e' ∷ b'a' ∷ b'k' ∷ []

module _ (sha256 : List ℕ → List ℕ) where
  unfoldable pub tap_leaf_hash : List ℕ → ℕ → List ℕ
  tap_leaf_hash script leaf_version =
      tagged_hash sha256 tag_leaf
        (to_bytes (write_bytes script (write_var_int (length script) (write_u8 leaf_version []))))

  unfoldable pub tap_branch : List ℕ → List ℕ → List ℕ
  tap_branch a b =
      if must_swap (take 32 a) (take 32 b)
      then tagged_hash sha256 tag_branch (b ++ a)
      else tagged_hash sha256 tag_branch (a ++ b)

  unfoldable pub tap_merkle_root : List ℕ → List (List ℕ) → List ℕ
  tap_merkle_root leaf_hash = foldl tap_branch leaf_hash

  module _ (curve : Curve) where
    open curve use {order, from_bytes, add_tweak, is_zero, compress}

    -- `lift_x`: an x-only key is implicitly even.
    unfoldable pub lift_x : List ℕ → Result curve.Point
    lift_x key = elim (from_bytes (0x02 ∷ key)) [
      | some p ↦ ok p
      | none ↦ throw "internal key is not a valid x-only point"
    ]

    unfoldable pub verify_script_path_commitment : List ℕ → List ℕ → List ℕ → Result ScriptPathCheck
    unfolding lift_x
    verify_script_path_commitment script control_block script_pub_key = do
      require (is_p2tr script_pub_key) (failure "spent output is not P2TR")
      cb ← parse_control_block control_block
      let output_key = slice script_pub_key 2 32
      let leaf_hash = tap_leaf_hash script cb.leaf_version
      let merkle_root = tap_merkle_root leaf_hash cb.path
      let tweak =
          be_bytes_to_big_int (tagged_hash sha256 tag_tweak (cb.internal_key ++ merkle_root))
      require (ltb tweak order) (failure "tap tweak >= curve order")
      p ← lift_x cb.internal_key
      q ← or_throw (add_tweak p tweak) "invalid scalar"
      require (not (is_zero q)) (failure "derived output key is point at infinity")
      let q_bytes = compress q
      let parity = (if get_or q_bytes 0 0 == 0x03 then 1 else 0)
      require (bytes_equal (drop 1 q_bytes) output_key)
          (failure "taproot commitment mismatch: derived output key != scriptPubKey key")
      require (parity == cb.output_key_parity)
          (failure "taproot commitment mismatch: output key parity")
      ok (record { output_key = output_key; leaf_hash = leaf_hash; merkle_root = merkle_root })
