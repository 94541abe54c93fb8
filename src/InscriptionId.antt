-- ===== src/InscriptionId.antt =====
-- packages/core/src/inscriptionId.ts: inscription ids, `<txid>i<index>`.
pub mod RoundTrip
pub mod Agree
use ordspv.Common.{
  ℕ, ◌+◌, ◌-◌, Bool, true, false, not, ◌&&◌, ◌||◌, List, [], ◌∷◌, ◌++◌, Option, none, some, Result,
  ok, err, throw, failure, require, ◌>>=◌, ◌>>◌, leb, ltb, ◌==◌, if◌then◌else◌, length, take, drop,
  get_or, String,
}
use ordspv.Bytes.Hex.{display_to_internal, bytes_equal}
use ordspv.Bytes.Reader.{max_safe_integer}
use ordspv.Text.{to_lower_case, is_digit, is_canonical_decimal, decimal_value, to_decimal}

pub record InscriptionId : Type 0 where
  pub txid : List ℕ
  pub txid_le : List ℕ
  pub index : ℕ

unfoldable pub is_lower_hex : ℕ → Bool
unfolding is_digit
is_lower_hex c = is_digit c || (leb b'a' c && leb c b'f')

unfoldable pub all_lower_hex : List ℕ → Bool
unfolding is_lower_hex
all_lower_hex [] = true
all_lower_hex (c ∷ cs) = is_lower_hex c && all_lower_hex cs

-- `/^[0-9a-f]{64}i(0|[1-9][0-9]*)$/`
unfoldable pub matches_id : List ℕ → Bool
matches_id s =
    (length (take 64 s) == 64)
    && (all_lower_hex (take 64 s) && ((get_or s 64 0 == b'i') && is_canonical_decimal (drop 65 s)))

abbrev pub max_index : ℕ
max_index = 0xffff_ffff

pub data IdRejection : Type 0 where
  shape range : IdRejection

unfoldable pub rejection_for : List ℕ → Option IdRejection
unfolding matches_id
rejection_for normalized =
    if not (matches_id normalized)
    then some shape
    else (let index = decimal_value (drop 65 normalized) in
        if not (leb index max_safe_integer) || ltb max_index index then some range else none)

unfoldable pub message_for : IdRejection → String
message_for shape = "invalid inscription id"
message_for range = "inscription index out of range"

-- The parser behind its rejections.
unfoldable pub parse_normalized : Option IdRejection → List ℕ → Result InscriptionId
parse_normalized (some rejection) normalized = throw (message_for rejection)
parse_normalized none normalized = do
  txid_le ← display_to_internal (take 64 normalized)
  ok (record {
    txid = take 64 normalized;
    txid_le = txid_le;
    index = decimal_value (drop 65 normalized);
  })

unfoldable pub parse_inscription_id : List ℕ → Result InscriptionId
unfolding parse_normalized
parse_inscription_id id =
    let normalized = to_lower_case id in parse_normalized (rejection_for normalized) normalized

unfoldable pub format_inscription_id : List ℕ → ℕ → List ℕ
format_inscription_id txid index = to_lower_case txid ++ (b'i' ∷ to_decimal index)

unfoldable pub is_accepted : Option IdRejection → Bool
is_accepted none = true
is_accepted (some r) = false

unfoldable pub is_inscription_id : List ℕ → Bool
unfolding is_accepted
is_inscription_id s = is_accepted (rejection_for (to_lower_case s))

unfoldable pub message_of : Option IdRejection → Option String
message_of none = none
message_of (some r) = some (message_for r)

unfoldable pub inscription_id_error : List ℕ → Option String
unfolding message_of
inscription_id_error s = message_of (rejection_for (to_lower_case s))

unfoldable pub has_inscription_id_shape : List ℕ → Bool
has_inscription_id_shape s = matches_id (to_lower_case s)

-- The caller's own argument names itself where it does not parse.
unfoldable pub parse_expected : List ℕ → Result InscriptionId
parse_expected expected = elim (parse_inscription_id expected) [
  | ok wanted ↦ ok wanted
  | err e ↦ throw "expectedInscriptionId"
]

unfoldable pub check_expected_inscription_id : InscriptionId → Option (List ℕ) → Result (Unit {0})
unfolding parse_expected
check_expected_inscription_id id none = ok tt
check_expected_inscription_id id (some expected) = do
  wanted ← parse_expected expected
  require (bytes_equal wanted.txid id.txid && wanted.index == id.index)
      (failure "bundle proves another inscription than the caller asked for")
