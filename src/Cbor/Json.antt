-- ===== src/Cbor/Json.antt =====
-- What `decodeCborJson` of packages/core/src/cbor.ts leaves in its result.
use ordspv.Common.{ℕ, ◌≡◌, subst, List, Result, ok, >>=-eq-ok, ok-injective}
use ordspv.Cbor.{
  CborValue, number, bigint, float, text, boolean, null, undefined, bytes, array, object, Items,
  nil, cons, Fields, end, field, walk, walk_items, walk_fields, decode_cbor, decode_cbor_json,
}

-- No byte string and no big integer stands in the value, however deep.
abbrev mutual
  pub IsJson : CborValue → Type 0
  IsJson (bytes b) = ⊥
  IsJson (bigint n) = ⊥
  IsJson (array vs) = AreJson vs
  IsJson (object fs) = FieldsAreJson fs
  IsJson (number n) = Unit {0}
  IsJson (float b) = Unit {0}
  IsJson (text s) = Unit {0}
  IsJson (boolean b) = Unit {0}
  IsJson null = Unit {0}
  IsJson undefined = Unit {0}

  pub AreJson : Items → Type 0
  AreJson nil = Unit {0}
  AreJson (cons v vs) = IsJson v × AreJson vs

  pub FieldsAreJson : Fields → Type 0
  FieldsAreJson end = Unit {0}
  FieldsAreJson (field k v fs) = IsJson v × FieldsAreJson fs

mutual
  unfolding walk walk_items walk_fields

  walk-IsJson : (v : CborValue) → IsJson (walk v)
  walk-IsJson (bytes b) = tt
  walk-IsJson (bigint n) = tt
  walk-IsJson (array vs) = walk_items-AreJson vs
  walk-IsJson (object fs) = walk_fields-AreJson fs
  walk-IsJson (number n) = tt
  walk-IsJson (float b) = tt
  walk-IsJson (text s) = tt
  walk-IsJson (boolean b) = tt
  walk-IsJson null = tt
  walk-IsJson undefined = tt

  walk_items-AreJson : (vs : Items) → AreJson (walk_items vs)
  walk_items-AreJson nil = tt
  walk_items-AreJson (cons v vs) = (walk-IsJson v, walk_items-AreJson vs)

  walk_fields-AreJson : (fs : Fields) → FieldsAreJson (walk_fields fs)
  walk_fields-AreJson end = tt
  walk_fields-AreJson (field k v fs) = (walk-IsJson v, walk_fields-AreJson fs)

-- What `decodeCborJson` answers has no byte string and no big integer in it.
pub decode_cbor_json-IsJson :
    (utf8 : List ℕ → List ℕ) (stringify : CborValue → Result (List ℕ)) (source : List ℕ)
    {v : CborValue}
    → decode_cbor_json utf8 stringify source ≡ ok v
    → IsJson v
unfolding decode_cbor_json
decode_cbor_json-IsJson utf8 stringify source h =
    let (value, _, e) = >>=-eq-ok (decode_cbor utf8 stringify source) _ h in
    subst IsJson (ok-injective e) (walk-IsJson value)
