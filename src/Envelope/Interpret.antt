-- ===== src/Envelope/Interpret.antt =====
-- `interpretEnvelope` of packages/core/src/envelope.ts. `decode_utf8` is the platform's lossy
-- TextDecoder.
use ordspv.Common.{
  ℕ, ◌%◌, Bool, false, ◌||◌, List, [], ◌∷◌, ◌++◌, Option, none, some, ◌==◌, if◌then◌else◌,
}
use mathlib.Core.Option
use ordspv.Bytes.Hex.{bytes_equal, concat_bytes}
use ordspv.Envelope.Number.{RawEnvelope}
use ordspv.Envelope.Payload.{
  Field, split_payload, parse_inscription_id_value, decode_le_u64_trimmed,
}

-- An entry of the map `byKey`: a tag and its values, first to last.
abbrev pub Entry : Type 0
Entry = List ℕ × List (List ℕ)

-- `byKey`, in insertion order; the hex of a tag is equal exactly when the tag is.
abbrev pub TagMap : Type 0
TagMap = List Entry

unfoldable pub add_value : List ℕ → List ℕ → TagMap → TagMap
add_value tag value [] = (tag, value ∷ []) ∷ []
add_value tag value ((t, values) ∷ rest) =
    if bytes_equal t tag
    then (t, values ++ (value ∷ [])) ∷ rest
    else (t, values) ∷ add_value tag value rest

unfoldable pub group_fields : List Field → TagMap → TagMap
unfolding add_value
group_fields [] m = m
group_fields ((tag, value) ∷ rest) m = group_fields rest (add_value tag value m)

unfoldable pub values_of : List ℕ → TagMap → Option (List (List ℕ))
values_of tag [] = none
values_of tag ((t, values) ∷ rest) = if bytes_equal t tag then some values else values_of tag rest

unfoldable pub delete_tag : List ℕ → TagMap → TagMap
delete_tag tag [] = []
delete_tag tag ((t, values) ∷ rest) =
    if bytes_equal t tag then rest else (t, values) ∷ delete_tag tag rest

unfoldable pub set_values : List ℕ → List (List ℕ) → TagMap → TagMap
set_values tag values [] = []
set_values tag values ((t, old) ∷ rest) =
    if bytes_equal t tag then (t, values) ∷ rest else (t, old) ∷ set_values tag values rest

-- The first value; the rest of the values stay in the map.
unfoldable pub take_first : List ℕ → TagMap → Option (List ℕ) × TagMap
unfolding values_of delete_tag set_values
take_first tag m = elim (values_of tag m) [
  | none ↦ (none, m)
  | some [] ↦ (none, m)
  | some (first ∷ []) ↦ (some first, delete_tag tag m)
  | some (first ∷ next ∷ rest) ↦ (some first, set_values tag (next ∷ rest) m)
]

unfoldable pub take_array : List ℕ → TagMap → List (List ℕ) × TagMap
unfolding values_of delete_tag
take_array tag m = elim (values_of tag m) [
  | none ↦ ([], m)
  | some values ↦ (values, delete_tag tag m)
]

unfoldable pub take_chunked : List ℕ → TagMap → Option (List ℕ) × TagMap
unfolding values_of delete_tag
take_chunked tag m = elim (values_of tag m) [
  | none ↦ (none, m)
  | some values ↦ (some (concat_bytes values), delete_tag tag m)
]

-- A leftover tag whose first byte is even.
unfoldable pub even_tag : List ℕ → Bool
even_tag [] = false
even_tag (b ∷ bs) = b % 2 == 0

unfoldable pub some_even : TagMap → Bool
unfolding even_tag
some_even [] = false
some_even ((tag, values) ∷ rest) = even_tag tag || some_even rest

pub record Flags : Type 0 where
  pub incomplete_field : Bool
  pub duplicate_field : Bool
  pub unrecognized_even_field : Bool
  pub pushnum : Bool
  pub stutter : Bool

pub record Inscription : Type 0 where
  pub index : ℕ
  pub input : ℕ
  pub content_type : Option (List ℕ)
  pub content_type_bytes : Option (List ℕ)
  pub body : Option (List ℕ)
  pub content_encoding : Option (List ℕ)
  pub metaprotocol : Option (List ℕ)
  pub metadata : Option (List ℕ)
  pub properties : Option (List ℕ)
  pub property_encoding : Option (List ℕ)
  pub pointer : Option ℕ
  pub parents : List (List ℕ)
  pub delegate : Option (List ℕ)
  pub rune : Option (List ℕ)
  pub flags : Flags
  pub unbound_by_even_field : Bool

-- What the takes leave and yield, in the source's order.
pub record Taken : Type 0 where
  pub content_type : Option (List ℕ)
  pub pointer : Option (List ℕ)
  pub parents : List (List ℕ)
  pub metadata : Option (List ℕ)
  pub metaprotocol : Option (List ℕ)
  pub content_encoding : Option (List ℕ)
  pub delegate : Option (List ℕ)
  pub rune : Option (List ℕ)
  pub properties : Option (List ℕ)
  pub property_encoding : Option (List ℕ)
  pub left : TagMap

unfoldable pub take_fields : TagMap → Taken
unfolding take_first take_array take_chunked
take_fields m =
    let (content_type, m1) = take_first (1 ∷ []) m in
    let (pointer, m2) = take_first (2 ∷ []) m1 in
    let (parents, m3) = take_array (3 ∷ []) m2 in
    let (metadata, m4) = take_chunked (5 ∷ []) m3 in
    let (metaprotocol, m5) = take_first (7 ∷ []) m4 in
    let (content_encoding, m6) = take_first (9 ∷ []) m5 in
    let (delegate, m7) = take_first (11 ∷ []) m6 in
    let (rune, m8) = take_first (13 ∷ []) m7 in
    let (properties, m9) = take_chunked (17 ∷ []) m8 in
    let (property_encoding, m10) = take_first (19 ∷ []) m9 in
    record {
      content_type = content_type;
      pointer = pointer;
      parents = parents;
      metadata = metadata;
      metaprotocol = metaprotocol;
      content_encoding = content_encoding;
      delegate = delegate;
      rune = rune;
      properties = properties;
      property_encoding = property_encoding;
      left = m10;
    }

-- The parent values that decode, in their order.
unfoldable pub parent_ids : List (List ℕ) → List (List ℕ)
parent_ids [] = []
parent_ids (v ∷ vs) = elim (parse_inscription_id_value v) [
  | none ↦ parent_ids vs
  | some id ↦ id ∷ parent_ids vs
]

module _ (decode_utf8 : List ℕ → List ℕ) where
  unfoldable pub interpret_envelope : RawEnvelope → Inscription
  unfolding some_even parent_ids
  interpret_envelope env =
      let f = split_payload env.payload in
      let t = take_fields (group_fields f.fields []) in
      let unrecognized = some_even t.left in
      record {
        index = env.index;
        input = env.input;
        content_type = Option.map decode_utf8 t.content_type;
        content_type_bytes = t.content_type;
        body = Option.map concat_bytes f.body_chunks;
        content_encoding = Option.map decode_utf8 t.content_encoding;
        metaprotocol = Option.map decode_utf8 t.metaprotocol;
        metadata = t.metadata;
        properties = t.properties;
        property_encoding = Option.map decode_utf8 t.property_encoding;
        pointer = Option.bind t.pointer decode_le_u64_trimmed;
        parents = parent_ids t.parents;
        delegate = Option.bind t.delegate parse_inscription_id_value;
        rune = t.rune;
        flags = record {
          incomplete_field = f.incomplete_field;
          duplicate_field = f.duplicate_field;
          unrecognized_even_field = unrecognized;
          pushnum = env.pushnum;
          stutter = env.stutter;
        };
        unbound_by_even_field = unrecognized;
      }
