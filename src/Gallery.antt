-- ===== src/Gallery.antt =====
-- packages/core/src/gallery.ts: the members of a gallery, read from the properties field. `whole` stands
-- for the arithmetic of doubles: the integer that the bytes of a float are, if they are one.
pub mod Members
pub mod Listed
use mathlib.Core.Option
use ordspv.Common.{
  ℕ, zero, suc, ◌+◌, ◌*◌, ◌^◌, Bool, true, false, ◌&&◌, List, [], ◌∷◌, ◌++◌, Option, none, some,
  Result, ok, err, gallery_encoding, ltb, leb, ◌==◌, if◌then◌else◌, length,
}
use ordspv.Common.Int.{ℤ, pos, negsuc}
use ordspv.Bytes.Hex.{internal_to_display}
use ordspv.Bytes.Reader.{slice}
use ordspv.Cbor.{
  CborValue, number, bigint, float, text, boolean, null, undefined, bytes, array, object, Items,
  nil, cons, Fields, get_field, decode_cbor,
}
use ordspv.Envelope.Payload.{parse_inscription_id_value}
use ordspv.Text.{to_decimal}

abbrev pub property_key_items : ℕ
property_key_items = 0

abbrev pub property_key_gallery_txids : ℕ
property_key_gallery_txids = 2

abbrev pub item_key_id : ℕ
item_key_id = 0

abbrev pub item_key_index : ℕ
item_key_index = 2

abbrev pub max_inscription_index : ℕ
max_inscription_index = 0xffff_ffff

abbrev pub txid_bytes : ℕ
txid_bytes = 32

pub record GalleryInfo : Type 0 where
  pub is_gallery : Bool
  pub items : List (List ℕ)
  pub skipped : ℕ

abbrev pub not_a_gallery : GalleryInfo
not_a_gallery = record { is_gallery = false; items = []; skipped = 0 }

-- `map[String(key)]`
unfoldable pub at : Fields → ℕ → CborValue
at map key = get_field (to_decimal key) map

unfoldable pub in_range : ℤ → Option ℕ
in_range (pos n) = if leb n max_inscription_index then some n else none
in_range (negsuc n) = none

-- The packed txids, when they are a byte string.
unfoldable pub packed_of : CborValue → Option (List ℕ)
packed_of (bytes b) = some b
packed_of v = none

module _ (whole : List ℕ → Option ℤ) where
  -- `Number.isInteger` holds of a float that is a whole number.
  unfoldable pub inscription_index : CborValue → Option ℕ
  unfolding in_range
  inscription_index undefined = some 0
  inscription_index (number n) = in_range n
  inscription_index (bigint n) = in_range n
  inscription_index (float b) = Option.bind (whole b) in_range
  inscription_index v = none

  -- `items.push(id)`
  unfoldable pub push : List ℕ → GalleryInfo → GalleryInfo
  push id info = record info { items = info.items ++ (id ∷ []) }

  -- `skipped++`
  unfoldable pub skip : GalleryInfo → GalleryInfo
  skip info = record info { skipped = info.skipped + 1 }

  -- The item at position `i`: the txid from the packed ones, the index from the item.
  unfoldable pub add_packed : Option (List ℕ) → ℕ → CborValue → GalleryInfo → GalleryInfo
  unfolding push skip
  add_packed none i index info = skip info
  add_packed (some packed) i index info =
      if ltb (length packed) (txid_bytes * (i + 1))
      then skip info
      else (elim (inscription_index index) [
        | none ↦ skip info
        | some n ↦
            push
              (internal_to_display (slice packed (txid_bytes * i) txid_bytes)
                ++ (b'i' ∷ to_decimal n))
              info
      ])

  -- The item carries the whole serialized id, or its place in the packed txids counts.
  unfoldable pub add_serialized :
      Option (List ℕ) → ℕ → CborValue → CborValue → GalleryInfo → GalleryInfo
  unfolding add_packed push skip
  add_serialized packed i index (bytes b) info = elim (parse_inscription_id_value b) [
    | some id ↦ push id info
    | none ↦ skip info
  ]
  add_serialized packed i index v info = add_packed packed i index info

  unfoldable pub add_entry : Option (List ℕ) → ℕ → CborValue → GalleryInfo → GalleryInfo
  unfolding add_serialized skip
  add_entry packed i (object entry) info =
      add_serialized packed i (at entry item_key_index) (at entry item_key_id) info
  add_entry packed i v info = skip info

  -- `entries.forEach`
  unfoldable pub members_loop : Option (List ℕ) → ℕ → Items → GalleryInfo → GalleryInfo
  unfolding add_entry
  members_loop packed i nil info = info
  members_loop packed i (cons entry entries) info =
      members_loop packed (i + 1) entries (add_entry packed i entry info)

  unfoldable pub entries_gallery : Fields → CborValue → GalleryInfo
  unfolding packed_of
  entries_gallery map (array entries) =
      members_loop (packed_of (at map property_key_gallery_txids)) 0 entries
        (record { is_gallery = true; items = []; skipped = 0 })
  entries_gallery map v = not_a_gallery

  unfoldable pub map_gallery : CborValue → GalleryInfo
  unfolding entries_gallery
  map_gallery (object map) = entries_gallery map (at map property_key_items)
  map_gallery v = not_a_gallery

  module _ (utf8 : List ℕ → List ℕ) (stringify : CborValue → Result (List ℕ)) where
    unfoldable pub parse_gallery : List ℕ → GalleryInfo
    unfolding map_gallery
    parse_gallery properties =
        let decoded : GalleryInfo = (elim (decode_cbor utf8 stringify properties) [
          | ok value ↦ map_gallery value
          | err e ↦ not_a_gallery
        ]) in
        if length properties == 0 then not_a_gallery else decoded

    -- `if (!options.decodedProperties && inscription.propertyEncoding)`: an empty encoding does not throw.
    unfoldable pub encoded_gallery : Option (List ℕ) → List ℕ → Result GalleryInfo
    encoded_gallery none raw = ok (parse_gallery raw)
    encoded_gallery (some []) raw = ok (parse_gallery raw)
    encoded_gallery (some (c ∷ encoding)) raw = err (gallery_encoding (c ∷ encoding))

    -- The properties, their encoding, and the bytes that the caller decompressed.
    unfoldable pub inscription_gallery :
        Option (List ℕ) → Option (List ℕ) → Option (List ℕ) → Result GalleryInfo
    unfolding encoded_gallery
    inscription_gallery properties encoding (some decoded) = ok (parse_gallery decoded)
    inscription_gallery none encoding none = ok not_a_gallery
    inscription_gallery (some raw) encoding none = encoded_gallery encoding raw

    unfoldable pub gallery_items :
        Option (List ℕ) → Option (List ℕ) → Option (List ℕ) → Result (List (List ℕ))
    gallery_items properties encoding decoded =
        elim (inscription_gallery properties encoding decoded) [
          | ok info ↦ ok info.items
          | err e ↦ err e
        ]
