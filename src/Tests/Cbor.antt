-- ===== src/Tests/Cbor.antt =====
-- The theorems on CBOR and galleries at concrete inputs.
use ordspv.Common.{
  inr, ℕ, ◌*◌, ◌≤◌, ◌<◌, ◌≡◌, refl, arith, true, List, [], ◌∷◌, ◌++◌, none, some, Option, Result,
  ok, throw, length,
}
use ordspv.Common.Int.{ℤ, pos}
use ordspv.Bytes.Hex.{internal_to_display}
use ordspv.Bytes.Order.{to_le}
use ordspv.Bytes.Reader.{Reader, reader, slice}
use ordspv.Cbor.{
  CborValue, number, bytes, array, object, undefined, Items, nil, cons, Fields, end, field,
  decode_item, decode_cbor, decode_cbor_json,
}
use ordspv.Cbor.Json.{IsJson, decode_cbor_json-IsJson}
use ordspv.Cbor.Reads.{decode_item-reads}
use ordspv.Gallery.{
  GalleryInfo, at, add_entry, packed_of, parse_gallery, property_key_gallery_txids, item_key_id,
  item_key_index, property_key_items, txid_bytes,
}
use ordspv.Gallery.Listed.{Listed, parse_gallery-Listed}
use ordspv.Gallery.Members.{EncodesIndex, add_entry-encodings}
use ordspv.Text.{to_decimal}
use ordspv.Tests.Toy.{as_is, zeros, ok_value}

abbrev stringify : CborValue → Result (List ℕ)
stringify v = throw "no text"

abbrev whole : List ℕ → Option ℤ
whole b = none

-- `{1: [h'0102', 18446744073709551615]}`
abbrev source : List ℕ
source =
    0xa1 ∷ 1 ∷ 0x82 ∷ 0x42 ∷ 1 ∷ 2 ∷ 0x1b ∷ 0xff ∷ 0xff ∷ 0xff ∷ 0xff ∷ 0xff ∷ 0xff ∷ 0xff ∷ 0xff
    ∷ []

abbrev nothing_read : CborValue × Reader
nothing_read = (undefined, reader [] 0)

abbrev read_source : CborValue × Reader
read_source = ok_value (decode_item as_is stringify 5 (reader source 0)) nothing_read

abbrev json : CborValue
json = ok_value (decode_cbor_json as_is stringify source) undefined

-- `{0: [{2: 1}, {0: h'00...'}, 7], 2: h'00...'}`, of an index for the packed txid, an id that
-- is too long, and an entry that is no map.
abbrev properties : List ℕ
properties =
    (0xa2 ∷ 0 ∷ 0x83 ∷ 0xa1 ∷ 2 ∷ 1 ∷ 0xa1 ∷ 0 ∷ 0x58 ∷ 40 ∷ [])
    ++ (zeros 40 ++ ((7 ∷ 2 ∷ 0x58 ∷ 32 ∷ []) ++ zeros 32))

abbrev entries : Items
entries =
    cons (object (field (b'2' ∷ []) (number (pos 1)) end))
      (cons (object (field (b'0' ∷ []) (bytes (zeros 40)) end)) (cons (number (pos 7)) nil))

abbrev gallery : Fields
gallery = field (b'0' ∷ []) (array entries) (field (b'2' ∷ []) (bytes (zeros 32)) end)

abbrev no_members : GalleryInfo
no_members = record { is_gallery = true; items = []; skipped = 0 }

abbrev by_index : Fields
by_index = field (b'2' ∷ []) (number (pos 300)) end

abbrev by_id : Fields
by_id = field (b'0' ∷ []) (bytes (zeros 32 ++ (44 ∷ 1 ∷ []))) end

decoded :
    (decode_item as_is stringify 5 (reader source 0) ≡ ok read_source)
    × (decode_cbor_json as_is stringify source ≡ ok json)
    × (decode_cbor as_is stringify properties ≡ ok (object gallery))
    × (at gallery property_key_items ≡ array entries)
    × ((parse_gallery whole as_is stringify properties).skipped ≡ 2)
    × (at by_index item_key_id ≡ undefined)
    × (at by_index item_key_index ≡ number (pos 300))
    × (at by_id item_key_id ≡ bytes (slice (zeros 32) (txid_bytes * 0) txid_bytes ++ (44 ∷ 1 ∷ [])))
unfolding ordspv.Bytes.Hex.is_hex_char ordspv.Bytes.Hex.all_hex ordspv.Bytes.Hex.hex_value
    ordspv.Bytes.Hex.hex_pairs ordspv.Bytes.Hex.hex_to_bytes ordspv.Bytes.Hex.hex_char
    ordspv.Bytes.Hex.bytes_to_hex ordspv.Bytes.Hex.display_to_internal
    ordspv.Bytes.Hex.internal_to_display ordspv.Bytes.Hex.same_bytes ordspv.Bytes.Hex.bytes_equal
    ordspv.Bytes.Hex.concat_bytes ordspv.Bytes.Order.le_bytes_to_big_int
    ordspv.Bytes.Order.be_bytes_to_big_int ordspv.Bytes.Order.to_le ordspv.Bytes.Order.to_int32
    ordspv.Bytes.Order.of_int32 ordspv.Bytes.Reader.remaining ordspv.Bytes.Reader.need
    ordspv.Bytes.Reader.read_bytes ordspv.Bytes.Reader.read_u8 ordspv.Bytes.Reader.peek_u8
    ordspv.Bytes.Reader.read_u16le ordspv.Bytes.Reader.read_u32le ordspv.Bytes.Reader.read_i32le
    ordspv.Bytes.Reader.read_u64le ordspv.Bytes.Reader.skip ordspv.Bytes.Reader.read_var_int_from
    ordspv.Bytes.Reader.read_var_int ordspv.Bytes.Reader.read_var_int_num
    ordspv.Bytes.Reader.read_many ordspv.Text.lower_char ordspv.Text.to_lower_case
    ordspv.Text.is_digit ordspv.Text.all_digits ordspv.Text.is_decimal
    ordspv.Text.is_canonical_decimal ordspv.Text.decimal_value ordspv.Text.decimal_loop
    ordspv.Text.to_decimal ordspv.Text.is_space ordspv.Text.trim_start ordspv.Text.trim
    ordspv.InscriptionId.is_lower_hex ordspv.InscriptionId.all_lower_hex
    ordspv.InscriptionId.matches_id ordspv.InscriptionId.rejection_for
    ordspv.InscriptionId.message_for ordspv.InscriptionId.parse_normalized
    ordspv.InscriptionId.parse_inscription_id ordspv.InscriptionId.format_inscription_id
    ordspv.InscriptionId.is_accepted ordspv.InscriptionId.is_inscription_id
    ordspv.InscriptionId.message_of ordspv.InscriptionId.inscription_id_error
    ordspv.InscriptionId.has_inscription_id_shape ordspv.InscriptionId.parse_expected
    ordspv.InscriptionId.check_expected_inscription_id ordspv.Envelope.Payload.split_loop
    ordspv.Envelope.Payload.has_tag ordspv.Envelope.Payload.duplicate_loop
    ordspv.Envelope.Payload.split_payload ordspv.Envelope.Payload.parse_inscription_id_value
    ordspv.Envelope.Payload.decode_le_u64_trimmed ordspv.Cbor.u8 ordspv.Cbor.take ordspv.Cbor.wide
    ordspv.Cbor.uint ordspv.Cbor.to_number_if_safe ordspv.Cbor.peek_break ordspv.Cbor.chunks
    ordspv.Cbor.string_bytes ordspv.Cbor.set_field ordspv.Cbor.get_field ordspv.Cbor.many
    ordspv.Cbor.until_break ordspv.Cbor.sequence ordspv.Cbor.items_of ordspv.Cbor.fields_of
    ordspv.Cbor.string_of ordspv.Cbor.key_to_string ordspv.Cbor.pair ordspv.Cbor.floating
    ordspv.Cbor.simple ordspv.Cbor.body ordspv.Cbor.decode_item ordspv.Cbor.decode_cbor
    ordspv.Cbor.decode_cbor_json ordspv.Gallery.at ordspv.Gallery.in_range ordspv.Gallery.packed_of
    ordspv.Gallery.inscription_index ordspv.Gallery.push ordspv.Gallery.skip
    ordspv.Gallery.add_packed ordspv.Gallery.add_serialized ordspv.Gallery.add_entry
    ordspv.Gallery.members_loop ordspv.Gallery.entries_gallery ordspv.Gallery.map_gallery
    ordspv.Gallery.parse_gallery ordspv.Gallery.encoded_gallery ordspv.Gallery.inscription_gallery
    ordspv.Gallery.gallery_items
decoded = (refl, refl, refl, refl, refl, refl, refl, refl)

decode_item-reads_example :
    (0 < read_source.1.pos) × (read_source.1.pos ≤ length source) × (read_source.1.bytes ≡ source)
decode_item-reads_example =
    decode_item-reads as_is stringify 5 (reader source 0) {v = read_source.0}
      {after = read_source.1} (omega arith) decoded.0

decode_cbor_json-IsJson_example : IsJson json
decode_cbor_json-IsJson_example = decode_cbor_json-IsJson as_is stringify source decoded.1

index_bytes : EncodesIndex 300 (44 ∷ 1 ∷ [])
unfolding to_le
index_bytes = record { fits = omega arith; value_is = refl; trimmed = inr (inr refl) }

add_entry-encodings_example :
    let id =
      internal_to_display (slice (zeros 32) (txid_bytes * 0) txid_bytes)
      ++ (b'i' ∷ to_decimal 300) in
    let added = record no_members { items = no_members.items ++ (id ∷ []) } in
    (add_entry whole (some (zeros 32)) 0 (object by_index) no_members ≡ added)
    × (add_entry whole none 4 (object by_id) no_members ≡ added)
add_entry-encodings_example =
    add_entry-encodings whole (zeros 32) (44 ∷ 1 ∷ []) none 0 4 300 by_index by_id no_members
      (omega arith) (omega arith) index_bytes decoded.5 decoded.6 decoded.7

parse_gallery-Listed_example :
    let info = parse_gallery whole as_is stringify properties in
    (info.is_gallery ≡ true)
    × Listed whole
        (packed_of (at gallery property_key_gallery_txids))
        0
        entries
        info.items
        info.skipped
parse_gallery-Listed_example =
    parse_gallery-Listed as_is stringify whole properties gallery entries decoded.2 decoded.3
