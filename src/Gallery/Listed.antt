-- ===== src/Gallery/Listed.antt =====
-- The members that `parseGallery` of packages/core/src/gallery.ts lists, by the positions of their entries.
use ordspv.Common.{
  append-nil, append_assoc, none, ◌⊎◌, Bool-cases, ltb→ge, ℕ, suc, ◌+◌, ◌*◌, ◌≤◌, ◌≡◌, refl, inl,
  inr, true, false, List, [], ◌∷◌, ◌++◌, Option, some, Option-cases, Result, ok, ltb, ◌==◌, length,
  arith,
}
use ordspv.Common.Int.{ℤ}
use ordspv.Bytes.Hex.{internal_to_display}
use ordspv.Bytes.Reader.{slice}
use ordspv.Cbor.{
  u8, decode_item, decode_cbor, array, CborValue, number, undefined, bytes, bigint, float, text,
  boolean, null, object, Items, nil, cons, Fields,
}
use ordspv.Envelope.Payload.{parse_inscription_id_value}
use ordspv.Gallery.{
  GalleryInfo, property_key_items, parse_gallery, map_gallery, entries_gallery, packed_of,
  property_key_gallery_txids, item_key_id, item_key_index, txid_bytes, at, inscription_index,
  add_packed, add_serialized, add_entry, members_loop,
}
use ordspv.Text.{to_decimal}

-- The id of an item without a serialized one: the packed txid at its position, with its index.
abbrev NamesPacked : (List ℕ → Option ℤ) → Option (List ℕ) → ℕ → CborValue → List ℕ → Type 0
NamesPacked whole none i index id = ⊥
NamesPacked whole (some packed) i index id =
    (n : ℕ) × (txid_bytes * (i + 1) ≤ length packed)
    × (inscription_index whole index ≡ some n)
    × (id ≡ internal_to_display (slice packed (txid_bytes * i) txid_bytes) ++ (b'i' ∷ to_decimal n))

-- A serialized id names what it encodes, whatever else the item has.
abbrev NamesSerialized :
    (List ℕ → Option ℤ) → Option (List ℕ) → ℕ → CborValue → CborValue → List ℕ → Type 0
NamesSerialized whole packed i index (bytes b) id = parse_inscription_id_value b ≡ some id
NamesSerialized whole packed i index v id = NamesPacked whole packed i index id

-- The entry at a position names an id. Only a map does.
abbrev Names : (List ℕ → Option ℤ) → Option (List ℕ) → ℕ → CborValue → List ℕ → Type 0
Names whole packed i (object entry) id =
    NamesSerialized whole packed i (at entry item_key_index) (at entry item_key_id) id
Names whole packed i v id = ⊥

-- The ids that entries name, from a position on and in their order, and how many of them name none.
pub data Listed (whole : List ℕ → Option ℤ) (packed : Option (List ℕ))
    : ℕ → Items → List (List ℕ) → ℕ → Type 0 where
  listed_end : {i : ℕ} → Listed whole packed i nil [] 0
  listed :
      {i k : ℕ} {e : CborValue} {es : Items} {ids : List (List ℕ)} (id : List ℕ)
      → Names whole packed i e id
      → Listed whole packed (i + 1) es ids k
      → Listed whole packed i (cons e es) (id ∷ ids) k
  passed_over :
      {i k : ℕ} {e : CborValue} {es : Items} {ids : List (List ℕ)}
      → ((id : List ℕ) → Names whole packed i e id → ⊥)
      → Listed whole packed (i + 1) es ids k
      → Listed whole packed i (cons e es) ids (suc k)

module _ (whole : List ℕ → Option ℤ) where
  -- An entry is pushed under the id that it names, or it names none and is counted.
  abbrev Added : (List ℕ → Type 0) → GalleryInfo → GalleryInfo → Type 0
  Added P info after =
      ((id : List ℕ) × P id × (after ≡ record info { items = info.items ++ (id ∷ []) }))
      ⊎ (((id : List ℕ) → P id → ⊥) × (after ≡ record info { skipped = info.skipped + 1 }))

  add_packed-Added :
      (packed : Option (List ℕ)) (i : ℕ) (index : CborValue) (info : GalleryInfo)
      → Added (NamesPacked whole packed i index) info (add_packed whole packed i index info)
  unfolding add_packed
  add_packed-Added none i index info = inr (λ id h. h, refl)
  add_packed-Added (some packed) i index info =
      elim (Bool-cases (ltb (length packed) (txid_bytes * (i + 1)))) [
        | inl short ↦ inr (λ id (n, fits, _, _). ground (arith, short, fits), rw short refl)
        | inr long ↦ elim (Option-cases (inscription_index whole index)) [
          | inl bad ↦ inr (λ id (n, _, good, _). cc (bad, good), rw (long, bad) refl)
          | inr (n, good) ↦ inl (_, (n, ltb→ge _ _ long, good, refl), rw (long, good) refl)
        ]
      ]

  add_serialized-Added :
      (packed : Option (List ℕ)) (i : ℕ) (index serialized : CborValue) (info : GalleryInfo)
      → Added
          (NamesSerialized whole packed i index serialized)
          info
          (add_serialized whole packed i index serialized info)
  unfolding add_serialized
  add_serialized-Added packed i index (bytes b) info =
      elim (Option-cases (parse_inscription_id_value b)) [
        | inl bad ↦ inr (λ id good. cc (bad, good), rw (bad, add_serialized) refl)
        | inr (id, good) ↦ inl (id, good, rw (good, add_serialized) refl)
      ]
  add_serialized-Added packed i index (number n) info = add_packed-Added packed i index info
  add_serialized-Added packed i index (bigint n) info = add_packed-Added packed i index info
  add_serialized-Added packed i index (float b) info = add_packed-Added packed i index info
  add_serialized-Added packed i index (text s) info = add_packed-Added packed i index info
  add_serialized-Added packed i index (boolean b) info = add_packed-Added packed i index info
  add_serialized-Added packed i index null info = add_packed-Added packed i index info
  add_serialized-Added packed i index undefined info = add_packed-Added packed i index info
  add_serialized-Added packed i index (array es) info = add_packed-Added packed i index info
  add_serialized-Added packed i index (object fs) info = add_packed-Added packed i index info

  add_entry-Added :
      (packed : Option (List ℕ)) (i : ℕ) (entry : CborValue) (info : GalleryInfo)
      → Added (Names whole packed i entry) info (add_entry whole packed i entry info)
  unfolding add_entry
  add_entry-Added packed i (object entry) info =
      add_serialized-Added packed i (at entry item_key_index) (at entry item_key_id) info
  add_entry-Added packed i (number n) info = inr (λ id h. h, refl)
  add_entry-Added packed i (bigint n) info = inr (λ id h. h, refl)
  add_entry-Added packed i (float b) info = inr (λ id h. h, refl)
  add_entry-Added packed i (text s) info = inr (λ id h. h, refl)
  add_entry-Added packed i (boolean b) info = inr (λ id h. h, refl)
  add_entry-Added packed i null info = inr (λ id h. h, refl)
  add_entry-Added packed i undefined info = inr (λ id h. h, refl)
  add_entry-Added packed i (bytes b) info = inr (λ id h. h, refl)
  add_entry-Added packed i (array es) info = inr (λ id h. h, refl)

  members_loop-Listed :
      (packed : Option (List ℕ)) (i : ℕ) (entries : Items) (info : GalleryInfo)
      → (ids : List (List ℕ)) × (k : ℕ) × Listed whole packed i entries ids k
        × (members_loop whole packed i entries info
            ≡ record info { items = info.items ++ ids; skipped = info.skipped + k })
  unfolding members_loop
  members_loop-Listed packed i nil info =
      let same : info.skipped + 0 ≡ info.skipped = omega arith in
      ([], 0, listed_end, rw (append-nil info.items, same) refl)
  members_loop-Listed packed i (cons e es) info = elim (add_entry-Added packed i e info) [
    | inl (id, names, pushed) ↦
        let (ids, k, rest, ends) =
          members_loop-Listed packed (i + 1) es (record info { items = info.items ++ (id ∷ []) }) in
        (
          id ∷ ids,
          k,
          listed id names rest,
          rw (pushed, ends) (rw (append_assoc info.items (id ∷ []) ids) refl),
        )
    | inr (none', counted) ↦
        let (ids, k, rest, ends) =
          members_loop-Listed packed (i + 1) es (record info { skipped = info.skipped + 1 }) in
        let sum : info.skipped + 1 + k ≡ info.skipped + suc k = omega arith in
        (ids, suc k, passed_over none' rest, rw (counted, ends) (rw sum refl))
  ]

nothing_decoded :
    (utf8 : List ℕ → List ℕ) (stringify : CborValue → Result (List ℕ)) {v : CborValue}
    → decode_cbor utf8 stringify [] ≡ ok v
    → ⊥
unfolding decode_cbor decode_item u8
nothing_decoded utf8 stringify h = cc

-- A decoded map whose items are an array is a gallery. Its members are the ids that the entries name, in
-- their order: that of an entry's serialized id, or else the txid at the entry's own position in the
-- packed txids with the entry's index. The entries that name none are counted as skipped.
pub parse_gallery-Listed :
    (utf8 : List ℕ → List ℕ) (stringify : CborValue → Result (List ℕ)) (whole : List ℕ → Option ℤ)
    (properties : List ℕ) (map : Fields) (entries : Items)
    → decode_cbor utf8 stringify properties ≡ ok (object map)
    → at map property_key_items ≡ array entries
    → let info = parse_gallery whole utf8 stringify properties in
      (info.is_gallery ≡ true)
      × Listed whole
          (packed_of (at map property_key_gallery_txids))
          0
          entries
          info.items
          info.skipped
unfolding parse_gallery map_gallery entries_gallery
parse_gallery-Listed utf8 stringify whole [] map entries h at_items =
    absurd (nothing_decoded utf8 stringify h)
parse_gallery-Listed utf8 stringify whole (c ∷ properties) map entries h at_items =
    let (ids, k, all, ends) =
      members_loop-Listed whole (packed_of (at map property_key_gallery_txids)) 0 entries
        (record { is_gallery = true; items = []; skipped = 0 }) in
    let none_before : 0 + k ≡ k = omega arith in
    let some_bytes : (length (c ∷ properties) == 0) ≡ false = ground arith in
    rw (some_bytes, h, parse_gallery)
      (rw (at_items, entries_gallery) (rw (ends, none_before) (refl, all)))
