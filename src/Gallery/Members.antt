-- ===== src/Gallery/Members.antt =====
-- The two encodings of a gallery's members in packages/core/src/gallery.ts.
use ordspv.Common.{
  not, ◌&&◌, ◌||◌, ◌-◌, ◌⊎◌, Bool-cases, zero, ap, sym, replicate, get_or, ==_iff, ℕ, suc, ◌+◌, ◌*◌,
  ◌/◌, ◌%◌, ◌≤◌, ◌≡◌, refl, subst, ◌∙◌, inl, inr, true, false, List, [], ◌∷◌, ◌++◌, foldr, Option,
  some, ltb, leb, ◌==◌, length, length-append, take, drop, take-length-append, drop-length-append,
  leb-true, length-take, length-drop, arith,
}
use ordspv.Common.Int.{ℤ, pos}
use ordspv.Bytes.Hex.{internal_to_display, hex_char, bytes_to_hex, reverse_bytes}
use ordspv.Bytes.Order.{to_le, le_bytes_to_big_int, le_bytes_to_big_int-to_le}
use ordspv.Bytes.Reader.{slice}
use ordspv.Cbor.{number, undefined, bytes, object, Fields}
use ordspv.Envelope.Payload.{parse_inscription_id_value}
use ordspv.Gallery.{
  GalleryInfo, item_key_id, item_key_index, txid_bytes, max_inscription_index, at, in_range,
  inscription_index, add_packed, add_serialized, add_entry,
}
use ordspv.InscriptionId.{format_inscription_id}
use ordspv.Text.{to_decimal, lower_char, to_lower_case}

fold-le : (xs : List ℕ) → foldr (λ b v. v * 256 + b) 0 xs ≡ le_bytes_to_big_int xs
unfolding le_bytes_to_big_int
fold-le [] = refl
fold-le (x ∷ xs) = omega (arith, fold-le xs)

lower_hex_char : (d : ℕ) → lower_char (hex_char d) ≡ hex_char d
unfolding lower_char hex_char
lower_hex_char d = ground arith

to_lower_case-bytes_to_hex : (bs : List ℕ) → to_lower_case (bytes_to_hex bs) ≡ bytes_to_hex bs
unfolding to_lower_case bytes_to_hex
to_lower_case-bytes_to_hex [] = refl
to_lower_case-bytes_to_hex (b ∷ bs) =
    rw (lower_hex_char (b / 16), lower_hex_char (b % 16), to_lower_case-bytes_to_hex bs) refl

-- The bytes that encode an index behind a txid: its four little-endian bytes, or these without zeros at
-- their end, all of them.
pub record EncodesIndex (n : ℕ) (t : List ℕ) : Type 0 where
  pub fits : length t ≤ 4
  pub value_is : t ++ replicate (4 - length t) 0 ≡ to_le 4 n
  pub trimmed : (length t ≡ 4) ⊎ ((length t ≡ 0) ⊎ ((get_or t (length t - 1) 0 == 0) ≡ false))

le-zeros : (t : List ℕ) (k : ℕ) → le_bytes_to_big_int (t ++ replicate k 0) ≡ le_bytes_to_big_int t
unfolding le_bytes_to_big_int
le-zeros [] zero = refl
le-zeros [] (suc k) = omega (arith, le-zeros [] k)
le-zeros (x ∷ t) k = omega (arith, le-zeros t k)

get_or-length_append :
    (xs ys : List ℕ) (i : ℕ) → get_or (xs ++ ys) (length xs + i) 0 ≡ get_or ys i 0
get_or-length_append [] ys i = let e : 0 + i ≡ i = omega arith in rw e
get_or-length_append (x ∷ xs) ys i =
    let e : length (x ∷ xs) + i ≡ suc (length xs + i) = omega arith in
    rw e (get_or-length_append xs ys i)

-- The test on the last byte passes.
not_padded :
    (txid t : List ℕ) (n : ℕ)
    → length txid ≡ 32
    → EncodesIndex n t
    → (not (length (txid ++ t) - 32 == 0)
        && (not (length (txid ++ t) - 32 == 4)
            && get_or (txid ++ t) (length (txid ++ t) - 1) 0 == 0))
      ≡ false
not_padded txid t n size c =
    let whole = length-append {0} txid t in
    let tail_size : length (txid ++ t) - 32 ≡ length t = omega (arith, whole, size) in
    elim c.trimmed [
      | inl four ↦
          let e : (length (txid ++ t) - 32 == 4) ≡ true = (==_iff _ _).1 (tail_size ∙ four) in
          rw e (ground arith)
      | inr (inl empty) ↦
          let e : (length (txid ++ t) - 32 == 0) ≡ true = (==_iff _ _).1 (tail_size ∙ empty) in
          rw e refl
      | inr (inr nonzero) ↦ elim (Bool-cases (length t == 0)) [
        | inl empty ↦
            let e : (length (txid ++ t) - 32 == 0) ≡ true =
              (==_iff _ _).1 (tail_size ∙ (==_iff _ _).0 empty) in
            rw e refl
        | inr more ↦
            let place : length (txid ++ t) - 1 ≡ length txid + (length t - 1) =
              ground (arith, whole, more) in
            let last : (get_or (txid ++ t) (length (txid ++ t) - 1) 0 == 0) ≡ false =
              rw (place, get_or-length_append txid t (length t - 1)) nonzero in
            rw last (ground arith)
      ]
    ]

-- A serialized id.
serialized_id :
    (txid t : List ℕ) (n : ℕ)
    → length txid ≡ 32
    → n ≤ max_inscription_index
    → EncodesIndex n t
    → parse_inscription_id_value (txid ++ t)
      ≡ some (internal_to_display txid ++ (b'i' ∷ to_decimal n))
unfolding parse_inscription_id_value format_inscription_id internal_to_display
serialized_id txid t n size le c =
    let whole = length-append {0} txid t in
    let fits = c.fits in
    let sized : (ltb (length (txid ++ t)) 32 || ltb 36 (length (txid ++ t))) ≡ false =
      ground (arith, whole, size, fits) in
    let front : take 32 (txid ++ t) ≡ txid =
      subst (λ (k : ℕ). take k (txid ++ t) ≡ txid) size (take-length-append txid t) in
    let back : drop 32 (txid ++ t) ≡ t =
      subst (λ (k : ℕ). drop k (txid ++ t) ≡ t) size (drop-length-append txid t) in
    let value : foldr (λ b v. v * 256 + b) 0 t ≡ n =
      fold-le t
      ∙ sym (le-zeros t (4 - length t))
      ∙ ap le_bytes_to_big_int c.value_is
      ∙ le_bytes_to_big_int-to_le 4 n (omega arith) in
    rw
      (
        sized,
        not_padded txid t n size c,
        front,
        back,
        value,
        to_lower_case-bytes_to_hex (reverse_bytes txid),
      )
      refl

length-slice : (xs : List ℕ) (i n : ℕ) → i + n ≤ length xs → length (slice xs i n) ≡ n
length-slice xs i n h = omega (arith, length-take {0} n (drop i xs), length-drop {0} i xs)

-- The two encodings of a member agree. An item that has only an index adds the id with the txid at its
-- place in the packed txids; the same is added, at any place, by an item whose serialized id is this
-- txid with the index behind it, in four bytes or without the zeros at their end.
pub add_entry-encodings :
    (whole : List ℕ → Option ℤ) (packed t : List ℕ) (other : Option (List ℕ)) (i j n : ℕ)
    (p q : Fields) (info : GalleryInfo)
    → txid_bytes * (i + 1) ≤ length packed
    → n ≤ max_inscription_index
    → EncodesIndex n t
    → at p item_key_id ≡ undefined
    → at p item_key_index ≡ number (pos n)
    → at q item_key_id ≡ bytes (slice packed (txid_bytes * i) txid_bytes ++ t)
    → let id =
        internal_to_display (slice packed (txid_bytes * i) txid_bytes) ++ (b'i' ∷ to_decimal n) in
      let added = record info { items = info.items ++ (id ∷ []) } in
      (add_entry whole (some packed) i (object p) info ≡ added)
      × (add_entry whole other j (object q) info ≡ added)
unfolding add_entry add_serialized add_packed inscription_index in_range
add_entry-encodings whole packed t other i j n p q info room le encodes no_id index id =
    let txid = slice packed (txid_bytes * i) txid_bytes in
    let size = length-slice packed (txid_bytes * i) txid_bytes (omega arith) in
    let inside : ltb (length packed) (txid_bytes * (i + 1)) ≡ false = ground arith in
    let small : leb n max_inscription_index ≡ true = leb-true n _ le in
    let inline' = serialized_id txid t n size le encodes in
    (rw (no_id, index, inside, small) refl, rw (id, add_serialized) (rw inline' refl))
