-- ===== src/Cbor.antt =====
-- packages/core/src/cbor.ts: the decoder of CBOR items. `TextDecoder` is the parameter `utf8`, and
-- `stringify` stands for `JSON.stringify` and for `String` of a float, which name the map keys that are no
-- text, number, Boolean or byte string. A float is kept as its bytes: their value as a double is not
-- modelled. A map keeps its keys in the order of their first appearance.
pub mod Reads
pub mod Json
use ordspv.Common.{
  ℕ, zero, suc, ◌+◌, ◌-◌, ◌*◌, ◌/◌, ◌%◌, ◌^◌, Bool, true, false, not, ◌&&◌, List, [], ◌∷◌, ◌++◌,
  Option, none, some, Result, ok, err, throw, require, failure, ◌>>=◌, ◌>>◌, ltb, leb, ◌==◌,
  if◌then◌else◌, length, foldl, get_or,
}
use ordspv.Common.Int.{ℤ, pos, negsuc}
use ordspv.Bytes.Hex.{bytes_equal, bytes_to_hex, concat_bytes}
use ordspv.Bytes.Order.{be_bytes_to_big_int}
use ordspv.Bytes.Reader.{Reader, Read, reader, slice, max_safe_integer}
use ordspv.Text.{to_decimal}

-- A `number` that is an integer, and a `bigint`.
mutual
  pub data CborValue : Type 0 where
    number : ℤ → CborValue
    bigint : ℤ → CborValue
    float : List ℕ → CborValue
    text : List ℕ → CborValue
    boolean : Bool → CborValue
    null undefined : CborValue
    bytes : List ℕ → CborValue
    array : Items → CborValue
    object : Fields → CborValue

  pub data Items : Type 0 where
    nil : Items
    cons : CborValue → Items → Items

  pub data Fields : Type 0 where
    end : Fields
    field : List ℕ → CborValue → Fields → Fields

unfoldable pub u8 : Read ℕ
u8 r = do
  require (ltb r.pos (length r.bytes)) (failure "cbor: unexpected end")
  ok (get_or r.bytes r.pos 0, record r { pos = r.pos + 1 })

unfoldable pub take : ℕ → Read (List ℕ)
take n r = do
  require (leb (r.pos + n) (length r.bytes)) (failure "cbor: unexpected end")
  ok (slice r.bytes r.pos n, record r { pos = r.pos + n })

-- The big-endian argument in the `n` bytes that follow.
unfoldable pub wide : ℕ → Read ℕ
wide n r = do (b, r') ← take n r; ok (be_bytes_to_big_int b, r')

unfoldable pub uint : ℕ → Read ℕ
unfolding wide
uint info r =
    if ltb info 24
    then ok (info, r)
    else (if info == 24
        then u8 r
        else (if info == 25
            then wide 2 r
            else (if info == 26
                then wide 4 r
                else (if info == 27 then wide 8 r else throw "cbor: invalid additional info"))))

-- `-1n - v` is `negsuc v`.
unfoldable pub to_number_if_safe : ℤ → CborValue
to_number_if_safe (pos n) = if leb n max_safe_integer then number (pos n) else bigint (pos n)
to_number_if_safe (negsuc n) =
    if leb (n + 1) max_safe_integer then number (negsuc n) else bigint (negsuc n)

-- The test for the break byte, which it passes over.
unfoldable pub peek_break : Read Bool
peek_break r = do (b, r') ← u8 r; ok (if b == 0xff then (true, r') else (false, r))

-- The chunks of an indefinite string, up to the break; `fuel` bounds their number.
unfoldable pub chunks : ℕ → ℕ → Read (List (List ℕ))
chunks zero major r = throw "out of fuel"
chunks (suc fuel) major r = do
  (next, r1) ← u8 r
  let more = (do
    require (next / 2 ^ 5 == major) (failure "cbor: mixed chunk types in indefinite string")
    (len, r2) ← uint (next % 2 ^ 5) r1
    (c, r3) ← take len r2
    (cs, r4) ← chunks fuel major r3
    ok (c ∷ cs, r4))
  if next == 0xff then ok ([], r1) else more

unfoldable pub string_bytes : ℕ → ℕ → Read (List ℕ)
unfolding chunks
string_bytes major info r =
    let whole = (do (len, r') ← uint info r; take len r') in
    let parts = (do (cs, r') ← chunks (suc (length r.bytes)) major r; ok (concat_bytes cs, r')) in
    if info == 31 then parts else whole

-- `out[key] = value`
unfoldable pub set_field : List ℕ → CborValue → Fields → Fields
set_field k v end = field k v end
set_field k v (field j w fs) =
    if bytes_equal j k then field j v fs else field j w (set_field k v fs)

unfoldable pub get_field : List ℕ → Fields → CborValue
get_field k end = undefined
get_field k (field j w fs) = if bytes_equal j k then w else get_field k fs

-- The loops over the items of an array and the pairs of a map, where `item` decodes one.
module _ {V : Type 0} (item : Read V) where
  unfoldable pub many : ℕ → Read (List V)
  many zero r = ok ([], r)
  many (suc n) r = do (v, r1) ← item r; (vs, r2) ← many n r1; ok (v ∷ vs, r2)

  unfoldable pub until_break : ℕ → Read (List V)
  until_break zero r = throw "out of fuel"
  until_break (suc fuel) r = do
    (done, r1) ← peek_break r
    let more = (do (v, r2) ← item r1; (vs, r3) ← until_break fuel r2; ok (v ∷ vs, r3))
    if done then ok ([], r1) else more

  -- An item takes a byte at least, so the length is enough fuel.
  unfoldable pub sequence : ℕ → Read (List V)
  unfolding many until_break
  sequence info r =
      let counted = (do (len, r') ← uint info r; many len r') in
      if info == 31 then until_break (suc (length r.bytes)) r else counted

unfoldable pub items_of : List CborValue → Items
items_of [] = nil
items_of (v ∷ vs) = cons v (items_of vs)

unfoldable pub fields_of : List (List ℕ × CborValue) → Fields → Fields
fields_of [] out = out
fields_of ((k, v) ∷ kvs) out = fields_of kvs (set_field k v out)

-- The values of a decoded item as JSON has them: byte strings and big integers become text.
unfoldable pub string_of : ℤ → List ℕ
string_of (pos n) = to_decimal n
string_of (negsuc n) = b'-' ∷ to_decimal (n + 1)

unfoldable mutual
  pub walk : CborValue → CborValue
  walk (bytes b) = text (b'0' ∷ b'x' ∷ bytes_to_hex b)
  walk (bigint n) = text (string_of n)
  walk (array vs) = array (walk_items vs)
  walk (object fs) = object (walk_fields fs)
  walk (number n) = number n
  walk (float b) = float b
  walk (text s) = text s
  walk (boolean b) = boolean b
  walk null = null
  walk undefined = undefined

  pub walk_items : Items → Items
  walk_items nil = nil
  walk_items (cons v vs) = cons (walk v) (walk_items vs)

  pub walk_fields : Fields → Fields
  walk_fields end = end
  walk_fields (field k v fs) = field k (walk v) (walk_fields fs)

module _ (utf8 : List ℕ → List ℕ) (stringify : CborValue → Result (List ℕ)) where
  unfoldable pub key_to_string : CborValue → Result (List ℕ)
  unfolding string_of
  key_to_string (text s) = ok s
  key_to_string (number n) = ok (string_of n)
  key_to_string (bigint n) = ok (string_of n)
  key_to_string (boolean true) = ok (b't' ∷ b'r' ∷ b'u' ∷ b'e' ∷ [])
  key_to_string (boolean false) = ok (b'f' ∷ b'a' ∷ b'l' ∷ b's' ∷ b'e' ∷ [])
  key_to_string (bytes b) = ok (b'0' ∷ b'x' ∷ bytes_to_hex b)
  key_to_string v = stringify v

  -- One key and one value.
  unfoldable pub pair : Read CborValue → Read (List ℕ × CborValue)
  pair item r = do (k, r1) ← item r; key ← key_to_string k; (v, r2) ← item r1; ok ((key, v), r2)

  unfoldable pub floating : ℕ → Read CborValue
  floating n r = do (b, r') ← take n r; ok (float b, r')

  -- Major type 7.
  unfoldable pub simple : ℕ → Read CborValue
  unfolding floating
  simple info r =
      let extended = (do (n, r') ← u8 r; ok (number (pos n), r')) in
      if info == 20
      then ok (boolean false, r)
      else (if info == 21
          then ok (boolean true, r)
          else (if info == 22
              then ok (null, r)
              else (if info == 23
                  then ok (undefined, r)
                  else (if info == 25
                      then floating 2 r
                      else (if info == 26
                          then floating 4 r
                          else (if info == 27
                              then floating 8 r
                              else (if ltb info 20
                                  then ok (number (pos info), r)
                                  else (if info == 24
                                      then extended
                                      else throw "cbor: unsupported simple/float info"))))))))

  -- The item behind its first byte, where `item` decodes one that is nested in it.
  unfoldable pub body : Read CborValue → ℕ → ℕ → Read CborValue
  unfolding pair simple string_bytes sequence
  body item major info r =
      let unsigned = (do (n, r') ← uint info r; ok (to_number_if_safe (pos n), r')) in
      let negative = (do (n, r') ← uint info r; ok (to_number_if_safe (negsuc n), r')) in
      let byte_string = (do (b, r') ← string_bytes 2 info r; ok (bytes b, r')) in
      let text_string = (do (b, r') ← string_bytes 3 info r; ok (text (utf8 b), r')) in
      let list = (do (vs, r') ← sequence item info r; ok (array (items_of vs), r')) in
      let map = (do (kvs, r') ← sequence (pair item) info r; ok (object (fields_of kvs end), r')) in
      let tagged = (do (tag, r') ← uint info r; item r') in
      if major == 0
      then unsigned
      else (if major == 1
          then negative
          else (if major == 2
              then byte_string
              else (if major == 3
                  then text_string
                  else (if major == 4
                      then list
                      else (if major == 5
                          then map
                          else (if major == 6 then tagged else simple info r))))))

  -- `left` is 129 less the depth.
  unfoldable pub decode_item : ℕ → Read CborValue
  decode_item zero r = throw "cbor: nesting too deep"
  decode_item (suc left) r = do
    (initial, r') ← u8 r
    body (decode_item left) (initial / 2 ^ 5) (initial % 2 ^ 5) r'

  unfoldable pub decode_cbor : List ℕ → Result CborValue
  decode_cbor source = do
    (value, r) ← decode_item 129 (reader source 0)
    require (r.pos == length source) (failure "cbor: trailing bytes")
    ok value

  unfoldable pub decode_cbor_json : List ℕ → Result CborValue
  decode_cbor_json source = do value ← decode_cbor source; ok (walk value)
