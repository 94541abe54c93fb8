-- ===== src/Block/RoundTrip.antt =====
-- `parseBlock` reads back what `serializeBlock` of packages/core/src/block.ts writes.
use ordspv.Common.{
  ℕ, ◌+◌, ◌-◌, ◌*◌, ◌≤◌, ◌≡◌, refl, sym, ap, ◌∙◌, arith, true, List, [], ◌∷◌, ◌++◌, append_assoc,
  map, ok, leb, ◌==◌, length, length-append, length-map, take, take-length-append, All, subst,
  ==_iff, >>-eq-ok, leb-true,
}
use ordspv.Block.{max_block_bytes, min_tx_bytes, txs_loop, parse_block, serialize_block}
use ordspv.Bytes.Hex.{concat_bytes}
use ordspv.Bytes.Reader.{reader, remaining, slice, read_var_int_num}
use ordspv.Bytes.VarInt.{Reads-var_int_num}
use ordspv.Bytes.Writer.{
  var_int, to_bytes, write_bytes, write_var_int, to_bytes-write_bytes, to_bytes-write_var_int,
}
use ordspv.Header.Parse.{BlockHeader, parse_header}
use ordspv.Tx.InPlace.{parse_tx-in_place, serialize_full-size, var_int-size}
use ordspv.Tx.Parse.{finish_tx}
use ordspv.Tx.RoundTrip.{IsTx}
use ordspv.Tx.Serialize.{serialize_full}
use ordspv.Tx.Types.{TxBody, ParsedTx, some_witness}

-- What a transaction parses to.
abbrev pub parsed : (List ℕ → List ℕ) → TxBody → ParsedTx
parsed sha256 tx = finish_tx sha256 (some_witness tx.inputs) tx (serialize_full tx)

abbrev pub all_bytes : List TxBody → List ℕ
all_bytes txs = concat_bytes (map serialize_full txs)

txs_loop-serialized :
    (sha256 : List ℕ → List ℕ) (txs : List TxBody) (pre : List ℕ)
    → All IsTx txs
    → txs_loop sha256 (pre ++ all_bytes txs) (length txs) (length pre)
      ≡ ok (map (parsed sha256) txs, length pre + length (all_bytes txs))
unfolding txs_loop concat_bytes finish_tx
txs_loop-serialized sha256 [] pre v = let e : length pre + 0 ≡ length pre = omega arith in rw e refl
txs_loop-serialized sha256 (tx ∷ txs) pre (v, vs) =
    let enc = serialize_full tx in
    let first = parse_tx-in_place sha256 tx pre (all_bytes txs) v in
    let ih = txs_loop-serialized sha256 txs (pre ++ enc) vs in
    let shift : pre ++ (enc ++ all_bytes txs) ≡ (pre ++ enc) ++ all_bytes txs =
      sym (append_assoc pre enc (all_bytes txs)) in
    let at : length (pre ++ enc) ≡ length pre + length enc = length-append pre enc in
    let ih' = rw (← shift, at) at ih in
    let total : length pre + length enc + length (all_bytes txs)
        ≡ length pre + length (enc ++ all_bytes txs) =
      omega (arith, length-append enc (all_bytes txs)) in
    rw first (rw ih' (rw total refl))

all_bytes-size :
    (txs : List TxBody) → All IsTx txs → length txs * min_tx_bytes ≤ length (all_bytes txs)
unfolding concat_bytes
all_bytes-size [] v = omega arith
all_bytes-size (tx ∷ txs) (v, vs) = omega (
  arith,
  length-append (serialize_full tx) (all_bytes txs),
  all_bytes-size txs vs,
  serialize_full-size tx v,
)

serialize_block-bytes :
    (header_raw : List ℕ) (txs : List TxBody)
    → serialize_block header_raw (map serialize_full txs)
      ≡ header_raw ++ (var_int (length txs) ++ all_bytes txs)
unfolding serialize_block concat_bytes to_bytes
serialize_block-bytes header_raw txs =
    let n = length (map serialize_full txs) in
    let e : n ≡ length txs = length-map txs serialize_full in
    let w : to_bytes (write_var_int n (write_bytes header_raw [])) ≡ header_raw ++ var_int n =
      to_bytes-write_var_int n (write_bytes header_raw [])
      ∙ ap (λ (t : List ℕ). t ++ var_int n) (to_bytes-write_bytes header_raw []) in
    rw w (rw e (append_assoc header_raw (var_int (length txs)) (all_bytes txs)))

header_raw-length :
    (sha256 : List ℕ → List ℕ) (header_raw : List ℕ) (header : BlockHeader)
    → parse_header sha256 header_raw ≡ ok header
    → length header_raw ≡ 80
unfolding parse_header
header_raw-length sha256 header_raw header h =
    (==_iff _ _).0 (>>-eq-ok (length header_raw == 80) _ _ h).0

-- The loop behind the count, and what it leaves.
body_loop :
    (sha256 : List ℕ → List ℕ) (header_raw : List ℕ) (txs : List TxBody)
    → All IsTx txs
    → length header_raw ≡ 80
    → (txs_loop sha256
          (header_raw ++ (var_int (length txs) ++ all_bytes txs))
          (length txs)
          (80 + length (var_int (length txs)))
        ≡ ok (map (parsed sha256) txs, 80 + length (var_int (length txs)) + length (all_bytes txs)))
      × ((remaining (
              reader
                (header_raw ++ (var_int (length txs) ++ all_bytes txs))
                (80 + length (var_int (length txs)) + length (all_bytes txs)))
            == 0)
          ≡ true)
unfolding remaining
body_loop sha256 header_raw txs v len =
    let count = var_int (length txs) in
    let body = all_bytes txs in
    let raw = header_raw ++ (count ++ body) in
    let at : length (header_raw ++ count) ≡ 80 + length count =
      omega (arith, length-append header_raw count, len) in
    let end : length raw - (80 + length count + length body) ≡ 0 =
      omega (arith, length-append header_raw (count ++ body), length-append count body, len) in
    (
      rw (append_assoc header_raw count body, at) at
          (txs_loop-serialized sha256 txs (header_raw ++ count) v),
      rw end refl,
    )

-- A block made of a header that parses and of transactions within the bounds of the wire format,
-- not larger than the consensus maximum, is read back: the header, and each transaction as it
-- parses alone.
pub parse_block-serialize_block :
    (sha256 : List ℕ → List ℕ) (header_raw : List ℕ) (header : BlockHeader) (txs : List TxBody)
    → parse_header sha256 header_raw ≡ ok header
    → All IsTx txs
    → length (serialize_block header_raw (map serialize_full txs)) ≤ max_block_bytes
    → parse_block sha256 (serialize_block header_raw (map serialize_full txs))
      ≡ ok (record { header = header; txs = map (parsed sha256) txs })
unfolding parse_block
parse_block-serialize_block sha256 header_raw header txs h v fits =
    let body = all_bytes txs in
    let n = length txs in
    let raw = header_raw ++ (var_int n ++ body) in
    let is_raw = serialize_block-bytes header_raw txs in
    let len = header_raw-length sha256 header_raw header h in
    let total : length raw ≡ 80 + (length (var_int n) + length body) =
      omega (
        arith,
        length-append header_raw (var_int n ++ body),
        length-append (var_int n) body,
        len,
      ) in
    let small : length raw ≤ max_block_bytes = rw is_raw at fits in
    let most = all_bytes-size txs v in
    let some_count = var_int-size n in
    let t1 : leb 81 (length raw) ≡ true = rw total (leb-true 81 _ (omega (arith, some_count))) in
    let t2 : leb (length raw) max_block_bytes ≡ true = leb-true _ _ small in
    let front : slice raw 0 80 ≡ header_raw =
      subst (λ k. take k raw ≡ header_raw) len
        (take-length-append header_raw (var_int n ++ body)) in
    let read = (Reads-var_int_num n (omega (arith, most, total, small))).runs header_raw body in
    let read' : read_var_int_num (reader raw 80) ≡ ok (n, reader raw (80 + length (var_int n))) =
      rw len at read in
    let left : remaining (reader raw (80 + length (var_int n))) ≡ length body =
      unfold remaining in omega (arith, total) in
    let t3 : leb (n * 51) (remaining (reader raw (80 + length (var_int n)))) ≡ true =
      rw left (leb-true _ _ most) in
    let (loop, done) = body_loop sha256 header_raw txs v len in
    rw is_raw (rw (t1, t2, front, h, read', t3, loop, done) refl)
