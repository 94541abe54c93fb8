-- ===== src/Cbor/Reads.antt =====
-- How far the decoder of packages/core/src/cbor.ts reads.
use ordspv.Common.{
  ℕ, zero, suc, ◌+◌, ◌/◌, ◌%◌, ◌^◌, ◌≤◌, ◌<◌, ◌≡◌, refl, subst, ◌∙◌, Bool, true, false, Bool-cases,
  inl, inr, List, [], ◌∷◌, Result, ok, throw, require, failure, ◌>>=◌, ◌>>◌, >>=-eq-ok, >>-eq-ok,
  ok-injective, ltb, ltb→lt, leb, leb→le, ◌==◌, if◌then◌else◌, length, arith, String, Error,
}
use ordspv.Common.Int.{pos, negsuc}
use ordspv.Bytes.Hex.{concat_bytes}
use ordspv.Bytes.Order.{be_bytes_to_big_int}
use ordspv.Bytes.Reader.{Reader, Read}
use ordspv.Cbor.{
  CborValue, boolean, null, undefined, number, float, text, bytes, array, object, end, u8, take,
  wide, uint, to_number_if_safe, peek_break, chunks, string_bytes, many, until_break, sequence,
  items_of, fields_of, key_to_string, pair, floating, simple, body, decode_item,
}

-- The reader goes on in its bytes by `n` at least.
record Moves (n : ℕ) (r r' : Reader) : Type 0 where
  same : r'.bytes ≡ r.bytes
  further : r.pos + n ≤ r'.pos
  inside : r'.pos ≤ length r.bytes

module _ {V : Type 0} where
  -- A read that succeeds goes on by `n` at least, inside the bytes.
  abbrev Consumes : ℕ → Read V → Type 0
  Consumes n read =
      (r : Reader) (v : V) (r' : Reader)
      → r.pos ≤ length r.bytes
      → read r ≡ ok (v, r')
      → Moves n r r'

again : {a b : ℕ} {r s t : Reader} → Moves a r s → Moves b s t → Moves (a + b) r t
again {a} {b} {r} {s} {t} m n = record {
  same = n.same ∙ m.same;
  further = omega (arith, m.further, n.further);
  inside = rw (← m.same) n.inside;
}

fewer : {a b : ℕ} {r s : Reader} → b ≤ a → Moves a r s → Moves b r s
fewer le m = record { same = m.same; further = omega (arith, m.further); inside = m.inside }

-- Where the reader went on is a place to read from.
there : {n : ℕ} {r s : Reader} → Moves n r s → s.pos ≤ length s.bytes
there m = rw m.same m.inside

ends :
    {V : Type 0} {n : ℕ} {r : Reader} {p q : V × Reader}
    → ◌≡◌ {A = Result (V × Reader)} (ok p) (ok q)
    → Moves n r p.1
    → Moves n r q.1
ends {V = V} {n = n} {r = r} e m = subst (λ (p : V × Reader). Moves n r p.1) (ok-injective e) m

stays : (r : Reader) → r.pos ≤ length r.bytes → Moves 0 r r
stays r inside = record { same = refl; further = omega arith; inside = inside }

module _ {V : Type 0} where
  pure-Consumes : (v : V) → Consumes 0 (λ r. ok (v, r))
  pure-Consumes v r w r' inside h = ends h (stays r inside)

  throw-Consumes : (n : ℕ) (m : String) → Consumes {V = V} n (λ r. throw m)
  throw-Consumes n m r v r' inside h = absurd (cc)

  branch :
      (n : ℕ) (test : Bool) (a b : Read V)
      → Consumes n a
      → Consumes n b
      → Consumes n (λ r. if test then a r else b r)
  branch n true a b ca cb = ca
  branch n false a b ca cb = cb

  guarded :
      (n : ℕ) (test : Bool) (e : Error) (a : Read V)
      → Consumes n a
      → Consumes n (λ r. require test e >> a r)
  guarded n test e a ca r v r' inside h =
      let (_, h1) = >>-eq-ok test e (a r) h in ca r v r' inside h1

  less-Consumes : (m n : ℕ) (a : Read V) → n ≤ m → Consumes m a → Consumes n a
  less-Consumes m n a le ca r v r' inside h = fewer le (ca r v r' inside h)

module _ {V W : Type 0} where
  bind-Consumes :
      (m n : ℕ) (a : Read V) (f : V → Read W)
      → Consumes m a
      → ((v : V) → Consumes n (f v))
      → Consumes (m + n) (λ r. a r >>= λ p. f p.0 p.1)
  bind-Consumes m n a f ca cf r w r' inside h =
      let ((v, s), e, more) = >>=-eq-ok (a r) _ h in
      let first = ca r v s inside e in again first (cf v s w r' (there first) more)

  map-Consumes :
      (n : ℕ) (a : Read V) (f : V → W)
      → Consumes n a
      → Consumes n (λ r. a r >>= λ p. ok (f p.0, p.1))
  map-Consumes n a f ca r w r' inside h =
      let ((v, s), e, more) = >>=-eq-ok (a r) _ h in ends more (ca r v s inside e)

u8-Consumes : Consumes 1 u8
unfolding u8
u8-Consumes r v r' inside h =
    let (more, e) = >>-eq-ok (ltb r.pos (length r.bytes)) (failure "cbor: unexpected end") _ h in
    ends e (record { same = refl; further = omega arith; inside = omega (arith, ltb→lt _ _ more) })

take-Consumes : (n : ℕ) → Consumes n (take n)
unfolding take
take-Consumes n r v r' inside h =
    let (more, e) =
      >>-eq-ok (leb (r.pos + n) (length r.bytes)) (failure "cbor: unexpected end") _ h in
    ends e (record { same = refl; further = omega arith; inside = leb→le _ _ more })

wide-Consumes : (n : ℕ) → Consumes 0 (wide n)
unfolding wide
wide-Consumes n =
    map-Consumes 0 (take n) be_bytes_to_big_int
      (less-Consumes n 0 (take n) (omega arith) (take-Consumes n))

uint-Consumes : (info : ℕ) → Consumes 0 (uint info)
unfolding uint
uint-Consumes info = branch 0 (ltb info 24) _ _ (pure-Consumes info) (
    branch 0 (info == 24) _ _ (less-Consumes 1 0 u8 (omega arith) u8-Consumes) (
      branch 0 (info == 25) _ _ (wide-Consumes 2) (
        branch 0 (info == 26) _ _ (wide-Consumes 4)
          (branch 0 (info == 27) _ _ (wide-Consumes 8) (throw-Consumes 0 _)))))

peek_break-Consumes : Consumes 0 peek_break
unfolding peek_break
peek_break-Consumes r v r' inside h =
    let ((b, s), e, more) = >>=-eq-ok (u8 r) _ h in
    elim (Bool-cases (b == 0xff)) [
      | inl done ↦ ends (rw done at more) (fewer (omega arith) (u8-Consumes r b s inside e))
      | inr other ↦ ends (rw other at more) (stays r inside)
    ]

-- One more chunk, or the end of the string.
chunks-Consumes : (fuel major : ℕ) → Consumes 0 (chunks fuel major)
unfolding chunks
chunks-Consumes zero major = throw-Consumes 0 _
chunks-Consumes (suc fuel) major = less-Consumes 1 0 (chunks (suc fuel) major) (omega arith) (
    bind-Consumes 1 0 u8 _ u8-Consumes (λ next. branch 0 (next == 0xff) _ _ (pure-Consumes []) (
      guarded 0 (next / 2 ^ 5 == major) _ _ (
        bind-Consumes 0 0 (uint (next % 2 ^ 5)) _ (uint-Consumes (next % 2 ^ 5)) (λ len.
          bind-Consumes 0 0 (take len) _
            (less-Consumes len 0 (take len) (omega arith) (take-Consumes len))
            (λ c. map-Consumes 0 (chunks fuel major) (◌∷◌ c) (chunks-Consumes fuel major)))))))

string_bytes-Consumes : (major info : ℕ) → Consumes 0 (string_bytes major info)
unfolding string_bytes
string_bytes-Consumes major info r v r' inside h = elim (Bool-cases (info == 31)) [
  | inl parts ↦
      let fuel = suc (length r.bytes) in
      map-Consumes 0 (chunks fuel major) concat_bytes (chunks-Consumes fuel major) r v r' inside
        (rw parts at h)
  | inr whole ↦
      bind-Consumes 0 0 (uint info) take (uint-Consumes info)
        (λ n. less-Consumes n 0 (take n) (omega arith) (take-Consumes n)) r v r' inside
        (rw whole at h)
]

module _ {V : Type 0} (item : Read V) (item-Consumes : Consumes 1 item) where
  many-Consumes : (n : ℕ) → Consumes n (many item n)
  unfolding many
  many-Consumes zero = pure-Consumes []
  many-Consumes (suc n) = less-Consumes (1 + n) (suc n) (many item (suc n)) (omega arith) (
      bind-Consumes 1 n item _ item-Consumes
        (λ v. map-Consumes n (many item n) (◌∷◌ v) (many-Consumes n)))

  until_break-Consumes : (fuel : ℕ) → Consumes 0 (until_break item fuel)
  unfolding until_break
  until_break-Consumes zero = throw-Consumes 0 _
  until_break-Consumes (suc fuel) = bind-Consumes 0 0 peek_break _ peek_break-Consumes (λ done.
      branch 0 done _ _ (pure-Consumes []) (
        bind-Consumes 0 0 item _ (less-Consumes 1 0 item (omega arith) item-Consumes)
          (λ v. map-Consumes 0 (until_break item fuel) (◌∷◌ v) (until_break-Consumes fuel))))

  sequence-Consumes : (info : ℕ) → Consumes 0 (sequence item info)
  unfolding sequence
  sequence-Consumes info r v r' inside h = elim (Bool-cases (info == 31)) [
    | inl open' ↦ until_break-Consumes (suc (length r.bytes)) r v r' inside (rw open' at h)
    | inr counted ↦
        bind-Consumes 0 0 (uint info) (many item) (uint-Consumes info)
          (λ n. less-Consumes n 0 (many item n) (omega arith) (many-Consumes n)) r v r' inside
          (rw counted at h)
  ]

module _ (utf8 : List ℕ → List ℕ) (stringify : CborValue → Result (List ℕ)) where
  module _ (item : Read CborValue) (item-Consumes : Consumes 1 item) where
    pair-Consumes : Consumes 1 (pair utf8 stringify item)
    unfolding pair
    pair-Consumes = less-Consumes 2 1 (pair utf8 stringify item) (omega arith) (
        bind-Consumes 1 1 item _ item-Consumes (λ k. λ r v r' inside h.
          let (key, _, more) = >>=-eq-ok (key_to_string utf8 stringify k) _ h in
          map-Consumes 1 item (λ w. (key, w)) item-Consumes r v r' inside more))

    floating-Consumes : (n : ℕ) → Consumes 0 (floating utf8 stringify n)
    unfolding floating
    floating-Consumes n =
        map-Consumes 0 (take n) float (less-Consumes n 0 (take n) (omega arith) (take-Consumes n))

    simple-Consumes : (info : ℕ) → Consumes 0 (simple utf8 stringify info)
    unfolding simple
    simple-Consumes info = branch 0 (info == 20) _ _ (pure-Consumes (boolean false)) (
        branch 0 (info == 21) _ _ (pure-Consumes (boolean true)) (
          branch 0 (info == 22) _ _ (pure-Consumes null) (
            branch 0 (info == 23) _ _ (pure-Consumes undefined) (
              branch 0 (info == 25) _ _ (floating-Consumes 2) (
                branch 0 (info == 26) _ _ (floating-Consumes 4) (
                  branch 0 (info == 27) _ _ (floating-Consumes 8) (
                    branch 0 (ltb info 20) _ _ (pure-Consumes (number (pos info))) (
                      branch 0 (info == 24) _ _
                        (map-Consumes 0 u8 (λ n. number (pos n))
                          (less-Consumes 1 0 u8 (omega arith) u8-Consumes))
                        (throw-Consumes 0 _)))))))))

    body-Consumes : (major info : ℕ) → Consumes 0 (body utf8 stringify item major info)
    unfolding body
    body-Consumes major info =
        branch 0 (major == 0) _ _
          (map-Consumes 0 (uint info) (λ n. to_number_if_safe (pos n)) (uint-Consumes info))
          (branch 0 (major == 1) _ _
            (map-Consumes 0 (uint info) (λ n. to_number_if_safe (negsuc n)) (uint-Consumes info))
            (branch 0 (major == 2) _ _
              (map-Consumes 0 (string_bytes 2 info) bytes (string_bytes-Consumes 2 info))
              (branch 0 (major == 3) _ _
                (map-Consumes 0 (string_bytes 3 info) (λ b. text (utf8 b))
                  (string_bytes-Consumes 3 info))
                (branch 0 (major == 4) _ _
                  (map-Consumes 0 (sequence item info) (λ vs. array (items_of vs))
                    (sequence-Consumes item item-Consumes info))
                  (branch 0 (major == 5) _ _
                    (map-Consumes 0 (sequence (pair utf8 stringify item) info)
                      (λ kvs. object (fields_of kvs end))
                      (sequence-Consumes (pair utf8 stringify item) pair-Consumes info))
                    (branch 0 (major == 6) _ _
                      (bind-Consumes 0 0 (uint info) (λ tag. item) (uint-Consumes info)
                        (λ tag. less-Consumes 1 0 item (omega arith) item-Consumes))
                      (simple-Consumes info)))))))

  decode_item-Consumes : (left : ℕ) → Consumes 1 (decode_item utf8 stringify left)
  unfolding decode_item
  decode_item-Consumes zero = throw-Consumes 1 _
  decode_item-Consumes (suc left) = bind-Consumes 1 0 u8 _ u8-Consumes (λ initial.
      body-Consumes (decode_item utf8 stringify left) (decode_item-Consumes left) (initial / 2 ^ 5)
        (initial % 2 ^ 5))

-- Whatever the bytes are, an item that decodes took a byte at least and none past the end, and the bytes
-- are as they were.
pub decode_item-reads :
    (utf8 : List ℕ → List ℕ) (stringify : CborValue → Result (List ℕ)) (left : ℕ) (r : Reader)
    {v : CborValue} {after : Reader}
    → r.pos ≤ length r.bytes
    → decode_item utf8 stringify left r ≡ ok (v, after)
    → (r.pos < after.pos) × (after.pos ≤ length r.bytes) × (after.bytes ≡ r.bytes)
decode_item-reads utf8 stringify left r {v} {after} inside h =
    let m = decode_item-Consumes utf8 stringify left r v after inside h in
    (omega (arith, m.further), m.inside, m.same)
