-- ===== src/Witness/Last.antt =====
-- Which output `findWitnessCommitment` of packages/core/src/witnesscommit.ts reads.
use mathlib.Core.List.{reverse-cons, reverse-append, reverse-reverse}
use ordspv.Common.{
  ℕ, ◌≡◌, refl, sym, ap, ◌∙◌, subst, ◌↔◌, true, false, Bool-cases, inl, inr, reverse, append_assoc,
  List, [], ◌∷◌, ◌++◌, some, ok, All, >>-eq-ok, ok-injective,
}
use ordspv.Bytes.Reader.{slice}
use ordspv.Tx.Types.{TxOutput, ParsedTx, is_coinbase}
use ordspv.Witness.{is_commitment, last_commitment, find_witness_commitment}

abbrev pub IsPlain : TxOutput → Type 0
IsPlain out = is_commitment out ≡ false

-- The bytes of a commitment output that no commitment output follows.
pub record LastCommitment (outputs : List TxOutput) (commitment : List ℕ) : Type 0 where
  pub before : List TxOutput
  pub out : TxOutput
  pub after : List TxOutput
  pub split : outputs ≡ before ++ (out ∷ after)
  pub is_one : is_commitment out ≡ true
  pub bytes : slice out.script_pub_key 6 32 ≡ commitment
  pub none_later : All IsPlain after

All-append : (xs ys : List TxOutput) → All IsPlain xs → All IsPlain ys → All IsPlain (xs ++ ys)
All-append [] ys p q = q
All-append (x ∷ xs) ys (p, ps) q = (p, All-append xs ys ps q)

All-reverse : (xs : List TxOutput) → All IsPlain xs → All IsPlain (reverse xs)
All-reverse [] p = p
All-reverse (x ∷ xs) (p, ps) =
    subst (All IsPlain) (sym (reverse-cons x xs))
      (All-append _ (x ∷ []) (All-reverse xs ps) (p, tt))

reverse-middle :
    (xs : List TxOutput) (x : TxOutput) (ys : List TxOutput)
    → reverse (xs ++ (x ∷ ys)) ≡ reverse ys ++ (x ∷ reverse xs)
reverse-middle xs x ys =
    reverse-append xs (x ∷ ys)
    ∙ ap (λ (l : List TxOutput). l ++ reverse xs) (reverse-cons x ys)
    ∙ append_assoc (reverse ys) (x ∷ []) (reverse xs)

skip_plain :
    (xs ys : List TxOutput) → All IsPlain xs → last_commitment (xs ++ ys) ≡ last_commitment ys
unfolding last_commitment
skip_plain [] ys p = refl
skip_plain (x ∷ xs) ys (p, ps) = rw p (skip_plain xs ys ps)

-- In a list from the last output down, the first commitment output is the one.
first_of :
    (l : List TxOutput) (c : List ℕ)
    → last_commitment l ≡ some c
    → (above : List TxOutput) × (out : TxOutput) × (below : List TxOutput) × (l
        ≡ above ++ (out ∷ below))
      × (is_commitment out ≡ true)
      × (slice out.script_pub_key 6 32 ≡ c)
      × All IsPlain above
unfolding last_commitment
first_of [] c h = absurd cc
first_of (o ∷ l) c h = elim (Bool-cases (is_commitment o)) [
  | inl yes' ↦
      let e : some (slice o.script_pub_key 6 32) ≡ some c = rw yes' at h in
      ([], o, l, refl, yes', cc, tt)
  | inr no' ↦
      let (above, out, below, e, is_one, bytes, plain) = first_of l c (rw no' at h) in
      (o ∷ above, out, below, ap (◌∷◌ o) e, is_one, bytes, (no', plain))
]

last_commitment-LastCommitment :
    (outputs : List TxOutput) (c : List ℕ)
    → last_commitment (reverse outputs) ≡ some c
    → LastCommitment outputs c
last_commitment-LastCommitment outputs c h =
    let (above, o, below, e, one, read, plain) = first_of (reverse outputs) c h in
    record {
      before = reverse below;
      out = o;
      after = reverse above;
      split = sym (reverse-reverse outputs) ∙ ap reverse e ∙ reverse-middle above o below;
      is_one = one;
      bytes = read;
      none_later = All-reverse above plain;
    }

LastCommitment-found :
    (outputs : List TxOutput) (c : List ℕ)
    → LastCommitment outputs c
    → last_commitment (reverse outputs) ≡ some c
unfolding last_commitment
LastCommitment-found outputs c l =
    ap last_commitment (ap reverse l.split ∙ reverse-middle l.before l.out l.after)
    ∙ skip_plain (reverse l.after) _ (All-reverse l.after l.none_later)
    ∙ (rw (l.is_one, l.bytes) refl)

-- A search finds a commitment exactly when the transaction is a coinbase and the bytes are those of
-- its last output with a commitment.
pub find_witness_commitment_iff :
    (coinbase : ParsedTx) (c : List ℕ)
    → (find_witness_commitment coinbase ≡ ok (some c))
      ↔ ((is_coinbase coinbase ≡ true) × LastCommitment coinbase.outputs c)
unfolding find_witness_commitment
find_witness_commitment_iff coinbase c = (
  λ h.
      let (one, found) = >>-eq-ok (is_coinbase coinbase) _ _ h in
      (one, last_commitment-LastCommitment coinbase.outputs c (ok-injective found)),
  λ (one, last). rw (one, LastCommitment-found coinbase.outputs c last) refl,
)
