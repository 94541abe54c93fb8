-- ===== src/Bytes/VarInt.antt =====
-- CompactSize integers of packages/core/src/bytes.ts, written and read back.
use ordspv.Common.{
  ℕ, ◌^◌, ◌≤◌, ◌<◌, ◌≡◌, true, List, [], ◌∷◌, arith, ltb, leb, Bool-cases, inl, inr, ltb→lt, leb→le,
}
use ordspv.Bytes.Reader.{
  read_u8, read_var_int_from, read_var_int, read_var_int_num, max_safe_integer,
}
use ordspv.Bytes.Reads.{Reads, Reads-pure, Reads-bind, Reads-u8, Reads-u16, Reads-u32, Reads-u64}
use ordspv.Bytes.Writer.{var_int}

module _ (first : ℕ) (enc : List ℕ) (v : ℕ) where
  from_first :
      first < 256 → Reads (read_var_int_from first) enc v → Reads read_var_int (first ∷ enc) v
  unfolding read_var_int
  from_first h r =
      Reads-bind read_u8 read_var_int_from (first ∷ []) enc first v (Reads-u8 first h) r

-- A value of 64 bits is read back from its CompactSize.
pub Reads-var_int : (v : ℕ) → v < 2 ^ 64 → Reads read_var_int (var_int v) v
unfolding var_int
Reads-var_int v h = elim (Bool-cases (ltb v 0xfd)) [
  | inl tiny ↦ rw tiny (
      from_first v [] v (omega (arith, ltb→lt _ _ tiny))
        (unfold read_var_int_from in rw tiny (Reads-pure v)))
  | inr big ↦ rw big (elim (Bool-cases (leb v 0xffff)) [
    | inl two ↦ rw two (
        from_first 0xfd _ v (omega arith)
          (unfold read_var_int_from in Reads-u16 v (omega (arith, leb→le _ _ two))))
    | inr more ↦ rw more (elim (Bool-cases (leb v 0xffff_ffff)) [
      | inl four ↦ rw four (
          from_first 0xfe _ v (omega arith)
            (unfold read_var_int_from in Reads-u32 v (omega (arith, leb→le _ _ four))))
      | inr eight ↦
          rw eight (from_first 0xff _ v (omega arith) (unfold read_var_int_from in Reads-u64 v h))
    ])
  ])
]

-- A count that a JavaScript number holds exactly is read back from its CompactSize.
pub Reads-var_int_num : (v : ℕ) → v ≤ max_safe_integer → Reads read_var_int_num (var_int v) v
unfolding read_var_int_num
Reads-var_int_num v h = record {
  runs = λ pre rest.
      let exact : leb v max_safe_integer ≡ true = ground arith in
      rw ((Reads-var_int v (omega arith)).runs pre rest, exact);
}
