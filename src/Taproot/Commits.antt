-- ===== src/Taproot/Commits.antt =====
-- What `verifyScriptPathCommitment` of packages/core/src/taproot.ts has checked when it answers.
use ordspv.Common.{
  ℕ, ◌<◌, ◌≡◌, refl, ap, true, not, List, ◌∷◌, ◌++◌, some, ok, or_throw, or_throw-eq-ok, >>=-eq-ok,
  >>-eq-ok, ok-injective, not-true, ltb, ltb→lt, ◌==◌, ==_iff, get_or, drop, Option-cases, inl, inr,
  ◌∙◌, if◌then◌else◌, false,
}
use ordspv.Bytes.Hex.{bytes_equal, bytes_equal_iff}
use ordspv.Bytes.Order.{be_bytes_to_big_int}
use ordspv.Bytes.Reader.{slice}
use ordspv.Taproot.{
  Curve, ControlBlock, ScriptPathCheck, is_p2tr, parse_control_block, tag_tweak, tap_leaf_hash,
  tap_merkle_root, lift_x, verify_script_path_commitment,
}
use ordspv.Tx.Hash.{tagged_hash}

-- The output is a taproot one, and its key is the control block's internal key, tweaked by the hash of
-- that key and of the root that the script's leaf folds to.
pub record Commits (sha256 : List ℕ → List ℕ) (curve : Curve) (script control_block : List ℕ)
    (script_pub_key : List ℕ) : Type 0 where
  pub is_taproot : is_p2tr script_pub_key ≡ true
  pub cb : ControlBlock
  pub cb_is : parse_control_block control_block ≡ ok cb
  pub root : List ℕ
  pub root_is : root ≡ tap_merkle_root sha256 (tap_leaf_hash sha256 script cb.leaf_version) cb.path
  pub tweak : ℕ
  pub tweak_is :
      tweak ≡ be_bytes_to_big_int (tagged_hash sha256 tag_tweak (cb.internal_key ++ root))
  pub in_order : tweak < curve.order
  pub internal : curve.Point
  pub internal_is : curve.from_bytes (0x02 ∷ cb.internal_key) ≡ some internal
  pub output : curve.Point
  pub output_is : curve.add_tweak internal tweak ≡ some output
  pub finite : curve.is_zero output ≡ false
  pub key_is : drop 1 (curve.compress output) ≡ slice script_pub_key 2 32
  pub parity_is :
      (if get_or (curve.compress output) 0 0 == 0x03 then 1 else 0) ≡ cb.output_key_parity

lift_x-eq-ok :
    (sha256 : List ℕ → List ℕ) (curve : Curve) (key : List ℕ) {p : curve.Point}
    → lift_x sha256 curve key ≡ ok p
    → curve.from_bytes (0x02 ∷ key) ≡ some p
unfolding lift_x
lift_x-eq-ok sha256 curve key {p} h = elim (Option-cases (curve.from_bytes (0x02 ∷ key))) [
  | inl none' ↦ absurd (let e = rw (none', lift_x) at h in cc)
  | inr (q, found) ↦ found ∙ ap some (ok-injective (rw (found, lift_x) at h))
]

pub verify_script_path_commitment-Commits :
    (sha256 : List ℕ → List ℕ) (curve : Curve) (script control_block script_pub_key : List ℕ)
    {check : ScriptPathCheck}
    → verify_script_path_commitment sha256 curve script control_block script_pub_key ≡ ok check
    → Commits sha256 curve script control_block script_pub_key
unfolding verify_script_path_commitment
verify_script_path_commitment-Commits sha256 curve script control_block script_pub_key h =
    let (taproot, h1) = >>-eq-ok (is_p2tr script_pub_key) _ _ h in
    let (cb, is_cb, h2) = >>=-eq-ok (parse_control_block control_block) _ h1 in
    let root = tap_merkle_root sha256 (tap_leaf_hash sha256 script cb.leaf_version) cb.path in
    let tweak = be_bytes_to_big_int (tagged_hash sha256 tag_tweak (cb.internal_key ++ root)) in
    let (below, h3) = >>-eq-ok (ltb tweak curve.order) _ _ h2 in
    let (p, lifted, h4) = >>=-eq-ok (lift_x sha256 curve cb.internal_key) _ h3 in
    let (q, added, h5) = >>=-eq-ok (or_throw (curve.add_tweak p tweak) "invalid scalar") _ h4 in
    let (finite, h6) = >>-eq-ok (not (curve.is_zero q)) _ _ h5 in
    let (same, h7) =
      >>-eq-ok (bytes_equal (drop 1 (curve.compress q)) (slice script_pub_key 2 32)) _ _ h6 in
    let (parity, _) =
      >>-eq-ok ((if get_or (curve.compress q) 0 0 == 0x03 then 1 else 0) == cb.output_key_parity) _
        _ h7 in
    record {
      is_taproot = taproot;
      cb = cb;
      cb_is = is_cb;
      root = root;
      root_is = refl;
      tweak = tweak;
      tweak_is = refl;
      in_order = ltb→lt _ _ below;
      internal = p;
      internal_is = lift_x-eq-ok sha256 curve cb.internal_key lifted;
      output = q;
      output_is = or_throw-eq-ok _ _ added;
      finite = not-true _ finite;
      key_is = (bytes_equal_iff _ _).0 same;
      parity_is = (==_iff _ _).0 parity;
    }
