-- ===== src/Proof/Assured.antt =====
-- The evidence of a bundle's level in `verifyProofBundle` of packages/core/src/proof.ts.
use ordspv.Common.{
  ℕ, ◌≡◌, refl, sym, subst, List, Option, none, some, ok, >>=-eq-ok, >>-eq-ok, ok-injective, ◌==◌,
  failure, or_throw, or_throw-eq-ok, get_elem?, length,
}
use ordspv.Bytes.Hex.{bytes_equal, bytes_equal_iff}
use ordspv.Envelope.Interpret.{Inscription}
use ordspv.Proof.{
  Level, l2, l3, unknown_level, Assurances, check_commit, check_level_section, check_level_commit,
}
use ordspv.Header.Parse.{BlockHeader}
use ordspv.Taproot.{
  Curve, Tapscript, ControlBlock, extract_tapscript, parse_control_block,
  verify_script_path_commitment,
}
use ordspv.Taproot.Commits.{Commits, verify_script_path_commitment-Commits}
use ordspv.Tx.Types.{ParsedTx, TxInput, TxOutput}
use ordspv.Witness.{WitnessSection, parse_hop_tx}
use ordspv.Witness.Sound.{Committed, verify_witness_anchoring-Committed}

-- The commit transaction of a bundle: its txid is that of the input that reveals the envelope, and the
-- output that this input spends commits to the tapscript in the input's witness.
pub record CommitsTo (sha256 : List ℕ → List ℕ) (curve : Curve) (reveal : ParsedTx)
    (inscription : Inscription) (commit_hex : Option (List ℕ)) (a : Assurances) : Type 0 where
  pub hex : List ℕ
  pub hex_is : commit_hex ≡ some hex
  pub commit : ParsedTx
  pub commit_is : parse_hop_tx sha256 hex ≡ ok commit
  pub input : TxInput
  pub input_is : get_elem? reveal.inputs inscription.input ≡ some input
  pub spends : commit.txid ≡ input.prev_txid
  pub output : TxOutput
  pub output_is : get_elem? commit.outputs input.vout ≡ some output
  pub tapscript : Tapscript
  pub tapscript_is : extract_tapscript input.witness ≡ some tapscript
  pub commits : Commits sha256 curve tapscript.script tapscript.control_block output.script_pub_key
  pub control_block : ControlBlock
  pub control_block_is : parse_control_block tapscript.control_block ≡ ok control_block
  pub depth_is : a.control_block_depth ≡ length control_block.path
  pub leaf_is : a.single_leaf_tree ≡ (length control_block.path == 0)
  pub inputs_are : a.single_input_reveal ≡ (length reveal.inputs == 1)

check_commit-CommitsTo :
    (sha256 : List ℕ → List ℕ) (curve : Curve) (reveal : ParsedTx) (inscription : Inscription)
    (commit_hex : Option (List ℕ)) {a : Assurances}
    → check_commit sha256 curve reveal inscription commit_hex ≡ ok a
    → CommitsTo sha256 curve reveal inscription commit_hex a
unfolding check_commit
check_commit-CommitsTo sha256 curve reveal inscription commit_hex h =
    let (hex, present, h1) = >>=-eq-ok (or_throw commit_hex "L2 bundle missing commit tx") _ h in
    let (commit, parsed, h2) = >>=-eq-ok (parse_hop_tx sha256 hex) _ h1 in
    let (input, at_input, h3) =
      >>=-eq-ok (or_throw (get_elem? reveal.inputs inscription.input) "input out of range") _ h2 in
    let (same, h4) =
      >>-eq-ok (bytes_equal commit.txid input.prev_txid)
        (failure "commit tx hashes to another txid") _ h3 in
    let (spent, at_output, h5) =
      >>=-eq-ok (or_throw (get_elem? commit.outputs input.vout) "commit tx has no such output") _
        h4 in
    let (tapscript, extracted, h6) =
      >>=-eq-ok (or_throw (extract_tapscript input.witness) "witness is not a script-path spend") _
        h5 in
    let (check, checked, h7) =
      >>=-eq-ok
        (verify_script_path_commitment sha256 curve tapscript.script tapscript.control_block
          spent.script_pub_key)
        _ h6 in
    let (cb, is_cb, h8) = >>=-eq-ok (parse_control_block tapscript.control_block) _ h7 in
    subst (CommitsTo sha256 curve reveal inscription commit_hex) (ok-injective h8) (record {
      hex = hex;
      hex_is = or_throw-eq-ok _ _ present;
      commit = commit;
      commit_is = parsed;
      input = input;
      input_is = or_throw-eq-ok _ _ at_input;
      spends = (bytes_equal_iff _ _).0 same;
      output = spent;
      output_is = or_throw-eq-ok _ _ at_output;
      tapscript = tapscript;
      tapscript_is = or_throw-eq-ok _ _ extracted;
      commits =
          verify_script_path_commitment-Commits sha256 curve tapscript.script
            tapscript.control_block spent.script_pub_key checked;
      control_block = cb;
      control_block_is = is_cb;
      depth_is = refl;
      leaf_is = refl;
      inputs_are = refl;
    })

-- The evidence of a level: a commit transaction and no witness section, or a witness section through
-- which the coinbase commits to the reveal's witness. An unknown level has none.
pub data Evidence (sha256 : List ℕ → List ℕ) (curve : Curve) (level : Level)
    (witness : Option WitnessSection) (commit_hex : Option (List ℕ)) (header : BlockHeader)
    (tx_count : ℕ) (reveal : ParsedTx) (pos : ℕ) (inscription : Inscription)
    (assurances : Option Assurances) : Type 0 where
  by_commit :
      (a : Assurances)
      → level ≡ l2
      → witness ≡ none
      → assurances ≡ some a
      → CommitsTo sha256 curve reveal inscription commit_hex a
      → Evidence sha256 curve level witness commit_hex header tx_count reveal pos inscription
          assurances
  by_section :
      (w : WitnessSection)
      → level ≡ l3
      → witness ≡ some w
      → assurances ≡ none
      → Committed sha256 w header tx_count reveal pos
      → Evidence sha256 curve level witness commit_hex header tx_count reveal pos inscription
          assurances

pub level-Evidence :
    (sha256 : List ℕ → List ℕ) (curve : Curve) (level : Level) (witness : Option WitnessSection)
    (commit_hex : Option (List ℕ)) (header : BlockHeader) (tx_count : ℕ) (reveal : ParsedTx)
    (pos : ℕ) (inscription : Inscription) (assurances : Option Assurances)
    → check_level_section sha256 level witness header tx_count reveal pos ≡ ok tt
    → check_level_commit sha256 curve level reveal inscription commit_hex ≡ ok assurances
    → Evidence sha256 curve level witness commit_hex header tx_count reveal pos inscription
        assurances
unfolding check_level_section check_level_commit
level-Evidence sha256 curve l2 none commit_hex header tx_count reveal pos inscription assurances s
      c =
    let (a, committed, c1) =
      >>=-eq-ok (check_commit sha256 curve reveal inscription commit_hex) _ c in
    by_commit a refl refl (sym (ok-injective c1))
      (check_commit-CommitsTo sha256 curve reveal inscription commit_hex committed)
level-Evidence sha256 curve l2 (some w) commit_hex header tx_count reveal pos inscription assurances
      s c =
    absurd cc
level-Evidence sha256 curve l3 none commit_hex header tx_count reveal pos inscription assurances s
      c =
    absurd cc
level-Evidence sha256 curve l3 (some w) commit_hex header tx_count reveal pos inscription assurances
      s c =
    by_section w refl refl (sym (ok-injective c))
      (verify_witness_anchoring-Committed sha256 w header tx_count reveal pos s)
level-Evidence sha256 curve unknown_level w commit_hex header tx_count reveal pos inscription
      assurances s c =
    absurd cc
