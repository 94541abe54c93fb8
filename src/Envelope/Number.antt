-- ===== src/Envelope/Number.antt =====
-- `parseEnvelopesFromTx` of packages/core/src/envelope.ts: envelopes numbered across the inputs.
use ordspv.Common.{ℕ, ◌+◌, Bool, List, [], ◌∷◌, ◌++◌, none, some, length}
use ordspv.Taproot.{extract_tapscript}
use ordspv.Tx.Types.{TxInput, ParsedTx}
use ordspv.Envelope.Scan.{ScriptEnvelope, parse_envelopes_from_script}

pub record RawEnvelope : Type 0 where
  pub input : ℕ
  pub offset_in_input : ℕ
  pub index : ℕ
  pub payload : List (List ℕ)
  pub pushnum : Bool
  pub stutter : Bool

-- The inner loop: the envelopes of input `vin`, from the two counters on.
unfoldable pub number_envelopes : ℕ → ℕ → ℕ → List ScriptEnvelope → List RawEnvelope
number_envelopes vin offset index [] = []
number_envelopes vin offset index (e ∷ es) =
    record {
      input = vin;
      offset_in_input = offset;
      index = index;
      payload = e.payload;
      pushnum = e.pushnum;
      stutter = e.stutter;
    }
    ∷ number_envelopes vin (offset + 1) (index + 1) es

-- The envelopes of one input's witness.
unfoldable pub input_envelopes : TxInput → List ScriptEnvelope
input_envelopes i = elim (extract_tapscript i.witness) [
  | none ↦ []
  | some t ↦ parse_envelopes_from_script t.script
]

unfoldable pub envelopes_loop : ℕ → ℕ → List TxInput → List RawEnvelope
envelopes_loop vin index [] = []
envelopes_loop vin index (i ∷ rest) =
    let found = input_envelopes i in
    number_envelopes vin 0 index found ++ envelopes_loop (vin + 1) (index + length found) rest

unfoldable pub parse_envelopes_from_tx : ParsedTx → List RawEnvelope
parse_envelopes_from_tx tx = envelopes_loop 0 0 tx.inputs
