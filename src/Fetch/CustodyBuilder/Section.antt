-- ===== src/Fetch/CustodyBuilder/Section.antt =====
-- `attachRevealWitnessSection` of packages/fetch/src/custodybuilder.ts.
use ordspv.Common.{
  ℕ, suc, Bool, true, not, List, [], ◌∷◌, map, Option, none, some, custody_build,
  witness_section_unavailable, Result, ok, err, require, or_throw, ◌>>=◌, ◌>>◌, ◌==◌, if◌then◌else◌,
  length, get_elem?,
}
use ordspv.Block.{parse_block}
use ordspv.Bytes.Hex.{bytes_equal, bytes_to_hex, internal_to_display}
use ordspv.Custody.Bundle.{CustodyHop, parse_header_hex}
use ordspv.Merkle.Tree.{build_merkle_branch}
use ordspv.Text.{trim, to_lower_case}
use ordspv.Tx.Types.{ParsedTx}
use ordspv.Witness.{WitnessSection, verify_witness_anchoring, zero32}
use ordspv.Fetch.CustodyBuilder.Types.{AnchorBackend, WitnessSectionMode, always, when_needed}
use ordspv.Fetch.CustodyBuilder.Hop.{check_tx_not_ambiguous}

-- `txs.findIndex((t) => t.txid === txid)`
unfoldable pub find_tx : List ℕ → List ParsedTx → Option ℕ
find_tx txid [] = none
find_tx txid (tx ∷ txs) =
    if bytes_equal tx.txid txid
    then some 0
    else (elim (find_tx txid txs) [ none ↦ none | some i ↦ some (suc i) ])

-- The leaves of the witness tree: the coinbase's is zeroed.
unfoldable pub wtxids_of : List ParsedTx → List (List ℕ)
wtxids_of [] = []
wtxids_of (coinbase ∷ txs) = zero32 ∷ map (λ t. t.wtxid_le) txs

unfoldable pub needs_section : WitnessSectionMode → ParsedTx → Bool
needs_section always reveal = true
needs_section when_needed reveal = not (length reveal.inputs == 1)

module _ (sha256 : List ℕ → List ℕ) where
  -- The section that a backend's block gives, if the block is the hop's and the section folds.
  unfoldable pub section_from : AnchorBackend → ParsedTx → CustodyHop → Result WitnessSection
  section_from backend reveal hop = do
    get_block_raw ← or_throw backend.get_block_raw "backend serves no raw blocks"
    raw ← get_block_raw hop.block.hash
    block ← parse_block sha256 raw
    require (bytes_equal block.header.hash (to_lower_case hop.block.hash))
        (custody_build "served another block")
    pos ← or_throw (find_tx reveal.txid block.txs) "reveal is not in the served block"
    require (pos == hop.pos) (custody_build "reveal is at another position")
    require (length block.txs == hop.block.tx_count)
        (custody_build "served block has another count")
    coinbase ← or_throw (get_elem? block.txs 0) "undefined"
    check_tx_not_ambiguous coinbase
    txid_branch ← build_merkle_branch sha256 (map (λ t. t.txid_le) block.txs) 0
    wtxid_branch ← build_merkle_branch sha256 (wtxids_of block.txs) pos
    let section : WitnessSection = record {
      coinbase_hex = bytes_to_hex coinbase.raw;
      coinbase_txid_branch = map internal_to_display txid_branch;
      wtxid_branch = map internal_to_display wtxid_branch;
    }
    header ← parse_header_hex sha256 (trim hop.block.header)
    verify_witness_anchoring sha256 section header hop.block.tx_count reveal pos
    ok section

  -- The first backend whose section folds.
  unfoldable pub first_section :
      List AnchorBackend → ParsedTx → CustodyHop → Result (WitnessSection × List ℕ)
  first_section [] reveal hop = err witness_section_unavailable
  first_section (backend ∷ backends) reveal hop = elim (section_from backend reveal hop) [
    | ok section ↦ ok (section, backend.base_url)
    | err e ↦ first_section backends reveal hop
  ]

  -- The hop with its section, and the base URL of its server.
  unfoldable pub attach_reveal_witness_section :
      List AnchorBackend
      → ParsedTx
      → CustodyHop
      → WitnessSectionMode
      → Result (CustodyHop × Option (List ℕ))
  attach_reveal_witness_section backends reveal hop mode =
      if needs_section mode reveal
      then (do
        (section, server) ← first_section backends reveal hop
        ok (record hop { witness = some section }, some server))
      else ok (hop, none)
