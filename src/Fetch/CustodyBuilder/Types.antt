-- ===== src/Fetch/CustodyBuilder/Types.antt =====
-- What the custody builder of packages/fetch/src/custodybuilder.ts asks of its backends and answers. A
-- backend is a record of its answers, by the hop for which it is asked; what JSON values it sends have
-- their types here.
use ordspv.Common.{ℕ, Bool, List, Option, Result}
use ordspv.Custody.Bundle.{CustodyBundle}
use ordspv.Header.Parse.{PowLimit}

pub record TxStatus : Type 0 where
  pub confirmed : Bool
  pub block_height : Option ℕ
  pub block_hash : Option (List ℕ)

pub record MerkleProof : Type 0 where
  pub block_height : ℕ
  pub merkle : List (List ℕ)
  pub pos : ℕ

pub record BlockInfoAnswer : Type 0 where
  pub id : Option (List ℕ)
  pub height : Option ℕ
  pub tx_count : ℕ
  pub merkle_root : Option (List ℕ)

pub record AnchorBackend : Type 0 where
  pub base_url : List ℕ
  pub get_tx_hex : ℕ → List ℕ → Result (List ℕ)
  pub get_tx_status : ℕ → List ℕ → Result TxStatus
  pub get_merkle_proof : ℕ → List ℕ → Result MerkleProof
  pub get_header_hex : ℕ → List ℕ → Result (List ℕ)
  pub get_block_info : ℕ → List ℕ → Result BlockInfoAnswer
  pub get_block_raw : Option (List ℕ → Result (List ℕ))

pub record Outspend : Type 0 where
  pub spent : Bool
  pub txid : Option (List ℕ)
  pub confirmed : Bool

pub record CustodyBackend : Type 0 where
  pub anchor : AnchorBackend
  pub get_outspend : ℕ → List ℕ → ℕ → Result Outspend

pub data WitnessSectionMode : Type 0 where
  always when_needed : WitnessSectionMode

pub record BuildOptions : Type 0 where
  pub max_hops : ℕ
  pub witness_backends : Option (List AnchorBackend)
  pub witness_section : WitnessSectionMode
  pub pow_limit_bits : PowLimit

pub record BuildCustodyResult : Type 0 where
  pub bundle : CustodyBundle
  pub pending_spend_txid : Option (List ℕ)
  pub served_base_urls : List (List ℕ)
