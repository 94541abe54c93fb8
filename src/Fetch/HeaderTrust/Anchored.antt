-- ===== src/Fetch/HeaderTrust/Anchored.antt =====
-- What a header anchor of packages/fetch/src/headertrust.ts rests on.
use mathlib.Core.List.{Memᴰ}
use ordspv.Common.{ℕ, ◌+◌, ◌≤◌, ◌≡◌, Bool, true, false, List, [], length, All}
use ordspv.Custody.Bundle.{HeaderAttestation, nothing_said, hash_at_height}
use ordspv.Header.Parse.{BlockHeader}
use ordspv.Fetch.HeaderTrust.{
  Attester, HeaderTrustOptions, HeaderTrustReport, serving, attesters, required, throws,
}
use ordspv.Fetch.HeaderTrust.Vote.{agrees, denies, those, Apart}

-- The voters are the endpoints, of those that were asked, that answered the header's hash at the height.
-- They are the caller's, they differ, none of them served the bundle, and they are enough; each endpoint
-- that was asked is accounted for, and an attestation is made only if none of them named another block.
pub record Voted (normalize : List ℕ → List ℕ) (options : HeaderTrustOptions) (header : BlockHeader)
    (height : ℕ) (report : HeaderTrustReport) : Type 0 where
  pub voters : List Attester
  pub voters_are : voters ≡ those (agrees header.hash) height (attesters normalize options)
  pub among : All (λ e. Memᴰ e options.esploras) voters
  pub apart : Apart normalize (serving normalize options) [] voters
  pub agree : All (λ e. agrees header.hash (e.block_hash_at height) ≡ true) voters
  pub enough : required normalize options ≤ length voters
  pub some_voter : 1 ≤ length voters
  pub counts : report.sources_agreed ≡ length voters
  pub queried : report.sources_queried ≡ length (attesters normalize options)
  pub accounted :
      report.sources_queried
      ≡ report.sources_agreed + report.sources_unreachable + report.sources_disagreed
        + report.sources_malformed
  pub uncontested :
      report.attests ≡ hash_at_height
      → those (denies header.hash) height (attesters normalize options) ≡ []
  pub unopposed :
      options.on_disagreement ≡ throws
      → those (denies header.hash) height (attesters normalize options) ≡ []

abbrev says : HeaderAttestation → Bool
says nothing_said = false
says hash_at_height = true
