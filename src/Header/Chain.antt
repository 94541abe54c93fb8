-- ===== src/Header/Chain.antt =====
-- `verifyHeaderChain` of packages/core/src/header.ts.
use ordspv.Common.{
  Bool, true, List, [], ◌∷◌, Option, none, some, Result, ok, ◌>>=◌, ◌>>◌, require, failure, ◌≡◌,
  refl, >>=-eq-ok, >>-eq-ok, ◌↔◌,
}
use ordspv.Bytes.Hex.{bytes_equal}
use ordspv.Header.Parse.{BlockHeader, check_proof_of_work}

-- The test against the header before, when there is one.
unfoldable pub follows : Option BlockHeader → BlockHeader → Bool
follows none h = true
follows (some before) h = bytes_equal h.prev_block before.hash

unfoldable pub chain_loop : Option BlockHeader → List BlockHeader → Result (Unit {0})
chain_loop before [] = ok tt
chain_loop before (h ∷ hs) = do
  enough ← check_proof_of_work h
  require enough (failure "header fails its own PoW target")
  require (follows before h) (failure "header chain broken")
  chain_loop (some h) hs

unfoldable pub verify_header_chain : List BlockHeader → Result (Unit {0})
verify_header_chain = chain_loop none

-- What `verifyHeaderChain` promises of the headers behind `before`.
pub data Linked : Option BlockHeader → List BlockHeader → Type 0 where
  linked_end : {before : Option BlockHeader} → Linked before []
  linked_hop :
      {before : Option BlockHeader} {h : BlockHeader} {hs : List BlockHeader}
      → check_proof_of_work h ≡ ok true
      → follows before h ≡ true
      → Linked (some h) hs
      → Linked before (h ∷ hs)

chain_loop-Linked :
    (before : Option BlockHeader) (hs : List BlockHeader)
    → chain_loop before hs ≡ ok tt
    → Linked before hs
unfolding chain_loop
chain_loop-Linked before [] h = linked_end
chain_loop-Linked before (x ∷ hs) h =
    let (enough, work, h1) = >>=-eq-ok (check_proof_of_work x) _ h in
    let (e, h2) = >>-eq-ok enough _ _ h1 in
    let (linked, h3) = >>-eq-ok (follows before x) _ _ h2 in
    linked_hop (rw e at work) linked (chain_loop-Linked (some x) hs h3)

Linked-chain_loop :
    (before : Option BlockHeader) (hs : List BlockHeader)
    → Linked before hs
    → chain_loop before hs ≡ ok tt
unfolding chain_loop
Linked-chain_loop before [] linked_end = refl
Linked-chain_loop before (x ∷ hs) (linked_hop work linked rest) =
    rw (work, linked) (Linked-chain_loop (some x) hs rest)

-- A chain of headers is accepted exactly when each header meets its own target and names the hash of
-- the header before it.
pub verify_header_chain_iff :
    (hs : List BlockHeader) → (verify_header_chain hs ≡ ok tt) ↔ Linked none hs
unfolding verify_header_chain
verify_header_chain_iff hs = (chain_loop-Linked none hs, Linked-chain_loop none hs)
