-- ===== src/Consensus/Quorum.antt =====
-- How far two quorums overlap.
use evm_oracle.Consensus.Identity.{identity}
use evm_oracle.Base.Counting.{length-le-tally, tally-both}
use evm_oracle.Base.Dict.{keys, length-keys}
use evm_oracle.Consensus.Ballots.{IsBallot}
use evm_oracle.Consensus.Engine.{Pbft, init_consensus}
use evm_oracle.Consensus.Votes.{count, Box, Votes, box}
use evm_oracle.Base.{
  ◌≡◌, List, String, ℕ, some, tally, ◌*◌, contains, ◌+◌, ◌≤◌, ◌&&◌, length, ◌∷◌, string_eq, arith,
  [],
}

-- The entries of a member list that have a vote in both boxes
unfoldable pub shared : List String → Box → Box → ℕ
shared members a b = tally members (λ id. contains (keys a) id && contains (keys b) id)

-- Two stores that hold only votes of the same members, at most one for each: however they came about,
-- the members with a vote in both boxes make up for what the two boxes hold beyond the membership.
pub boxes_overlap :
    (members : List String) (v w : Votes) (s t : ℕ)
    → IsBallot members v
    → IsBallot members w
    → count v s + count w t ≤ length members + shared members (box v s) (box w t)
unfolding count shared
boxes_overlap members v w s t hv hw = omega (
  arith,
  length-keys (box v s),
  length-keys (box w t),
  length-le-tally members (keys (box v s)) (hv.distinct s) (hv.known s),
  length-le-tally members (keys (box w t)) (hw.distinct t) (hw.known t),
  tally-both members (contains (keys (box v s))) (contains (keys (box w t))),
)

-- InitConsensus, and so NewPBFT, chooses the largest f with 3f+1 ≤ n, n the number of nodes.
pub f-init_consensus :
    (id : String) (nodes : List String) (p : Pbft)
    → init_consensus id nodes ≡ some p
    → (3 * p.f + 1 ≤ length nodes) × (length nodes ≤ 3 * p.f + 3) × (identity p ≡ (id, nodes, p.f))
unfolding init_consensus
f-init_consensus id [] p e = cc
f-init_consensus id (n ∷ ns) p e = ground arith
