-- ===== src/Consensus/Slots.antt =====
-- The commits of one sequence number as an abstract machine.
use evm_oracle.Base.Dict
use evm_oracle.Consensus.Execute.{
  execute_consensus, cleanup, announce, make_checkpoint, compute_digest, take_checkpoint,
}
use evm_oracle.Base.Counting.{length-le-tally, tally-le-length}
use mathlib.Core.Path.{fun_ext}
use evm_oracle.Consensus.Handlers.{reached, handle_commit}
use evm_oracle.Consensus.Ballots.{IsBallot, IsBallot-file}
use evm_oracle.Base.Dict.{keys, length-keys, keys-put, get-put}
use evm_oracle.Consensus.Message.{ConsensusResult, ConsensusMessage, Output, decided, Env}
use evm_oracle.Consensus.Votes.{count, Votes, box, file, box-file, get-keep_from, box-keep_from}
use evm_oracle.Consensus.Invariant.{IsWellFormed}
use evm_oracle.Consensus.Engine.{Pbft}
use evm_oracle.Base.{
  String, List, ℕ, Bool, contains, IsDistinct, if◌then◌else◌, ◌≡◌, false, tally, true, ◌==◌, ◌∷◌,
  ap, arith, ◌||◌, [], eq_iff, string_eq, leb, ◌*◌, ==_refl, ◌+◌, ◌∙◌, Bool-cases, nat_eq, inl, inr,
  refl,
}

-- Which members have committed, and whether the value is executed: what the messages say is forgotten.
pub record Slot : Type 0 where
  pub committed : String → Bool
  pub executed : Bool

-- A commit counts while nothing is executed, and executes the value as soon as 2f+1 members have
-- committed; the second component says whether it does.
unfoldable pub commit_slot : List String → ℕ → String → Slot → Slot × Bool
commit_slot members f id a =
    if a.executed
    then (a, false)
    else let committed = λ (j : String). id == j || a.committed j in
      let enough = leb (2 * f + 1) (tally members committed) in
      (record { committed = committed; executed = enough }, enough)

-- What an engine holds for a sequence number
unfoldable pub slot_of : Pbft → ℕ → Slot
slot_of p s = record {
  committed = λ id. contains (keys (box p.commit_messages s)) id;
  executed = reached p s;
}

-- A step of the engine does what a step of the machine does.
pub record Implements (s : ℕ) (result : ConsensusResult) (r : Pbft × List Output) (a : Slot × Bool)
    : Type 0 where
  pub committed : (id : String) → (slot_of r.0 s).committed id ≡ a.0.committed id
  pub executed : (slot_of r.0 s).executed ≡ a.0.executed
  pub reports : r.1 ≡ (if a.1 then decided result ∷ [] else [])

tally_same :
    (xs : List String) (p q : String → Bool) → ((x : String) → p x ≡ q x) → tally xs p ≡ tally xs q
tally_same xs p q h = ap (tally xs) (fun_ext h)

IsBallot-nodes :
    (p : Pbft)
    → IsWellFormed p
    → contains p.nodes p.node_id ≡ true
    → IsBallot p.nodes p.commit_messages
unfolding IsWellFormed
IsBallot-nodes p w own = record {
  distinct = w.commits.distinct;
  known = λ s id h. ground (arith, w.commits.known s id h, eq_iff p.node_id id, own);
}

-- The votes of a box are the members that have voted in it.
count-tally :
    (members : List String) (v : Votes) (s : ℕ)
    → IsDistinct members
    → IsBallot members v
    → count v s ≡ tally members (λ id. contains (keys (box v s)) id)
unfolding count
count-tally members v s d b = omega (
  arith,
  length-keys (box v s),
  length-le-tally members (keys (box v s)) (b.distinct s) (b.known s),
  tally-le-length members (keys (box v s)) d,
)

filed :
    (v : Votes) (s : ℕ) (id : String) (m : ConsensusMessage) (j : String)
    → contains (keys (box (file v s id m) s)) j ≡ (id == j || contains (keys (box v s)) j)
filed v s id m j = rw (box-file v s s id m, ==_refl s) (keys-put (box v s) id j m)

module _ (env : Env) (m : ConsensusMessage) where
  abbrev s : ℕ
  s = m.sequence

  -- The engine with the commit stored
  abbrev stored : Pbft → Pbft
  stored p = record p { commit_messages = file p.commit_messages s m.node_id m }

  abbrev executing : Pbft → Pbft
  executing p = record (stored p) { consensus_reached = Dict.put p.consensus_reached s true }

  abbrev the_result : ConsensusResult
  the_result = record { sequence = s; payload = m.payload; digest = env.sha256 m.payload }

  abbrev votes_with : Pbft → String → Bool
  votes_with p j = m.node_id == j || contains (keys (box p.commit_messages s)) j

  checkpoint-commits : (p : Pbft) → (make_checkpoint env p).commit_messages ≡ p.commit_messages
  unfolding make_checkpoint take_checkpoint
  checkpoint-commits p = ground arith

  -- An execution keeps the commits of its own sequence number.
  executed-box :
      (p : Pbft) (j : String)
      → contains (keys (box (execute_consensus env s m.payload p).0.commit_messages s)) j
        ≡ contains (keys (box p.commit_messages s)) j
  unfolding execute_consensus cleanup
  executed-box p j =
      rw (box-keep_from (make_checkpoint env p).commit_messages s s, checkpoint-commits p)
        (ground arith)

  executed-reached :
      (p : Pbft) → reached (execute_consensus env s m.payload (executing p)).0 s ≡ true
  unfolding reached execute_consensus cleanup make_checkpoint
  executed-reached p = ground (
    arith,
    get-keep_from s s (Dict.put p.consensus_reached s true),
    get-put p.consensus_reached s s true,
  )

  executed-reports :
      (p : Pbft)
      → p.has_callback ≡ true
      → (execute_consensus env s m.payload (executing p)).1 ≡ decided the_result ∷ []
  unfolding execute_consensus announce compute_digest
  executed-reports p c = ground arith

  -- The number of votes with the new one
  count-stored :
      (p : Pbft)
      → IsWellFormed p
      → IsDistinct p.nodes
      → contains p.nodes p.node_id ≡ true
      → contains p.nodes m.node_id ≡ true
      → count (stored p).commit_messages s ≡ tally p.nodes (votes_with p)
  count-stored p w d own member =
      let ballot = IsBallot-nodes p w own in
      count-tally p.nodes (stored p).commit_messages s d
        (IsBallot-file p.commit_messages ballot s m.node_id m member)
      ∙ tally_same p.nodes _ (votes_with p) (filed p.commit_messages s m.node_id m)

  -- For a well-formed engine with a callback, whose members are distinct and hold itself, a commit of a
  -- member does to the commits of its sequence number what the abstract machine does, and the engine reports
  -- the commit's payload with its digest exactly if the machine executes.
  pub handle_commit-Implements :
      (p : Pbft)
      → IsWellFormed p
      → IsDistinct p.nodes
      → contains p.nodes p.node_id ≡ true
      → contains p.nodes m.node_id ≡ true
      → p.has_callback ≡ true
      → Implements s the_result
          (handle_commit env m p)
          (commit_slot p.nodes p.f m.node_id (slot_of p s))
  unfolding handle_commit commit_slot slot_of reached
  handle_commit-Implements p w d own member c =
      let votes = count-stored p w d own member in
      elim (Bool-cases (reached p s)) [
        | inl e ↦ rw e (record { committed = λ j. refl; executed = e; reports = refl })
        | inr e ↦ elim (Bool-cases (leb (2 * p.f + 1) (tally p.nodes (votes_with p)))) [
          | inl enough ↦
              rw (e, votes, enough)
                (record {
                  committed =
                      λ j. executed-box (executing p) j ∙ filed p.commit_messages s m.node_id m j;
                  executed = executed-reached p;
                  reports = executed-reports p c;
                })
          | inr few ↦
              rw (e, votes, few)
                (record {
                  committed = filed p.commit_messages s m.node_id m;
                  executed = e;
                  reports = refl;
                })
        ]
      ]
