-- ===== src/Consensus/Reports.antt =====
-- The reports of the handlers of prepares, commits and executions.
use evm_oracle.Base.Dict
use evm_oracle.Consensus.Handlers.{
  handle_commit, cast_commit, handle_pre_prepare, vote, handle_prepare,
}
use evm_oracle.Consensus.Execute.{broadcast, execute_consensus, announce, cleanup, make_checkpoint}
use evm_oracle.Consensus.Votes.{count, Votes, keep_from, box-keep_from, file}
use evm_oracle.Consensus.Message.{
  Env, Output, ConsensusMessage, sent, decided, commit, prepare, MessageType,
}
use evm_oracle.Consensus.Engine.{Pbft}
use evm_oracle.Base.{
  [], refl, ℕ, List, ◌*◌, All, ◌≡◌, Bytes, ◌+◌, arith, ◌≤◌, ◌++◌, All-append, true, sym, nat_eq,
  ◌∙◌,
}

abbrev pub quorum : Pbft → ℕ
quorum p = 2 * p.f + 1

-- At the state `q` that the report leaves
abbrev pub IsSound : Env → Pbft → Output → Type 0
IsSound env q (sent m) = m.node_id ≡ q.node_id
IsSound env q (decided r) =
    (quorum q ≤ count q.commit_messages r.sequence) × (r.digest ≡ env.sha256 r.payload)

-- Shut, so that the tactics pass it on whole.
unfoldable pub AreSound : Env → Pbft → List Output → Type 0
AreSound env q outs = All (IsSound env q) outs

count-keep_from : (v : Votes) (s : ℕ) → count (keep_from s v) s ≡ count v s
unfolding count
count-keep_from v s = rw (box-keep_from v s s) (ground arith)

pub nothing-AreSound : (env : Env) (q : Pbft) → AreSound env q []
unfolding AreSound
nothing-AreSound env q = tt

pub broadcast-AreSound :
    (env : Env) (p q : Pbft) (m : ConsensusMessage)
    → m.node_id ≡ q.node_id
    → AreSound env q (broadcast env p m).1
unfolding broadcast AreSound
broadcast-AreSound env p q m h = ground arith

-- An execution leaves the commits of its own sequence in the store.
execute-frame :
    (env : Env) (s : ℕ) (d : Bytes) (p : Pbft)
    → ((execute_consensus env s d p).0.node_id ≡ p.node_id)
      × ((execute_consensus env s d p).0.f ≡ p.f)
      × (count (execute_consensus env s d p).0.commit_messages s ≡ count p.commit_messages s)
unfolding execute_consensus cleanup make_checkpoint
execute-frame env s d p = ground (arith, count-keep_from p.commit_messages s)

announce-AreSound :
    (env : Env) (p q : Pbft) (s : ℕ) (d : Bytes)
    → quorum q ≤ count q.commit_messages s
    → AreSound env q (announce env p s d)
unfolding announce AreSound
announce-AreSound env p q s d h = ground arith

execute-AreSound :
    (env : Env) (s : ℕ) (d : Bytes) (p : Pbft)
    → quorum p ≤ count p.commit_messages s
    → AreSound env (execute_consensus env s d p).0 (execute_consensus env s d p).1
unfolding execute_consensus
execute-AreSound env s d p h =
    announce-AreSound env p (cleanup s (make_checkpoint env p)) s d
      (omega (arith, execute-frame env s d p))

node_id-vote :
    (k : MessageType) (p : Pbft) (m : ConsensusMessage) (d : Bytes)
    → (vote k p m d).node_id ≡ p.node_id
unfolding vote
node_id-vote k p m d = refl

append-AreSound :
    (env : Env) (q : Pbft) (xs ys : List Output)
    → AreSound env q xs
    → AreSound env q ys
    → AreSound env q (xs ++ ys)
unfolding AreSound
append-AreSound env q = All-append (IsSound env q)

module _ (env : Env) (m : ConsensusMessage) (p : Pbft) where
  pub commit-AreSound : AreSound env (handle_commit env m p).0 (handle_commit env m p).1
  unfolding handle_commit
  commit-AreSound = ground (
    arith,
    nothing-AreSound env p,
    nothing-AreSound env
        (record p { commit_messages = file p.commit_messages m.sequence m.node_id m }),
    execute-AreSound env m.sequence m.payload (record p {
      commit_messages = file p.commit_messages m.sequence m.node_id m;
      consensus_reached = Dict.put p.consensus_reached m.sequence true;
    }),
  )

  cast_commit-AreSound : AreSound env (cast_commit env m p).0 (cast_commit env m p).1
  unfolding cast_commit
  cast_commit-AreSound =
      let own = vote commit p m m.digest in
      let p' = record p { commit_messages = file p.commit_messages m.sequence p.node_id own } in
      let q = (execute_consensus env m.sequence m.payload p').0 in
      ground (
        arith,
        broadcast-AreSound env p p' own (node_id-vote commit p m m.digest),
        execute-AreSound env m.sequence m.payload p',
        append-AreSound env q (broadcast env p own).1
            (execute_consensus env m.sequence m.payload p').1
            (broadcast-AreSound env p q own (
              node_id-vote commit p m m.digest
              ∙ sym (execute-frame env m.sequence m.payload p').0)),
      )

  pub pre_prepare-AreSound :
      AreSound env (handle_pre_prepare env m p).0 (handle_pre_prepare env m p).1
  unfolding handle_pre_prepare
  pre_prepare-AreSound =
      let own = vote prepare p m (env.sha256 m.payload) in
      ground (
        arith,
        nothing-AreSound env p,
        broadcast-AreSound env p
            (record p { prepare_messages = file p.prepare_messages m.sequence p.node_id own }) own
            (node_id-vote prepare p m (env.sha256 m.payload)),
      )

pub prepare-AreSound :
    (env : Env) (m : ConsensusMessage) (p : Pbft)
    → AreSound env (handle_prepare env m p).0 (handle_prepare env m p).1
unfolding handle_prepare
prepare-AreSound env m p =
    let p' = record p { prepare_messages = file p.prepare_messages m.sequence m.node_id m } in
    ground (arith, nothing-AreSound env p', cast_commit-AreSound env m p')
