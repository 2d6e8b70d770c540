-- ===== src/Consensus/Handlers.antt =====
-- ProposeValue, handlePrePrepare, handlePrepare, handleCommit and handleMessage of pbft.go.
use evm_oracle.Base.{
  ℕ, Bytes, Bool, true, false, not, Option, none, some, List, [], ◌++◌, ◌+◌, ◌*◌, ltb, leb, inc_u64,
  bytes_equal, if◌then◌else◌, nat_eq,
}
use evm_oracle.Base.Dict
use evm_oracle.Consensus.Message.{
  MessageType, PbftState, pre_prepare, prepare, commit, view_change, new_view, state_transfer,
  unknown, normal, view_changing, state_transferring, unknown_state, ConsensusMessage, Error,
  not_leader, Output, Env,
}
use evm_oracle.Consensus.Votes.{file, count}
use evm_oracle.Consensus.Engine.{Pbft}
use evm_oracle.Consensus.Execute.{broadcast, compute_digest, execute_consensus}
use evm_oracle.Consensus.ViewChange.{handle_view_change, process_new_view}

unfoldable pub proposal : Env → Pbft → Bytes → ConsensusMessage
unfolding compute_digest
proposal env p value = record {
  kind = pre_prepare;
  node_id = p.node_id;
  view = p.view;
  sequence = p.sequence;
  digest = compute_digest env value;
  payload = value;
}

-- The error, if any, with the state and the messages handed over. A failed broadcast returns before
-- the sequence number is raised.
unfoldable pub propose_value : Env → Bytes → Pbft → Option Error × Pbft × List Output
propose_value env value p =
    if not p.is_leader
    then (some not_leader, p, [])
    else let m = proposal env p value in
      let p' = record p { prepare_messages = file p.prepare_messages p.sequence p.node_id m } in
      let (failure, outs) = broadcast env p' m in
      elim failure [
        | some e ↦ (some e, p', outs)
        | none ↦ (none, record p' { sequence = inc_u64 p'.sequence }, outs)
      ]

-- The engine's own vote of a kind for what `m` carries
unfoldable pub vote : MessageType → Pbft → ConsensusMessage → Bytes → ConsensusMessage
vote kind p m digest = record {
  kind = kind;
  node_id = p.node_id;
  view = m.view;
  sequence = m.sequence;
  digest = digest;
  payload = m.payload;
}

unfoldable pub handle_pre_prepare : Env → ConsensusMessage → Pbft → Pbft × List Output
unfolding compute_digest
handle_pre_prepare env m p =
    if ltb m.sequence p.sequence
    then (p, [])
    else if not (bytes_equal (compute_digest env m.payload) m.digest)
    then (p, [])
    else let own = vote prepare p m (compute_digest env m.payload) in
      (
        record p { prepare_messages = file p.prepare_messages m.sequence p.node_id own },
        (broadcast env p own).1,
      )

-- After the quorum of prepares: the engine's commit, and the execution if commits suffice already
unfoldable pub cast_commit : Env → ConsensusMessage → Pbft → Pbft × List Output
cast_commit env m p =
    let own = vote commit p m m.digest in
    let p' = record p { commit_messages = file p.commit_messages m.sequence p.node_id own } in
    let outs = (broadcast env p own).1 in
    if leb (2 * p.f + 1) (count p'.commit_messages m.sequence)
    then (let (q, more) = execute_consensus env m.sequence m.payload p' in (q, outs ++ more))
    else (p', outs)

unfoldable pub handle_prepare : Env → ConsensusMessage → Pbft → Pbft × List Output
unfolding cast_commit
handle_prepare env m p =
    let p' = record p { prepare_messages = file p.prepare_messages m.sequence m.node_id m } in
    if leb (2 * p.f) (count p'.prepare_messages m.sequence) then cast_commit env m p' else (p', [])

abbrev is_set : Option Bool → Bool
is_set none = false
is_set (some b) = b

-- p.consensusReached[s]
unfoldable pub reached : Pbft → ℕ → Bool
reached p s = is_set (Dict.get p.consensus_reached s)

unfoldable pub handle_commit : Env → ConsensusMessage → Pbft → Pbft × List Output
handle_commit env m p =
    if reached p m.sequence
    then (p, [])
    else let p' = record p { commit_messages = file p.commit_messages m.sequence m.node_id m } in
      if leb (2 * p.f + 1) (count p'.commit_messages m.sequence)
      then execute_consensus env m.sequence m.payload
          (record p' { consensus_reached = Dict.put p'.consensus_reached m.sequence true })
      else (p', [])

-- The case NewView of the switch, on p.state
unfoldable pub handle_new_view : Env → PbftState → Pbft → Pbft × List Output
handle_new_view env normal p = (p, [])
handle_new_view env view_changing p = process_new_view env p.view p
handle_new_view env state_transferring p = (p, [])
handle_new_view env (unknown_state n) p = (p, [])

unfoldable pub dispatch : Env → MessageType → ConsensusMessage → Pbft → Pbft × List Output
dispatch env pre_prepare m p = handle_pre_prepare env m p
dispatch env prepare m p = handle_prepare env m p
dispatch env commit m p = handle_commit env m p
dispatch env view_change m p = handle_view_change env m p
dispatch env new_view m p = handle_new_view env p.state p
dispatch env state_transfer m p = (p, [])
dispatch env (unknown n) m p = (p, [])

unfoldable pub handle_message : Env → ConsensusMessage → Pbft → Pbft × List Output
unfolding dispatch handle_new_view
handle_message env m p = dispatch env m.kind m p
