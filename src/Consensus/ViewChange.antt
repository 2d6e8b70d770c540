-- ===== src/Consensus/ViewChange.antt =====
-- startViewChange, handleViewChange, processNewView and resetViewTimer of pbft.go.
use evm_oracle.Base.{
  ℕ, Bytes, Bool, true, false, none, some, List, [], ◌+◌, ◌*◌, ◌%◌, ◌==◌, leb, length, get_elem?,
  if◌then◌else◌, string_eq,
}
use evm_oracle.Base.Dict
use evm_oracle.Consensus.Message.{
  view_change, new_view, normal, view_changing, ConsensusMessage, ViewChangeData, Output, Env,
}
use evm_oracle.Consensus.Votes.{init_box, file, count}
use evm_oracle.Consensus.Engine.{Pbft}
use evm_oracle.Consensus.Execute.{broadcast}

-- p.nodes[newView % len(p.nodes)] == p.nodeID; there is no such entry only for an empty list, which
-- the constructor refuses.
unfoldable pub leads : Pbft → ℕ → Bool
leads p v = elim (get_elem? p.nodes (v % length p.nodes)) [
  | none ↦ false
  | some leader ↦ p.node_id == leader
]

-- The messages that the code builds name no view: it stays 0.
unfoldable pub new_view_message : Pbft → ConsensusMessage
new_view_message p = record {
  kind = new_view;
  node_id = p.node_id;
  view = 0;
  sequence = p.sequence;
  digest = [];
  payload = [];
}

unfoldable pub view_change_message : Pbft → Bytes → ConsensusMessage
view_change_message p bytes = record {
  kind = view_change;
  node_id = p.node_id;
  view = 0;
  sequence = p.sequence;
  digest = [];
  payload = bytes;
}

enter_view : Pbft → ℕ → Pbft
enter_view p v = record p { view = v; state = normal; view_change_msgs = Dict.empty; timer = true }

unfoldable pub process_new_view : Env → ℕ → Pbft → Pbft × List Output
unfolding enter_view
process_new_view env v p =
    if leads p v
    then (enter_view (record p { is_leader = true }) v, (broadcast env p (new_view_message p)).1)
    else (enter_view p v, [])

unfoldable pub handle_view_change : Env → ConsensusMessage → Pbft → Pbft × List Output
handle_view_change env m p = elim (env.decode_view_change m.payload) [
  | none ↦ (p, [])
  | some d ↦
      let p' = record p { view_change_msgs = file p.view_change_msgs d.new_view m.node_id m } in
      if leb (2 * p.f + 1) (count p'.view_change_msgs d.new_view)
      then process_new_view env d.new_view p'
      else (p', [])
]

-- What a view change message carries
unfoldable pub view_change_data : Pbft → ℕ → ViewChangeData
view_change_data p v = record {
  new_view = v;
  last_seq = p.sequence;
  checkpoint = p.last_checkpoint;
}

unfoldable pub start_view_change : Env → ℕ → Pbft → Pbft × List Output
unfolding view_change_data
start_view_change env v p =
    if leb v p.view then (p, []) else elim (env.encode_view_change (view_change_data p v)) [
      | none ↦ (record p { state = view_changing }, [])
      | some bytes ↦ (
        record p { state = view_changing; view_change_msgs = init_box p.view_change_msgs v },
        (broadcast env p (view_change_message p bytes)).1,
      )
    ]
