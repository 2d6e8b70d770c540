-- ===== src/Consensus/Views.antt =====
-- View changes: who leads a view, what a change leaves, and which messages are refused in the next view.
use mathlib.Core.Bool.{false≢true}
use evm_oracle.Base.Dict
use evm_oracle.Consensus.Votes.{file, count}
use evm_oracle.Consensus.Engine.{Pbft}
use evm_oracle.Consensus.Message.{Env, ConsensusMessage, ViewChangeData, normal}
use evm_oracle.Consensus.Validate.{validate}
use evm_oracle.Consensus.ViewChange.{
  leads, process_new_view, handle_view_change, view_change_message, new_view_message,
}
use evm_oracle.Base.{
  List, String, ℕ, ◌<◌, length, ◌≡◌, Bytes, get_elem?, ◌||◌, true, some, ◌≢◌, ◌%◌, arith, false,
  none, ◌==◌, ◌*◌, get_elem?_total, ◌+◌, ◌≤◌, string_eq, ◌⊎◌, sym, ◌∙◌,
}

-- In each view one member of the list leads, the one at the view's number modulo the number of nodes:
-- an engine with that list finds itself to lead exactly if it bears that member's name.
leader_exists :
    (nodes : List String) (v : ℕ)
    → 0 < length nodes
    → (leader : String) × (get_elem? nodes (v % length nodes) ≡ some leader)
      × ((p : Pbft) → p.nodes ≡ nodes → leads p v ≡ (p.node_id == leader))
unfolding leads
leader_exists nodes v h =
    let (leader, e) = get_elem?_total nodes (v % length nodes) (omega arith) in
    (leader, e, λ p same. rw (same, e, leads))

-- Entering a view gives leadership to the view's leader and takes it from nobody.
is_leader-process_new_view :
    (env : Env) (v : ℕ) (p : Pbft)
    → (process_new_view env v p).0.is_leader ≡ (leads p v || p.is_leader)
unfolding process_new_view
is_leader-process_new_view env v p = ground arith

leads_cong :
    (v : ℕ) (p q : Pbft) → p.nodes ≡ q.nodes → p.node_id ≡ q.node_id → leads p v ≡ leads q v
unfolding leads
leads_cong v p q d same = rw (d, same)

-- Where an engine that leads enters a view that another engine of its list leads, both lead from then
-- on, under two names and in the same view.
pub two_leaders :
    (env env' : Env) (v : ℕ) (p q : Pbft)
    → p.is_leader ≡ true
    → leads p v ≡ false
    → leads q v ≡ true
    → p.nodes ≡ q.nodes
    → let p' = (process_new_view env v p).0 in
      let q' = (process_new_view env' v q).0 in
      (p'.is_leader ≡ true)
      × (q'.is_leader ≡ true)
      × (p'.view ≡ q'.view)
      × (p'.node_id ≢ q'.node_id)
unfolding process_new_view
two_leaders env env' v p q a b c d =
    (ground arith, ground arith, ground arith, λ same. different (ground arith))
  where
    different : p.node_id ≢ q.node_id
    different same = false≢true (sym b ∙ leads_cong v p q d same ∙ c)

-- A stored view change message either completes the quorum of its view, and the engine enters it, in
-- state Normal and with no view change messages left; or the view and the state stay.
handle_view_change-cases :
    (env : Env) (m : ConsensusMessage) (p : Pbft) (d : ViewChangeData)
    → env.decode_view_change m.payload ≡ some d
    → let q = (handle_view_change env m p).0 in
      let votes = file p.view_change_msgs d.new_view m.node_id m in
      ((2 * p.f + 1 ≤ count votes d.new_view)
        × (q.view ≡ d.new_view)
        × (q.state ≡ normal)
        × (q.view_change_msgs ≡ Dict.empty))
      ⊎ ((count votes d.new_view < 2 * p.f + 1)
          × (q.view ≡ p.view)
          × (q.state ≡ p.state)
          × (q.view_change_msgs ≡ votes))
unfolding handle_view_change process_new_view
handle_view_change-cases env m p d e = rw (e, handle_view_change) (ground arith)

-- In a view above 0 an engine refuses every view change and every new view message that any engine
-- builds.
pub view_messages_refused :
    (p q : Pbft) (bytes : Bytes)
    → 0 < p.view
    → (validate p (view_change_message q bytes) ≢ none) × (validate p (new_view_message q) ≢ none)
unfolding validate view_change_message new_view_message
view_messages_refused p q bytes h = ((λ e. ground arith), (λ e. ground arith))
