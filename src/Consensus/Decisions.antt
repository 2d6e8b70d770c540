-- ===== src/Consensus/Decisions.antt =====
-- What an engine may report: messages in its own name, and results that a quorum of commits in its
-- store stands behind.
use evm_oracle.Consensus.Run.{
  take_next, expire, step, Event, receives, proposes, takes, times_out, let_in,
}
use evm_oracle.Consensus.ViewChange.{
  process_new_view, handle_view_change, start_view_change, view_change_data, new_view_message,
  view_change_message,
}
use evm_oracle.Base.Dict
use evm_oracle.Consensus.Handlers.{
  handle_new_view, dispatch, propose_value, proposal, handle_message,
}
use evm_oracle.Consensus.Votes.{file, init_box}
use evm_oracle.Consensus.Message.{
  Env, ConsensusMessage, commit, prepare, MessageType, PbftState, pre_prepare, normal,
  view_changing, view_change, new_view,
}
use evm_oracle.Consensus.Engine.{Pbft}
use evm_oracle.Base.{
  [], refl, ℕ, List, All, Bytes, arith, true, nat_eq, Bool, Option-cases, inc_u64, ◌∷◌, false, inl,
  inr,
}
use evm_oracle.Consensus.Reports.{
  AreSound, nothing-AreSound, broadcast-AreSound, commit-AreSound, pre_prepare-AreSound,
  prepare-AreSound, IsSound,
}

-- A view change broadcasts one message in the engine's own name, if any.
new_view-AreSound :
    (env : Env) (v : ℕ) (p : Pbft)
    → AreSound env (process_new_view env v p).0 (process_new_view env v p).1
unfolding process_new_view
new_view-AreSound env v p = ground (
  arith,
  nothing-AreSound env (entered p.is_leader),
  broadcast-AreSound env p (entered true) (new_view_message p) (unfold new_view_message in refl),
)
  where
    entered : Bool → Pbft
    entered lead = record p {
      is_leader = lead;
      view = v;
      state = normal;
      view_change_msgs = Dict.empty;
      timer = true;
    }

view_change-AreSound :
    (env : Env) (m : ConsensusMessage) (p : Pbft)
    → AreSound env (handle_view_change env m p).0 (handle_view_change env m p).1
unfolding handle_view_change
view_change-AreSound env m p = elim (Option-cases (env.decode_view_change m.payload)) [
  | inl e ↦ rw (e, handle_view_change) (nothing-AreSound env p)
  | inr (d, e) ↦
      let p' = record p { view_change_msgs = file p.view_change_msgs d.new_view m.node_id m } in
      rw (e, handle_view_change)
        (ground (arith, nothing-AreSound env p', new_view-AreSound env d.new_view p'))
]

state_new_view-AreSound :
    (env : Env) (s : PbftState) (p : Pbft)
    → AreSound env (handle_new_view env s p).0 (handle_new_view env s p).1
unfolding handle_new_view
state_new_view-AreSound env view_changing p = new_view-AreSound env p.view p
state_new_view-AreSound env _ p = nothing-AreSound env p

dispatch-AreSound :
    (env : Env) (k : MessageType) (m : ConsensusMessage) (p : Pbft)
    → AreSound env (dispatch env k m p).0 (dispatch env k m p).1
unfolding dispatch
dispatch-AreSound env pre_prepare m p = pre_prepare-AreSound env m p
dispatch-AreSound env prepare m p = prepare-AreSound env m p
dispatch-AreSound env commit m p = commit-AreSound env m p
dispatch-AreSound env view_change m p = view_change-AreSound env m p
dispatch-AreSound env new_view m p = state_new_view-AreSound env p.state p
dispatch-AreSound env _ m p = nothing-AreSound env p

start_view_change-AreSound :
    (env : Env) (v : ℕ) (p : Pbft)
    → AreSound env (start_view_change env v p).0 (start_view_change env v p).1
unfolding start_view_change
start_view_change-AreSound env v p =
    elim (Option-cases (env.encode_view_change (view_change_data p v))) [
      | inl e ↦
          rw (e, start_view_change)
            (ground (
              arith,
              nothing-AreSound env p,
              nothing-AreSound env (record p { state = view_changing }),
            ))
      | inr (bytes, e) ↦
          rw (e, start_view_change)
            (ground (
              arith,
              nothing-AreSound env p,
              broadcast-AreSound env p
                  (record p {
                    state = view_changing;
                    view_change_msgs = init_box p.view_change_msgs v;
                  })
                  (view_change_message p bytes) (unfold view_change_message in refl),
            ))
    ]

propose_value-AreSound :
    (env : Env) (value : Bytes) (p : Pbft)
    → AreSound env (propose_value env value p).1 (propose_value env value p).2
unfolding propose_value
propose_value-AreSound env value p =
    let m = proposal env p value in
    let p' = record p { prepare_messages = file p.prepare_messages p.sequence p.node_id m } in
    ground (
      arith,
      nothing-AreSound env p,
      broadcast-AreSound env p' p' m (unfold proposal in refl),
      broadcast-AreSound env p' (record p' { sequence = inc_u64 p'.sequence }) m
          (unfold proposal in refl),
    )

taken-AreSound :
    (env : Env) (ms : List ConsensusMessage) (p : Pbft)
    → AreSound env (take_next env ms p).0 (take_next env ms p).1
unfolding take_next handle_message
taken-AreSound env [] p = nothing-AreSound env p
taken-AreSound env (m ∷ rest) p =
    dispatch-AreSound env m.kind m (let_in (record p { msg_chan = rest }) p.senders)

expire-AreSound : (env : Env) (p : Pbft) → AreSound env (expire env p).0 (expire env p).1
unfolding expire
expire-AreSound env p = ground (
  arith,
  nothing-AreSound env p,
  start_view_change-AreSound env (inc_u64 p.view) (record p { timer = false }),
)

-- Whatever step an engine makes, in whatever state: a message that it sends bears its own name; a
-- result that it reports carries the SHA-256 digest of its payload, and the store of commits holds at
-- least 2f+1 voters for the result's sequence number when the step has ended.
pub step-IsSound :
    (env : Env) (p : Pbft) (e : Event) → All (IsSound env (step env p e).0) (step env p e).1
unfolding step AreSound
step-IsSound env p (receives m) = tt
step-IsSound env p takes = taken-AreSound env p.msg_chan p
step-IsSound env p (proposes value) = propose_value-AreSound env value p
step-IsSound env p times_out = expire-AreSound env p
