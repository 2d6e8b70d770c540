-- ===== src/Consensus/Identity.antt =====
-- No step changes who an engine is: its name, its member list and f.
use evm_oracle.Base.Dict
use evm_oracle.Consensus.Votes.{file}
use evm_oracle.Consensus.Validate.{process_message}
use evm_oracle.Consensus.Message.{
  Env, ConsensusMessage, commit, MessageType, pre_prepare, prepare, view_change, new_view,
}
use evm_oracle.Consensus.Run.{
  take_next, step, run, after, expire, Event, receives, proposes, takes, times_out, let_in,
}
use evm_oracle.Consensus.Handlers.{
  cast_commit, dispatch, propose_value, handle_pre_prepare, handle_message, handle_prepare,
  handle_commit, vote, handle_new_view,
}
use evm_oracle.Consensus.ViewChange.{process_new_view, start_view_change, handle_view_change}
use evm_oracle.Consensus.Execute.{execute_consensus, cleanup, make_checkpoint}
use evm_oracle.Consensus.Engine.{Pbft}
use evm_oracle.Base.{
  [], ◌∷◌, String, List, ℕ, Bytes, ◌≡◌, arith, ◌∙◌, inc_u64, false, true, Option-cases, inl, inr,
  nat_eq, refl,
}

abbrev pub identity : Pbft → String × List String × ℕ
identity p = (p.node_id, p.nodes, p.f)

execute-identity :
    (env : Env) (s : ℕ) (d : Bytes) (p : Pbft)
    → identity (execute_consensus env s d p).0 ≡ identity p
unfolding execute_consensus cleanup make_checkpoint
execute-identity env s d p = ground arith

new_view-identity :
    (env : Env) (v : ℕ) (p : Pbft) → identity (process_new_view env v p).0 ≡ identity p
unfolding process_new_view
new_view-identity env v p = ground arith

cast_commit-identity :
    (env : Env) (m : ConsensusMessage) (p : Pbft) → identity (cast_commit env m p).0 ≡ identity p
unfolding cast_commit
cast_commit-identity env m p =
    let own = vote commit p m m.digest in
    ground (
      arith,
      execute-identity env m.sequence m.payload
          (record p { commit_messages = file p.commit_messages m.sequence p.node_id own }),
    )

pub dispatch-identity :
    (env : Env) (k : MessageType) (m : ConsensusMessage) (p : Pbft)
    → identity (dispatch env k m p).0 ≡ identity p
unfolding dispatch handle_pre_prepare handle_prepare handle_commit handle_view_change
    handle_new_view
dispatch-identity env pre_prepare m p = ground arith
dispatch-identity env prepare m p = ground (
  arith,
  cast_commit-identity env m
      (record p { prepare_messages = file p.prepare_messages m.sequence m.node_id m }),
)
dispatch-identity env commit m p = ground (
  arith,
  execute-identity env m.sequence m.payload (record p {
    commit_messages = file p.commit_messages m.sequence m.node_id m;
    consensus_reached = Dict.put p.consensus_reached m.sequence true;
  }),
)
dispatch-identity env view_change m p = elim (Option-cases (env.decode_view_change m.payload)) [
  | inl e ↦ rw (e, handle_view_change)
  | inr (d, e) ↦
      rw (e, handle_view_change)
        (ground (
          arith,
          new_view-identity env d.new_view
              (record p { view_change_msgs = file p.view_change_msgs d.new_view m.node_id m }),
        ))
]
dispatch-identity env new_view m p = ground (arith, new_view-identity env p.view p)
dispatch-identity env _ m p = refl

start_view_change-identity :
    (env : Env) (v : ℕ) (p : Pbft) → identity (start_view_change env v p).0 ≡ identity p
unfolding start_view_change
start_view_change-identity env v p = ground arith

let_in-identity : (p : Pbft) (ms : List ConsensusMessage) → identity (let_in p ms) ≡ identity p
unfolding let_in
let_in-identity p [] = refl
let_in-identity p (m ∷ rest) = refl

taken-identity :
    (env : Env) (ms : List ConsensusMessage) (p : Pbft)
    → identity (take_next env ms p).0 ≡ identity p
unfolding take_next handle_message
taken-identity env [] p = refl
taken-identity env (m ∷ rest) p =
    dispatch-identity env m.kind m (let_in (record p { msg_chan = rest }) p.senders)
    ∙ let_in-identity (record p { msg_chan = rest }) p.senders

propose_value-identity :
    (env : Env) (value : Bytes) (p : Pbft) → identity (propose_value env value p).1 ≡ identity p
unfolding propose_value
propose_value-identity env value p = ground arith

pub step-identity : (env : Env) (p : Pbft) (e : Event) → identity (step env p e).0 ≡ identity p
unfolding step after process_message expire
step-identity env p (receives m) = ground arith
step-identity env p takes = taken-identity env p.msg_chan p
step-identity env p (proposes value) = propose_value-identity env value p
step-identity env p times_out =
    ground (arith, start_view_change-identity env (inc_u64 p.view) (record p { timer = false }))

pub run-identity : (env : Env) (p : Pbft) (es : List Event) → identity (run env p es).0 ≡ identity p
unfolding run
run-identity env p [] = refl
run-identity env p (e ∷ es) = run-identity env (step env p e).0 es ∙ step-identity env p e
