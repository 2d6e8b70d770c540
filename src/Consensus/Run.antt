-- ===== src/Consensus/Run.antt =====
-- An engine in time: what its goroutines and callers do to it, one step after another.
use evm_oracle.Base.{Bytes, false, List, [], ◌∷◌, ◌++◌, true, inc_u64}
use evm_oracle.Consensus.Message.{ConsensusMessage, Output, Env}
use evm_oracle.Consensus.Engine.{Pbft}
use evm_oracle.Consensus.Validate.{Accepted, refused, queued, blocked, process_message}
use evm_oracle.Consensus.ViewChange.{start_view_change}
use evm_oracle.Consensus.Handlers.{propose_value, handle_message}

-- `receives`: ProcessMessage; `takes`: one round of the loop of `run`, which takes the oldest message
-- of the channel; `proposes`: ProposeValue; `times_out`: the view timer, if one is pending.
pub data Event : Type 0 where
  receives : ConsensusMessage → Event
  takes : Event
  proposes : Bytes → Event
  times_out : Event

unfoldable pub after : Pbft → Accepted → Pbft
after p (refused e) = p
after p (queued q) = q
after p (blocked q) = q

-- The channel has room again: the first call that waits on it puts in its message and returns.
unfoldable pub let_in : Pbft → List ConsensusMessage → Pbft
let_in p [] = p
let_in p (s ∷ rest) = record p { msg_chan = p.msg_chan ++ s ∷ []; senders = rest }

unfoldable pub take_next : Env → List ConsensusMessage → Pbft → Pbft × List Output
unfolding let_in
take_next env [] p = (p, [])
take_next env (m ∷ rest) p = handle_message env m (let_in (record p { msg_chan = rest }) p.senders)

unfoldable pub expire : Env → Pbft → Pbft × List Output
expire env p = elim p.timer [
  | true ↦ start_view_change env (inc_u64 p.view) (record p { timer = false })
  | false ↦ (p, [])
]

unfoldable pub step : Env → Pbft → Event → Pbft × List Output
unfolding after take_next expire
step env p (receives m) = (after p (process_message p m), [])
step env p takes = take_next env p.msg_chan p
step env p (proposes value) = ((propose_value env value p).1, (propose_value env value p).2)
step env p times_out = expire env p

unfoldable pub run : Env → Pbft → List Event → Pbft × List Output
run env p [] = (p, [])
run env p (e ∷ es) =
    let (q, outs) = step env p e in let (r, more) = run env q es in (r, outs ++ more)
