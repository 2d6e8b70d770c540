-- ===== src/Consensus/Validate.antt =====
-- validateMessage and ProcessMessage of pbft.go.
use evm_oracle.Base.{
  ℕ, Bool, not, Option, none, some, ◌∷◌, [], ◌++◌, ◌==◌, ◌&&◌, ltb, leb, if◌then◌else◌, sub_u64,
  contains, length, string_eq,
}
use evm_oracle.Consensus.Message.{
  MessageType, pre_prepare, prepare, commit, view_change, new_view, state_transfer, unknown,
  ConsensusMessage, Error, invalid_message, invalid_sender, invalid_sequence, invalid_view,
  non_leader_pre_prepare, invalid_view_change, unknown_message_type,
}
use evm_oracle.Consensus.Engine.{Pbft}

-- The switch on the message type; `none` is a nil error.
unfoldable pub validate_type : Pbft → ConsensusMessage → MessageType → Option Error
validate_type p m pre_prepare =
    if not p.is_leader && m.node_id == p.node_id then some non_leader_pre_prepare else none
validate_type p m prepare = none
validate_type p m commit = none
validate_type p m view_change =
    if leb m.view p.view && ltb 0 p.view then some invalid_view_change else none
validate_type p m new_view =
    if leb m.view p.view && ltb 0 p.view then some invalid_view_change else none
validate_type p m state_transfer = some unknown_message_type
validate_type p m (unknown n) = some unknown_message_type

-- `msg.Sequence < p.sequence-1 && p.sequence > 1`, and the same for the view; `uint64` wraps.
unfoldable pub is_behind : ℕ → ℕ → Bool
is_behind received own = ltb received (sub_u64 own 1) && ltb 1 own

unfoldable pub validate : Pbft → ConsensusMessage → Option Error
unfolding validate_type is_behind
validate p m =
    if not (contains p.nodes m.node_id)
    then some invalid_sender
    else if is_behind m.sequence p.sequence
    then some invalid_sequence
    else if is_behind m.view p.view
    then some invalid_view
    else validate_type p m m.kind

-- A nil pointer is `none`.
unfoldable pub validate_message : Pbft → Option ConsensusMessage → Option Error
unfolding validate
validate_message p none = some invalid_message
validate_message p (some m) = validate p m

abbrev pub chan_capacity : ℕ
chan_capacity = 1000

-- What a call of ProcessMessage comes to: an error with the engine untouched, a message in the
-- channel, or a wait on the full channel, with the sequence and the view already raised and the message
-- behind those that wait already.
pub data Accepted : Type 0 where
  refused : Error → Accepted
  queued : Pbft → Accepted
  blocked : Pbft → Accepted

-- `if msg.Sequence > p.sequence`, `if msg.View > p.view`
unfoldable pub catch_up : Pbft → ConsensusMessage → Pbft
catch_up p m = record p {
  sequence = if ltb p.sequence m.sequence then m.sequence else p.sequence;
  view = if ltb p.view m.view then m.view else p.view;
}

unfoldable pub enqueue : Pbft → ConsensusMessage → Accepted
enqueue p m =
    if ltb (length p.msg_chan) chan_capacity
    then queued (record p { msg_chan = p.msg_chan ++ m ∷ [] })
    else blocked (record p { senders = p.senders ++ m ∷ [] })

unfoldable pub process_message : Pbft → ConsensusMessage → Accepted
unfolding catch_up enqueue
process_message p m = elim (validate p m) [ some e ↦ refused e | none ↦ enqueue (catch_up p m) m ]
