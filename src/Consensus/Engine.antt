-- ===== src/Consensus/Engine.antt =====
-- The engine's record (type PBFT of consensus/types.go), its constructor, and its accessors.
use mathlib.Core.Option
use evm_oracle.Base.{
  ℕ, String, Bytes, Bool, true, false, Option, none, some, List, [], ◌∷◌, ◌-◌, ◌/◌, ◌==◌, length,
  string_eq, if◌then◌else◌,
}
use evm_oracle.Base.Dict
use evm_oracle.Base.Dict.{Dict}
use evm_oracle.Consensus.Message.{ConsensusMessage, PbftState, normal}
use evm_oracle.Consensus.Votes.{Votes}

-- `networked` and `has_callback` say that the two pointers are set, `timer` that a view timer is
-- pending. Locks, the private key, the timeouts and doneChan, which nothing reads, are left out.
pub record Pbft : Type 0 where
  pub node_id : String
  pub nodes : List String
  pub networked : Bool
  pub checkpoint_interval : ℕ
  pub view : ℕ
  pub sequence : ℕ
  pub state : PbftState
  pub is_leader : Bool
  pub last_checkpoint : Bytes
  pub last_checkpoint_seq : ℕ
  pub prepare_messages : Votes
  pub commit_messages : Votes
  pub view_change_msgs : Votes
  pub checkpoints : Dict ℕ Bytes
  pub consensus_reached : Dict ℕ Bool
  pub msg_chan : List ConsensusMessage
  -- The messages of the calls that wait on the full channel, which go in by turns
  pub senders : List ConsensusMessage
  pub has_callback : Bool
  pub f : ℕ
  pub timer : Bool

-- `none`: nodes[0] panics on an empty list.
unfoldable pub new_pbft : String → List String → Option Pbft
new_pbft node_id [] = none
new_pbft node_id (first ∷ rest) = some (record {
  node_id = node_id;
  nodes = first ∷ rest;
  networked = false;
  checkpoint_interval = 100;
  view = 0;
  sequence = 0;
  state = normal;
  is_leader = node_id == first;
  last_checkpoint = [];
  last_checkpoint_seq = 0;
  prepare_messages = Dict.empty;
  commit_messages = Dict.empty;
  view_change_msgs = Dict.empty;
  checkpoints = Dict.empty;
  consensus_reached = Dict.empty;
  msg_chan = [];
  senders = [];
  has_callback = false;
  f = (length (first ∷ rest) - 1) / 3;
  timer = false;
})

unfoldable pub set_network_manager : Pbft → Pbft
set_network_manager p = record p { networked = true }

unfoldable pub set_result_callback : Pbft → Pbft
set_result_callback p = record p { has_callback = true }

-- GetLeader
unfoldable pub get_leader : Pbft → String
get_leader p = p.node_id

unfoldable pub restore_state : ℕ → ℕ → PbftState → Pbft → Pbft
restore_state sequence view state p = record p { sequence = sequence; view = view; state = state }

-- OracleNode.InitConsensus of node/oracle_node.go: a new engine with its network manager and callback
unfoldable pub init_consensus : String → List String → Option Pbft
unfolding new_pbft set_network_manager set_result_callback
init_consensus node_id nodes =
    Option.map (λ p. set_result_callback (set_network_manager p)) (new_pbft node_id nodes)

-- RegisterResultCallback
unfoldable pub register_result_callback : Pbft → Pbft
register_result_callback p = record p { has_callback = true }

-- IsLeader, GetSequence, GetView and GetState
unfoldable pub leads_now : Pbft → Bool
leads_now p = p.is_leader

unfoldable pub get_sequence : Pbft → ℕ
get_sequence p = p.sequence

unfoldable pub get_view : Pbft → ℕ
get_view p = p.view

unfoldable pub get_state : Pbft → PbftState
get_state p = p.state

-- Stop, on whether doneChan is closed; `none` is the panic of a second close. Nothing reads the channel.
unfoldable pub stop_engine : Bool → Option Bool
stop_engine closed = if closed then none else some true
