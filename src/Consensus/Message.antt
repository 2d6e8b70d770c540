-- ===== src/Consensus/Message.antt =====
-- oracle/pkg/consensus/types.go: message kinds, messages, results, and what the engine reports.
use evm_oracle.Base.{ℕ, String, Bytes, Option, Bool}

-- MessageType; `unknown` is any other value of Go's int, which a decoded message may hold.
pub data MessageType : Type 0 where
  pre_prepare prepare commit view_change new_view state_transfer : MessageType
  unknown : ℕ → MessageType

-- `unknown_state n` is the value n + 3 of Go's int, which a file may hold.
pub data PbftState : Type 0 where
  normal view_changing state_transferring : PbftState
  unknown_state : ℕ → PbftState

pub record ConsensusMessage : Type 0 where
  pub kind : MessageType
  pub node_id : String
  pub view : ℕ
  pub sequence : ℕ
  pub digest : Bytes
  pub payload : Bytes

pub record ConsensusResult : Type 0 where
  pub sequence : ℕ
  pub payload : Bytes
  pub digest : Bytes

pub record ViewChangeData : Type 0 where
  pub new_view : ℕ
  pub last_seq : ℕ
  pub checkpoint : Bytes

-- The errors of validateMessage, ProposeValue and the network manager.
pub data Error : Type 0 where
  invalid_message invalid_sender invalid_sequence invalid_view : Error
  non_leader_pre_prepare invalid_view_change unknown_message_type : Error
  not_leader no_network_manager marshal_failed unmarshal_failed send_failed : Error

-- What an engine does to its surroundings: a message handed to the transport, and a call of the
-- result callback.
pub data Output : Type 0 where
  sent : ConsensusMessage → Output
  decided : ConsensusResult → Output

-- What the engine calls and does not implement: crypto/sha256, encoding/json, and whether the
-- transport's Broadcast of a payload returns no error.
pub record Env : Type 0 where
  pub sha256 : Bytes → Bytes
  pub encode_message : ConsensusMessage → Option Bytes
  pub decode_message : Bytes → Option ConsensusMessage
  pub encode_view_change : ViewChangeData → Option Bytes
  pub decode_view_change : Bytes → Option ViewChangeData
  pub encode_checkpoint : ℕ → Bytes → Bytes
  pub delivers : Bytes → Bool
