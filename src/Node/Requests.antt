-- ===== src/Node/Requests.antt =====
-- The data of oracle/pkg/node/oracle_node.go and types.go, with the records
-- of oracle/pkg/storage. The extra parameters, metadata and the request channels are left out.
use evm_oracle.Llm.Client.{LlmResponse}
use mathlib.Core.Option
use evm_oracle.Network.Transport.{P2p, new_p2p}
use evm_oracle.Similarity.Clusters.{Cluster}
use evm_oracle.Network.Transport
use evm_oracle.Consensus.Engine.{Pbft, init_consensus}
use evm_oracle.Base.Dict.{Dict}
use evm_oracle.Base.Dict
use evm_oracle.Similarity.Floats.{Float32}
use evm_oracle.Consensus.Message.{Error}
use evm_oracle.Base.{
  String, ℕ, Option, Bool, if◌then◌else◌, List, some, not, none, false, true, string_eq, [],
}

-- ConsensusData of consensus/types.go; a nil pointer is `none`.
pub record ConsensusData : Type 0 where
  pub request_id : String
  pub node_id : String
  pub response : Option LlmResponse
  pub timestamp : ℕ

pub data Status : Type 0 where
  pending in_consensus complete request_failed : Status

pub data NodeError : Type 0 where
  llm_failed data_marshal_failed request_not_found already_running start_failed : NodeError
  propose_failed : Error → NodeError

module _ (fl : Float32) where
  pub record RequestState : Type 0 where
    pub request_id : String
    pub node_id : String
    pub status : Status
    pub prompt : String
    pub start_time : ℕ
    pub llm_response : Option LlmResponse
    pub responses : Dict String LlmResponse
    pub clusters : List (Cluster fl)
    pub consensus_data : Option ConsensusData
    pub ipfs_cid : String
    pub error : Option NodeError

  -- The client, the storage and the scorer are set or nil; the engine is there once InitConsensus ran.
  pub record OracleNode : Type 0 where
    pub node_id : String
    pub address : String
    pub has_client : Bool
    pub has_storage : Bool
    pub has_scorer : Bool
    pub engine : Pbft
    pub transport : P2p
    pub requests : Dict String RequestState
    pub is_running : Bool
    pub peers : Dict String String

  -- NewOracleNode and then InitConsensus
  unfoldable pub new_oracle_node :
      String → String → Bool → Bool → Bool → List String → Option OracleNode
  new_oracle_node node_id address client storage scorer nodes =
      Option.map
        (λ p. record {
          node_id = node_id;
          address = address;
          has_client = client;
          has_storage = storage;
          has_scorer = scorer;
          engine = p;
          transport = new_p2p node_id address [];
          requests = Dict.empty;
          is_running = false;
          peers = Dict.empty;
        })
        (init_consensus node_id nodes)

  unfoldable pub set_request : OracleNode → String → RequestState → OracleNode
  set_request n id s = record n { requests = Dict.put n.requests id s }

  unfoldable pub get_request_state : String → OracleNode → Option NodeError × Option RequestState
  get_request_state id n = elim (Dict.get n.requests id) [
    | none ↦ (some request_not_found, none)
    | some s ↦ (none, some s)
  ]

  unfoldable pub register_peer : String → String → OracleNode → OracleNode
  register_peer id address n = record n {
    peers = Dict.put n.peers id address;
    transport = Transport.register_peer id address n.transport;
  }

  -- Start; the argument says whether the transport's Start returns no error. The consensus engine's Start
  -- returns none.
  unfoldable pub start : Bool → OracleNode → Option NodeError × OracleNode
  start listens n =
      if n.is_running
      then (some already_running, n)
      else (if listens then none else some start_failed, record n { is_running = true })

  unfoldable pub stop : OracleNode → OracleNode
  stop n =
      if not n.is_running
      then n
      else record n { is_running = false; transport = Transport.stop n.transport }

-- The record that goes to the storage, and one answer in it
pub record OracleResponse : Type 0 where
  pub node_id : String
  pub llm_response : String
  pub timestamp : ℕ

pub record ExecutionRecord : Type 0 where
  pub request_id : String
  pub request_input : String
  pub timestamp : ℕ
  pub final_response : String
  pub oracle_responses : List OracleResponse
  pub participant_count : ℕ
