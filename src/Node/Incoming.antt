-- ===== src/Node/Incoming.antt =====
-- A round of handleMessages of oracle/pkg/node/oracle_node.go, on the payload of a transport message.
use evm_oracle.Consensus.Validate.{process_message}
use evm_oracle.Base.Dict
use evm_oracle.Consensus.Run.{after}
use evm_oracle.Node.Requests.{ConsensusData, OracleNode, set_request, in_consensus}
use evm_oracle.Node.Prompts.{Services, new_request}
use evm_oracle.Consensus.Message.{ConsensusMessage, Env}
use evm_oracle.Base.{ℕ, Bytes, some, string_eq, none}
use evm_oracle.Similarity.Floats.{Float32}

module _ (fl : Float32) where
  -- "Create request state if it doesn't exist"
  unfoldable pub ensure_request : ℕ → ConsensusData → OracleNode fl → OracleNode fl
  ensure_request now d n = elim (Dict.get n.requests d.request_id) [
    | some s ↦ n
    | none ↦
        set_request fl n d.request_id
          (record (new_request fl n now d.request_id "") { status = in_consensus })
  ]

  unfoldable pub hand_over : ConsensusMessage → OracleNode fl → OracleNode fl
  hand_over m n = record n { engine = after n.engine (process_message n.engine m) }

  unfoldable pub handle_incoming : Services → Env → ℕ → Bytes → OracleNode fl → OracleNode fl
  handle_incoming w env now payload n = elim (env.decode_message payload) [
    | none ↦ n
    | some m ↦ elim (w.decode_data m.payload) [
      | none ↦ n
      | some d ↦ hand_over m (ensure_request now d n)
    ]
  ]
