-- ===== src/Node/Prompts.antt =====
-- ProcessPrompt of oracle/pkg/node/oracle_node.go.
use evm_oracle.Llm.Client.{LlmResponse}
use evm_oracle.Consensus.Handlers.{propose_value}
use evm_oracle.Base.Dict
use evm_oracle.Consensus.Engine.{Pbft}
use evm_oracle.Consensus.Message.{Env, Error, Output}
use evm_oracle.Node.Requests.{
  OracleNode, NodeError, RequestState, ConsensusData, pending, set_request, llm_failed,
  request_failed, propose_failed, in_consensus, data_marshal_failed,
}
use evm_oracle.Similarity.Floats.{Float32}
use evm_oracle.Base.{String, Option, ℕ, List, if◌then◌else◌, Bytes, none, not, some, [], string_eq}

-- What the node calls: the language model's client and encoding/json on the consensus data. `none` is an
-- error.
pub record Services : Type 0 where
  pub get_response : String → String → Option LlmResponse
  pub encode_data : ConsensusData → Option Bytes
  pub decode_data : Bytes → Option ConsensusData

module _ (fl : Float32) where
  -- What ProcessPrompt returns, the node after it, and what was handed to the transport
  abbrev pub Prompted : Type 0
  Prompted = Option NodeError × OracleNode fl × List Output

  unfoldable pub new_request : OracleNode fl → ℕ → String → String → RequestState fl
  new_request n now id prompt = record {
    request_id = id;
    node_id = n.node_id;
    status = pending;
    prompt = prompt;
    start_time = now;
    llm_response = none;
    responses = Dict.empty;
    clusters = [];
    consensus_data = none;
    ipfs_cid = "";
    error = none;
  }

  unfoldable pub fail_request :
      OracleNode fl → String → RequestState fl → NodeError → List Output → Prompted
  fail_request n id s e outs =
      (some e, set_request fl n id (record s { status = request_failed; error = some e }), outs)

  -- "Start consensus process", with what ProposeValue returned
  unfoldable pub proposed :
      OracleNode fl → String → RequestState fl → Option Error × Pbft × List Output → Prompted
  proposed n id s (some e, q, outs) =
      fail_request (record n { engine = q }) id s (propose_failed e) outs
  proposed n id s (none, q, outs) =
      (none, set_request fl (record n { engine = q }) id (record s { status = in_consensus }), outs)

  -- "Only leader proposes values for consensus"
  unfoldable pub propose_request :
      Services → Env → ℕ → String → OracleNode fl → RequestState fl → Prompted
  propose_request w env now id n s =
      if not n.engine.is_leader
      then (none, set_request fl n id s, [])
      else elim (w.encode_data (record {
        request_id = id;
        node_id = n.node_id;
        response = s.llm_response;
        timestamp = now;
      })) [
        | none ↦ fail_request n id s data_marshal_failed []
        | some bytes ↦ proposed n id s (propose_value env bytes n.engine)
      ]

  unfoldable pub process_prompt : Services → Env → ℕ → String → String → OracleNode fl → Prompted
  process_prompt w env now id prompt n =
      let s = new_request n now id prompt in
      if n.has_client
      then elim (w.get_response id prompt) [
        | none ↦ fail_request n id s llm_failed []
        | some r ↦
            propose_request w env now id n
              (record s { llm_response = some r; responses = Dict.put s.responses n.node_id r })
      ]
      else propose_request w env now id n s
