-- ===== src/Node/Results.antt =====
-- handleConsensusResult of oracle/pkg/node/oracle_node.go.
use evm_oracle.Llm.Client.{LlmResponse}
use evm_oracle.Base.Dict
use evm_oracle.Consensus.Message.{ConsensusResult}
use evm_oracle.Similarity.Clusters.{
  Clustered, Sort, Response, not_clustered, clustered, cluster_responses,
}
use evm_oracle.Base.Dict.{Dict}
use evm_oracle.Node.Prompts.{Services}
use evm_oracle.Node.Requests.{
  ConsensusData, RequestState, OracleNode, complete, ExecutionRecord, OracleResponse, set_request,
}
use evm_oracle.Base.{
  [], ◌∷◌, String, List, Bool, ℕ, Option, if◌then◌else◌, some, ◌&&◌, ltb, not, none, ◌==◌,
  string_eq,
}
use evm_oracle.Similarity.Floats.{Float32}

unfoldable pub add_response :
    ConsensusData → Dict String LlmResponse → Option LlmResponse → Dict String LlmResponse
add_response d responses none = responses
add_response d responses (some r) = elim (Dict.get responses d.node_id) [
  | some held ↦ responses
  | none ↦ Dict.put responses d.node_id r
]

module _ (fl : Float32) where
  open fl use {F}

  -- The scorer (its embedding service, sort.Slice and the threshold 0.85), the storage client, and the
  -- order in which a range gives out the answers
  pub record Back : Type 0 where
    pub embed : String → Option (List F)
    pub sort : Sort fl
    pub threshold : F
    pub store : ExecutionRecord → Option String
    pub range : List (String × LlmResponse) → List (String × LlmResponse)

  unfoldable pub complete_request : ConsensusData → RequestState fl → RequestState fl
  complete_request d s = record s {
    status = complete;
    consensus_data = some d;
    responses = add_response d s.responses d.response;
  }

  abbrev to_cluster : List (String × LlmResponse) → List Response
  to_cluster [] = []
  to_cluster ((id, r) ∷ rest) = record { text = r.text; node_id = r.node_id } ∷ to_cluster rest

  abbrev to_store : List (String × LlmResponse) → List OracleResponse
  to_store [] = []
  to_store ((id, r) ∷ rest) =
      record { node_id = id; llm_response = r.text; timestamp = r.timestamp } ∷ to_store rest

  abbrev first_text : List (String × LlmResponse) → String
  first_text [] = ""
  first_text ((id, r) ∷ rest) = r.text

  unfoldable pub keep_clusters : RequestState fl → Clustered fl → RequestState fl
  keep_clusters s (not_clustered e) = s
  keep_clusters s (clustered cs) = record s { clusters = cs }

  unfoldable pub cluster_request : Back → Bool → RequestState fl → RequestState fl
  cluster_request b has_scorer s =
      if has_scorer && ltb 0 (Dict.size s.responses)
      then keep_clusters s (
          cluster_responses fl b.embed b.sort (to_cluster (b.range (Dict.items s.responses)))
            b.threshold)
      else s

  -- The leader's own answer, else the agreed one, else the first
  unfoldable pub final_response :
      Back → RequestState fl → Option LlmResponse → Option LlmResponse → String
  final_response b s (some own) agreed = own.text
  final_response b s none (some r) = r.text
  final_response b s none none = first_text (b.range (Dict.items s.responses))

  unfoldable pub execution_record : Back → ℕ → String → RequestState fl → ExecutionRecord
  execution_record b now final s = record {
    request_id = s.request_id;
    request_input = s.prompt;
    timestamp = now;
    final_response = final;
    oracle_responses = to_store (b.range (Dict.items s.responses));
    participant_count = Dict.size s.responses;
  }

  unfoldable pub keep_cid : RequestState fl → Option String → RequestState fl
  keep_cid s none = s
  keep_cid s (some cid) = record s { ipfs_cid = cid }

  unfoldable pub store_request : Back → Bool → ℕ → ConsensusData → RequestState fl → RequestState fl
  store_request b has_storage now d s =
      let final = final_response b s s.llm_response d.response in
      if has_storage && not (final == "")
      then keep_cid s (b.store (execution_record b now final s))
      else s

  unfoldable pub finish_request :
      Back → OracleNode fl → ℕ → ConsensusData → RequestState fl → RequestState fl
  finish_request b n now d s =
      store_request b n.has_storage now d (cluster_request b n.has_scorer (complete_request d s))

  unfoldable pub handle_consensus_result :
      Services → Back → ℕ → ConsensusResult → OracleNode fl → OracleNode fl
  handle_consensus_result w b now result n = elim (w.decode_data result.payload) [
    | none ↦ n
    | some d ↦ elim (Dict.get n.requests d.request_id) [
      | none ↦ n
      | some s ↦ set_request fl n d.request_id (finish_request b n now d s)
    ]
  ]
