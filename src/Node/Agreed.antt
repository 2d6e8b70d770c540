-- ===== src/Node/Agreed.antt =====
-- What a result of the consensus does to a node's requests.
use evm_oracle.Llm.Client.{LlmResponse}
use evm_oracle.Node.Tracking.{SameElsewhere, set-found, set-others}
use evm_oracle.Base.Dict
use evm_oracle.Node.Results.{final_response}
use evm_oracle.Consensus.Message.{ConsensusResult}
use evm_oracle.Node.Prompts.{Services}
use evm_oracle.Base.{
  Option, ◌≡◌, String, Bool, if_cases, ℕ, some, ◌&&◌, ◌∙◌, refl, none, ltb, not, ◌==◌, Option-cases,
  string_eq, inr, inl, arith, eq_iff,
}
use evm_oracle.Similarity.Clusters.{Clustered, not_clustered, clustered}
use evm_oracle.Base.Dict.{Dict, get-put}
use evm_oracle.Node.Requests.{RequestState, ConsensusData, OracleNode, complete}
use evm_oracle.Node.Results.{
  add_response, keep_clusters, keep_cid, cluster_request, store_request, finish_request,
  handle_consensus_result, Back, complete_request,
}
use evm_oracle.Similarity.Floats.{Float32}

add_response-held :
    (d : ConsensusData) (responses : Dict String LlmResponse) (r : Option LlmResponse) (id : String)
    (held : LlmResponse)
    → Dict.get responses id ≡ some held
    → Dict.get (add_response d responses r) id ≡ some held
unfolding add_response
add_response-held d responses none id held h = h
add_response-held d responses (some r) id held h =
    elim (Option-cases (Dict.get responses d.node_id)) [
      | inr (old, e) ↦ rw (e, add_response) h
      | inl e ↦
          rw (e, add_response)
            (ground (arith, get-put responses d.node_id id r, eq_iff d.node_id id))
    ]

module _ {fl : Float32} where
  keep_clusters-frame :
      (s : RequestState fl) (c : Clustered fl)
      → ((keep_clusters fl s c).status ≡ s.status)
        × ((keep_clusters fl s c).consensus_data ≡ s.consensus_data)
        × ((keep_clusters fl s c).responses ≡ s.responses)
  unfolding keep_clusters
  keep_clusters-frame s (not_clustered e) = (refl, refl, refl)
  keep_clusters-frame s (clustered cs) = (refl, refl, refl)

  keep_cid-frame :
      (s : RequestState fl) (c : Option String)
      → ((keep_cid fl s c).status ≡ s.status)
        × ((keep_cid fl s c).consensus_data ≡ s.consensus_data)
        × ((keep_cid fl s c).responses ≡ s.responses)
  unfolding keep_cid
  keep_cid-frame s none = (refl, refl, refl)
  keep_cid-frame s (some cid) = (refl, refl, refl)

  -- Clustering and storing change neither the status nor the agreed data nor the answers.
  abbrev pub SameResult : RequestState fl → RequestState fl → Type 0
  SameResult s s' =
      (s'.status ≡ s.status) × (s'.consensus_data ≡ s.consensus_data) × (s'.responses ≡ s.responses)

  cluster_request-frame :
      (b : Back fl) (has : Bool) (s : RequestState fl) → SameResult s (cluster_request fl b has s)
  unfolding cluster_request
  cluster_request-frame b has s =
      if_cases (SameResult s) (has && ltb 0 (Dict.size s.responses)) _ _
        (λ _. keep_clusters-frame s _) (λ _. (refl, refl, refl))

  store_request-frame :
      (b : Back fl) (has : Bool) (now : ℕ) (d : ConsensusData) (s : RequestState fl)
      → SameResult s (store_request fl b has now d s)
  unfolding store_request
  store_request-frame b has now d s =
      if_cases (SameResult s) (has && not (final_response fl b s s.llm_response d.response == "")) _
        _ (λ _. keep_cid-frame s _) (λ _. (refl, refl, refl))

  pub finish_request-result :
      (b : Back fl) (n : OracleNode fl) (now : ℕ) (d : ConsensusData) (s : RequestState fl)
      → SameResult (complete_request fl d s) (finish_request fl b n now d s)
  unfolding finish_request
  finish_request-result b n now d s =
      let c = cluster_request-frame b n.has_scorer (complete_request fl d s) in
      let t =
        store_request-frame b n.has_storage now d
          (cluster_request fl b n.has_scorer (complete_request fl d s)) in
      (t.0 ∙ c.0, t.1 ∙ c.1, t.2 ∙ c.2)

  -- The request at a node after a result of the consensus: complete, with the agreed data, and with every
  -- answer that it had, under the same node
  pub record IsAgreed (d : ConsensusData) (s s' : RequestState fl) : Type 0 where
    pub done : s'.status ≡ complete
    pub agreed : s'.consensus_data ≡ some d
    pub kept :
        (id : String) (held : LlmResponse)
        → Dict.get s.responses id ≡ some held
        → Dict.get s'.responses id ≡ some held

  -- A result of the consensus that decodes to data on a request of the node makes that request complete,
  -- with these data and every answer it already held, whatever the scorer and the storage do; the other
  -- requests are as before.
  pub handle_consensus_result-IsAgreed :
      (w : Services) (b : Back fl) (now : ℕ) (result : ConsensusResult) (n : OracleNode fl)
      (d : ConsensusData) (s : RequestState fl)
      → w.decode_data result.payload ≡ some d
      → Dict.get n.requests d.request_id ≡ some s
      → let n' = handle_consensus_result fl w b now result n in
        ((s' : RequestState fl) × (Dict.get n'.requests d.request_id ≡ some s') × IsAgreed d s s')
        × SameElsewhere d.request_id n n'
  unfolding handle_consensus_result complete_request
  handle_consensus_result-IsAgreed w b now result n d s e h =
      let same = finish_request-result b n now d s in
      let s' = finish_request fl b n now d s in
      rw (e, h, handle_consensus_result)
        (
          (
            s',
            set-found n d.request_id s' n.engine,
            record {
              done = same.0;
              agreed = same.1;
              kept = λ id held k. rw same.2 (add_response-held d s.responses d.response id held k);
            },
          ),
          set-others n d.request_id s' n.engine,
        )
