-- ===== src/Node/Stored.antt =====
-- What a node stores of a request that it completes, over any storage client.
use mathlib.Core.Bool.{false≢true}
use evm_oracle.Base.Dict
use evm_oracle.Consensus.Message.{ConsensusResult}
use evm_oracle.Node.Agreed.{finish_request-result}
use evm_oracle.Node.Prompts.{Services}
use evm_oracle.Node.Tracking.{set-found}
use evm_oracle.Node.Results.{
  final_response, Back, store_request, execution_record, keep_cid, keep_clusters, cluster_request,
  complete_request, finish_request, handle_consensus_result,
}
use evm_oracle.Node.Requests.{ConsensusData, RequestState, ExecutionRecord, OracleNode, complete}
use evm_oracle.Base.{
  String, ℕ, Bool, Option, some, none, ◌≡◌, ◌≢◌, true, false, ◌==◌, ◌&&◌, refl, string_eq, ap,
  eq_iff, ◌⊎◌, inl, inr, ◌∙◌, Bool-cases, if_cases, ltb, not, subst, sym,
}
use evm_oracle.Similarity.Floats.{Float32}
use evm_oracle.Similarity.Clusters.{Clustered, not_clustered, clustered}
use evm_oracle.Storage.Interface.{StorageClient}

-- A node's environment with the storage client `c` in the state `st`
abbrev pub with_client : (fl : Float32) {S : Type 0} → Back fl → StorageClient S → S → Back fl
with_client fl b c st = record b { store = λ r. (c.store r st).0 }

module _ (fl : Float32) {S : Type 0} (c : StorageClient S) (b : Back fl) (st : S) where
  -- The record of a request as a node holds it
  abbrev pub record_of : ℕ → ConsensusData → RequestState fl → ExecutionRecord
  record_of now d s =
      execution_record fl (with_client fl b c st) now
        (final_response fl (with_client fl b c st) s s.llm_response d.response) s

  -- The record of the request `s'` is stored, and is what the client finds under the request's CID.
  abbrev pub IsPinned : ℕ → ConsensusData → RequestState fl → Type 0
  IsPinned now d s' =
      (st' : S) × (c.store (record_of now d s') st ≡ (some s'.ipfs_cid, st'))
      × (c.fetch s'.ipfs_cid st' ≡ some (record_of now d s'))

  -- The CID of a request after storing: that of the stored record, or the one from before if the node has no
  -- storage, the response is empty, or the client fails
  abbrev pub StoreOutcome : Bool → ℕ → ConsensusData → String → RequestState fl → Type 0
  StoreOutcome has now d before s' =
      ((has ≡ true) × ((record_of now d s').final_response ≢ "") × IsPinned now d s')
      ⊎ ((s'.ipfs_cid ≡ before)
          × ((has ≡ false)
              ⊎ ((record_of now d s').final_response ≡ "")
              ⊎ ((c.store (record_of now d s') st).0 ≡ none)))

  stored-StoreOutcome :
      (now : ℕ) (d : ConsensusData) (s : RequestState fl) (saved : Option String × S)
      → c.store (record_of now d s) st ≡ saved
      → (record_of now d s).final_response ≢ ""
      → StoreOutcome true now d s.ipfs_cid (keep_cid fl s saved.0)
  unfolding keep_cid execution_record final_response
  stored-StoreOutcome now d s (none, st') e named =
      inr (refl, inr (inr (ap (λ (r : Option String × S). r.0) e)))
  stored-StoreOutcome now d s (some cid, st') e named =
      inl (refl, named, (st', e, c.stored (record_of now d s) st st' cid e))

  store_request-StoreOutcome :
      (has : Bool) (now : ℕ) (d : ConsensusData) (s : RequestState fl)
      → StoreOutcome has now d s.ipfs_cid (store_request fl (with_client fl b c st) has now d s)
  unfolding store_request execution_record
  store_request-StoreOutcome false now d s = inr (refl, inl refl)
  store_request-StoreOutcome true now d s =
      let text = final_response fl (with_client fl b c st) s s.llm_response d.response in
      elim (Bool-cases (text == "")) [
        | inl e ↦ rw (e, store_request) (inr (refl, inr (inl ((eq_iff text "").0 e))))
        | inr e ↦
            rw (e, store_request)
              (stored-StoreOutcome now d s _ refl (λ k. false≢true (sym e ∙ (eq_iff text "").1 k)))
      ]

  -- Clustering leaves the names of a request.
  abbrev names : RequestState fl → String × String × String
  names s = (s.ipfs_cid, s.request_id, s.prompt)

  keep_clusters-names :
      (s : RequestState fl) (k : Clustered fl) → names (keep_clusters fl s k) ≡ names s
  unfolding keep_clusters
  keep_clusters-names s (not_clustered e) = refl
  keep_clusters-names s (clustered cs) = refl

  cluster_request-names :
      (back : Back fl) (has : Bool) (s : RequestState fl)
      → names (cluster_request fl back has s) ≡ names s
  unfolding cluster_request
  cluster_request-names back has s =
      if_cases (λ s'. names s' ≡ names s) (has && ltb 0 (Dict.size s.responses)) _ _
        (λ _. keep_clusters-names s _) (λ _. refl)

  keep_cid-names :
      (s : RequestState fl) (o : Option String)
      → ((keep_cid fl s o).request_id ≡ s.request_id) × ((keep_cid fl s o).prompt ≡ s.prompt)
  unfolding keep_cid
  keep_cid-names s none = (refl, refl)
  keep_cid-names s (some cid) = (refl, refl)

  store_request-names :
      (back : Back fl) (has : Bool) (now : ℕ) (d : ConsensusData) (s : RequestState fl)
      → let s' = store_request fl back has now d s in
        (s'.request_id ≡ s.request_id) × (s'.prompt ≡ s.prompt)
  unfolding store_request
  store_request-names back has now d s =
      if_cases (λ (s' : RequestState fl). (s'.request_id ≡ s.request_id) × (s'.prompt ≡ s.prompt))
        (has && not (final_response fl back s s.llm_response d.response == "")) _ _
        (λ _. keep_cid-names s _) (λ _. (refl, refl))

  -- A completed request with the outcome of storing it, under the request's ID and prompt
  abbrev pub IsStored : Bool → ℕ → ConsensusData → RequestState fl → RequestState fl → Type 0
  IsStored has now d s s' =
      (s'.status ≡ complete)
      × ((record_of now d s').request_id ≡ s.request_id)
      × ((record_of now d s').request_input ≡ s.prompt)
      × StoreOutcome has now d s.ipfs_cid s'

  finish_request-IsStored :
      (n : OracleNode fl) (now : ℕ) (d : ConsensusData) (s : RequestState fl)
      → IsStored n.has_storage now d s (finish_request fl (with_client fl b c st) n now d s)
  unfolding finish_request complete_request execution_record
  finish_request-IsStored n now d s =
      let back = with_client fl b c st in
      let s1 = cluster_request fl back n.has_scorer (complete_request fl d s) in
      let same = cluster_request-names back n.has_scorer (complete_request fl d s) in
      let after = store_request-names back n.has_storage now d s1 in
      (
        (finish_request-result back n now d s).0,
        after.0 ∙ ap (λ (k : String × String × String). k.1) same,
        after.1 ∙ ap (λ (k : String × String × String). k.2) same,
        subst
            (λ cid.
              StoreOutcome n.has_storage now d cid (store_request fl back n.has_storage now d s1))
            (ap (λ (k : String × String × String). k.0) same)
            (store_request-StoreOutcome n.has_storage now d s1),
      )

  -- A result of the consensus that decodes to data on a request of the node completes the request, whatever the
  -- scorer does. If the node has a storage, the response is not empty and the client stores the record of the
  -- request as the node holds it then, with the request's ID and prompt, the request holds the CID of the
  -- record, under which a client that keeps its promise finds it. In all other cases the CID is the one from
  -- before.
  pub handle_consensus_result-IsStored :
      (w : Services) (now : ℕ) (result : ConsensusResult) (n : OracleNode fl) (d : ConsensusData)
      (s : RequestState fl)
      → w.decode_data result.payload ≡ some d
      → Dict.get n.requests d.request_id ≡ some s
      → let n' = handle_consensus_result fl w (with_client fl b c st) now result n in
        (s' : RequestState fl) × (Dict.get n'.requests d.request_id ≡ some s')
        × IsStored n.has_storage now d s s'
  unfolding handle_consensus_result
  handle_consensus_result-IsStored w now result n d s e h =
      let s' = finish_request fl (with_client fl b c st) n now d s in
      rw (e, h, handle_consensus_result)
        (s', set-found n d.request_id s' n.engine, finish_request-IsStored n now d s)
