-- ===== src/Similarity/Clusters.antt =====
-- ClusterResponses and SelectConsensusResponse of oracle/pkg/similarity/semantic.go. The embedding
-- service and sort.Slice are parameters.
use evm_oracle.Base.Dict.{Dict}
use evm_oracle.Similarity.Floats.{Float32, cosine_similarity}
use evm_oracle.Base.{
  [], ◌∷◌, String, List, Option, Bool, some, ℕ, false, not, if◌then◌else◌, true, none, string_eq,
  ◌+◌, ◌&&◌, ltb, length, ◌==◌, nat_eq,
}
use evm_oracle.Base.Dict

pub record Response : Type 0 where
  pub text : String
  pub node_id : String

pub data ClusterError : Type 0 where
  no_responses embedding_failed : ClusterError

abbrev is_set : Option Bool → Bool
is_set none = false
is_set (some b) = b

-- used[id]
unfoldable pub is_used : Dict String Bool → String → Bool
is_used used id = is_set (Dict.get used id)

-- "Find similar responses": those that join, and the map after them
unfoldable pub collect :
    (Response → Bool) → List Response → Dict String Bool → List Response × Dict String Bool
collect similar [] used = ([], used)
collect similar (other ∷ rest) used =
    let joins = not (is_used used other.node_id) && similar other in
    let (members, used') =
      collect similar rest (if joins then Dict.put used other.node_id true else used) in
    (if joins then other ∷ members else members, used')

module _ (fl : Float32) where
  open fl use {F, zero_f, one_f, add, div, of_int, ge, gt}

  pub record Cluster : Type 0 where
    pub responses : List Response
    pub average_score : F
    pub representative : Response

  abbrev or_nil : Option (List F) → List F
  or_nil none = []
  or_nil (some e) = e

  abbrev or_zero : Option F → F
  or_zero none = zero_f
  or_zero (some x) = x

  abbrev or_no_row : Option (Dict String F) → Dict String F
  or_no_row none = Dict.empty
  or_no_row (some row) = row

  -- The embeddings, by node; `none` is an error of the service.
  unfoldable pub embed_all :
      (String → Option (List F))
      → List Response
      → Dict String (List F)
      → Option (Dict String (List F))
  embed_all embed [] done = some done
  embed_all embed (r ∷ rs) done =
      let rest = λ (e : List F). embed_all embed rs (Dict.put done r.node_id e) in
      elim (embed r.text) [ none ↦ none | some e ↦ rest e ]

  -- The inner loop of the similarities: the row of the response at index i
  unfoldable pub similarity_row :
      Dict String (List F) → ℕ → Response → ℕ → List Response → Dict String F → Dict String F
  similarity_row embeddings i r j [] row = row
  similarity_row embeddings i r j (other ∷ rest) row = similarity_row embeddings i r (j + 1) rest (
      Dict.put row other.node_id (
        if i == j
        then one_f
        else cosine_similarity fl (or_nil (Dict.get embeddings r.node_id))
            (or_nil (Dict.get embeddings other.node_id))))

  unfoldable pub similarity_table :
      Dict String (List F)
      → List Response
      → ℕ
      → List Response
      → Dict String (Dict String F)
      → Dict String (Dict String F)
  similarity_table embeddings all i [] table = table
  similarity_table embeddings all i (r ∷ rest) table =
      similarity_table embeddings all (i + 1) rest
        (Dict.put table r.node_id (similarity_row embeddings i r 0 all Dict.empty))

  -- similarities[a][b]
  unfoldable pub entry : Dict String (Dict String F) → String → String → F
  entry table a b = or_zero (Dict.get (or_no_row (Dict.get table a)) b)

  -- Sum and number of the similarities of a member with those behind it
  unfoldable pub pairs_with : (String → String → F) → Response → List Response → F × ℕ → F × ℕ
  pairs_with sim r [] acc = acc
  pairs_with sim r (other ∷ rest) (total, n) =
      pairs_with sim r rest (add total (sim r.node_id other.node_id), n + 1)

  unfoldable pub all_pairs : (String → String → F) → List Response → F × ℕ → F × ℕ
  all_pairs sim [] acc = acc
  all_pairs sim (r ∷ rest) acc = all_pairs sim rest (pairs_with sim r rest acc)

  unfoldable pub average : (String → String → F) → List Response → F
  average sim members =
      let (total, n) = all_pairs sim members (zero_f, 0) in
      if ltb 0 n then div total (of_int n) else one_f

  unfoldable pub form_cluster : (String → String → F) → Response → List Response → Cluster
  form_cluster sim r joined = record {
    responses = r ∷ joined;
    average_score = average sim (r ∷ joined);
    representative = r;
  }

  unfoldable pub form_clusters :
      (String → String → F) → F → List Response → List Response → Dict String Bool → List Cluster
  form_clusters sim threshold all [] used = []
  form_clusters sim threshold all (r ∷ rest) used =
      let (joined, used') =
        collect (λ o. ge (sim r.node_id o.node_id) threshold) all (Dict.put used r.node_id true) in
      let others =
        form_clusters sim threshold all rest (if is_used used r.node_id then used else used') in
      if is_used used r.node_id then others else form_cluster sim r joined ∷ others

  -- The order that the clusters are sorted by
  unfoldable pub before : Cluster → Cluster → Bool
  before c d =
      if not (length c.responses == length d.responses)
      then ltb (length d.responses) (length c.responses)
      else gt c.average_score d.average_score

  -- sort.Slice with the order above
  abbrev pub Sort : Type 0
  Sort = (Cluster → Cluster → Bool) → List Cluster → List Cluster

  pub data Clustered : Type 0 where
    clustered : List Cluster → Clustered
    not_clustered : ClusterError → Clustered

  unfoldable pub cluster_responses :
      (String → Option (List F)) → Sort → List Response → F → Clustered
  cluster_responses embed sort [] threshold = not_clustered no_responses
  cluster_responses embed sort (r ∷ rs) threshold =
      let all = r ∷ rs in
      elim (embed_all embed all Dict.empty) [
        | none ↦ not_clustered embedding_failed
        | some embeddings ↦ clustered (
            sort before (
              form_clusters (entry (similarity_table embeddings all 0 all Dict.empty)) threshold all
                all Dict.empty))
      ]

  unfoldable pub select_consensus_response : List Cluster → Option Response
  select_consensus_response [] = none
  select_consensus_response (c ∷ cs) = elim c.responses [
    | [] ↦ none
    | r ∷ rs ↦ some c.representative
  ]
