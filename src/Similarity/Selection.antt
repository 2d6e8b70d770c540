-- ===== src/Similarity/Selection.antt =====
-- Which response SelectConsensusResponse gives out for the clusters of ClusterResponses.
use evm_oracle.Similarity.Clusters.{
  Sort, Cluster, collect, form_clusters, before, Response, form_cluster, is_used,
  select_consensus_response, cluster_responses, embed_all, entry, similarity_table, clustered,
}
use evm_oracle.Similarity.Floats.{Float32}
use evm_oracle.Base.{
  List, [], ◌∷◌, Bool, true, false, ◌≡◌, ◌≤◌, refl, length, All, String, arith, not, ◌↔◌,
  Bool-cases, ◌&&◌, inl, inr, string_eq, Option, some, subst, sym, ap,
}
use evm_oracle.Base.Dict
use evm_oracle.Base.Dict.{Dict, get-empty}

module _ (fl : Float32) where
  open fl use {F, ge}

  -- What sort.Slice guarantees: it keeps the entries, and no later entry belongs before the first.
  pub record Sorts (sort : Sort fl) : Type 1 where
    pub keeps :
        (P : Cluster fl → Type 0) (cs : List (Cluster fl)) → All P (sort (before fl) cs) ↔ All P cs
    pub first :
        (cs rest : List (Cluster fl)) (c : Cluster fl)
        → sort (before fl) cs ≡ c ∷ rest
        → All (λ d. before fl d c ≡ false) rest

  -- The members of a cluster are its representative and responses that reach the threshold with it.
  pub record IsTight (sim : String → String → F) (threshold : F) (c : Cluster fl) : Type 0 where
    pub joined : List Response
    pub members : c.responses ≡ c.representative ∷ joined
    pub near : All (λ o. ge (sim c.representative.node_id o.node_id) threshold ≡ true) joined

  collect-passes :
      (similar : Response → Bool) (xs : List Response) (used : Dict String Bool)
      → All (λ o. similar o ≡ true) (collect similar xs used).0
  unfolding collect
  collect-passes similar [] used = tt
  collect-passes similar (x ∷ xs) used =
      elim (Bool-cases (not (is_used used x.node_id) && similar x)) [
        | inl e ↦ rw e (ground arith, collect-passes similar xs (Dict.put used x.node_id true))
        | inr e ↦ rw e (collect-passes similar xs used)
      ]

  form_clusters-IsTight :
      (sim : String → String → F) (threshold : F) (all todo : List Response)
      (used : Dict String Bool)
      → All (IsTight sim threshold) (form_clusters fl sim threshold all todo used)
  unfolding form_clusters form_cluster
  form_clusters-IsTight sim threshold all [] used = tt
  form_clusters-IsTight sim threshold all (r ∷ rest) used =
      elim (Bool-cases (is_used used r.node_id)) [
        | inl e ↦ rw e (form_clusters-IsTight sim threshold all rest used)
        | inr e ↦
            let similar : Response → Bool = λ o. ge (sim r.node_id o.node_id) threshold in
            let used' = Dict.put used r.node_id true in
            rw e (
              record {
                joined = (collect similar all used').0;
                members = refl;
                near = collect-passes similar all used';
              },
              form_clusters-IsTight sim threshold all rest (collect similar all used').1,
            )
      ]

  smaller : (c d : Cluster fl) → before fl d c ≡ false → length d.responses ≤ length c.responses
  unfolding before
  smaller c d h = ground arith

  -- The response of a cluster that stands first in the list, that no other has more members than, and whose
  -- members reach the threshold with its representative
  pub record IsSelection (sim : String → String → F) (threshold : F) (cs : List (Cluster fl))
      (o : Option Response) : Type 0 where
    pub best : Cluster fl
    pub rest : List (Cluster fl)
    pub ordered : cs ≡ best ∷ rest
    pub picks : o ≡ some best.representative
    pub tight : IsTight sim threshold best
    pub largest : All (λ d. length d.responses ≤ length best.responses) rest

  smaller_all :
      (c : Cluster fl) (ds : List (Cluster fl))
      → All (λ d. before fl d c ≡ false) ds
      → All (λ d. length d.responses ≤ length c.responses) ds
  smaller_all c [] h = tt
  smaller_all c (d ∷ ds) h = (smaller c d h.0, smaller_all c ds h.1)

  picks_first :
      (sim : String → String → F) (threshold : F) (c : Cluster fl) (rest : List (Cluster fl))
      → IsTight sim threshold c
      → select_consensus_response fl (c ∷ rest) ≡ some c.representative
  unfolding select_consensus_response
  picks_first sim threshold c rest t = rw t.members refl

  -- A list that is sorted out of clusters, of which there is one, and that are tight
  select-IsSelection :
      (sort : Sort fl) (sim : String → String → F) (threshold : F) (f : Cluster fl)
      (fs sorted : List (Cluster fl))
      → Sorts sort
      → All (IsTight sim threshold) (f ∷ fs)
      → sort (before fl) (f ∷ fs) ≡ sorted
      → IsSelection sim threshold sorted (select_consensus_response fl sorted)
  select-IsSelection sort sim threshold f fs [] s tight e =
      absurd (((s.keeps (λ c. ⊥) (f ∷ fs)).0 (subst (All (λ c. ⊥)) (sym e) tt)).0)
  select-IsSelection sort sim threshold f fs (c ∷ rest) s tight e =
      let tight' : IsTight sim threshold c =
        (subst (All (IsTight sim threshold)) e
          ((s.keeps (IsTight sim threshold) (f ∷ fs)).1 tight)).0 in
      record {
        best = c;
        rest = rest;
        ordered = refl;
        picks = picks_first sim threshold c rest tight';
        tight = tight';
        largest = smaller_all c rest (s.first (f ∷ fs) rest c e);
      }

  -- The first response makes a cluster.
  some_cluster :
      (sim : String → String → F) (threshold : F) (all : List Response) (r : Response)
      (rs : List Response)
      → (f : Cluster fl) × (fs : List (Cluster fl)) × (form_clusters fl sim threshold all
            (r ∷ rs)
            Dict.empty
          ≡ f ∷ fs)
  unfolding form_clusters is_used
  some_cluster sim threshold all r rs =
      rw (get-empty {V = Bool} r.node_id, form_clusters) (_, _, refl)

  -- Where the service gives out all embeddings and sort.Slice sorts, ClusterResponses makes clusters of a list of
  -- responses that is not empty, and SelectConsensusResponse gives out a response: that of a cluster with the most
  -- members, all of whose members reach the threshold with it in the table of similarities.
  pub cluster_responses-IsSelection :
      (embed : String → Option (List F)) (sort : Sort fl) (r : Response) (rs : List Response)
      (threshold : F) (embeddings : Dict String (List F))
      → Sorts sort
      → embed_all fl embed (r ∷ rs) Dict.empty ≡ some embeddings
      → let sim = entry fl (similarity_table fl embeddings (r ∷ rs) 0 (r ∷ rs) Dict.empty) in
        (cs : List (Cluster fl)) × (cluster_responses fl embed sort (r ∷ rs) threshold
          ≡ clustered cs)
        × IsSelection sim threshold cs (select_consensus_response fl cs)
  unfolding cluster_responses
  cluster_responses-IsSelection embed sort r rs threshold embeddings s e =
      let all = r ∷ rs in
      let sim = entry fl (similarity_table fl embeddings all 0 all Dict.empty) in
      let cs = sort (before fl) (form_clusters fl sim threshold all all Dict.empty) in
      let (f, fs, formed) = some_cluster sim threshold all r rs in
      let tight : All (IsTight sim threshold) (f ∷ fs) =
        subst (All (IsTight sim threshold)) formed
          (form_clusters-IsTight sim threshold all all Dict.empty) in
      (
        cs,
        rw (e, cluster_responses) refl,
        select-IsSelection sort sim threshold f fs cs s tight (sym (ap (sort (before fl)) formed)),
      )
