-- ===== src/Similarity/SelectionExamples.antt =====
-- The theorem on the selection at three responses, sorted by a function that moves a first cluster to the front.
use evm_oracle.Similarity.Examples.{numbers, three}
use evm_oracle.Base.Dict.{Dict}
use evm_oracle.Similarity.Selection.{Sorts, IsSelection, cluster_responses-IsSelection}
use evm_oracle.Similarity.Clusters.{
  Cluster, Sort, before, embed_all, entry, similarity_table, cluster_responses, clustered,
  select_consensus_response,
}
use evm_oracle.Base.{
  List, [], ◌∷◌, some, Bool, true, false, ◌≡◌, refl, All, String, arith, ℕ, if◌then◌else◌, ◌↔◌,
  Option, ◌==◌, string_eq, Bool-cases, inl, subst, inr,
}
use evm_oracle.Base.Dict

abbrev C : Type 0
C = Cluster numbers

abbrev place : (C → C → Bool) → C → List C → List C
place less c [] = c ∷ []
place less c (d ∷ ds) = if less d c then d ∷ c ∷ ds else c ∷ d ∷ ds

abbrev front : Sort numbers
front less [] = []
front less (c ∷ cs) = place less c (front less cs)

abbrev less : C → C → Bool
less = before numbers

place-keeps : (P : C → Type 0) (c : C) (ds : List C) → All P (place less c ds) ↔ (P c × All P ds)
place-keeps P c [] = ((λ h. h), (λ h. h))
place-keeps P c (d ∷ ds) = elim (Bool-cases (less d c)) [
  | inl e ↦ rw e ((λ h. (h.1.0, (h.0, h.1.1))), (λ h. (h.1.0, (h.0, h.1.1))))
  | inr e ↦ rw e ((λ h. h), (λ h. h))
]

front-keeps : (P : C → Type 0) (cs : List C) → All P (front less cs) ↔ All P cs
front-keeps P [] = ((λ h. h), (λ h. h))
front-keeps P (c ∷ cs) =
    let placed = place-keeps P c (front less cs) in
    let ih = front-keeps P cs in
    ((λ h. ((placed.0 h).0, ih.0 ((placed.0 h).1))), (λ h. placed.1 (h.0, ih.1 h.1)))

not_less : (c d e : C) → less d c ≡ false → less e d ≡ false → less e c ≡ false
unfolding before
not_less c d e h k = ground arith

not_back : (c d : C) → less d c ≡ true → less c d ≡ false
unfolding before
not_back c d h = ground arith

not_less_all :
    (c d : C) (ds : List C)
    → less d c ≡ false
    → All (λ e. less e d ≡ false) ds
    → All (λ e. less e c ≡ false) ds
not_less_all c d [] h k = tt
not_less_all c d (e ∷ ds) h k = (not_less c d e h k.0, not_less_all c d ds h k.1)

-- The first of a list has no later one before it.
abbrev IsLed : List C → Type 0
IsLed [] = Unit
IsLed (c ∷ cs) = All (λ d. less d c ≡ false) cs

place-IsLed : (c : C) (ds : List C) → IsLed ds → IsLed (place less c ds)
place-IsLed c [] h = tt
place-IsLed c (d ∷ ds) h = elim (Bool-cases (less d c)) [
  | inl e ↦ rw e (not_back c d e, h)
  | inr e ↦ rw e (e, not_less_all c d ds e h)
]

front-IsLed : (cs : List C) → IsLed (front less cs)
front-IsLed [] = tt
front-IsLed (c ∷ cs) = place-IsLed c (front less cs) (front-IsLed cs)

front-Sorts : Sorts numbers front
front-Sorts = record { keeps = front-keeps; first = λ cs rest c e. subst IsLed e (front-IsLed cs) }

abbrev embed_text : String → Option (List ℕ)
embed_text text = some ((if text == "yes" then 2 else 1) ∷ 1 ∷ [])

abbrev embeddings : Dict String (List ℕ)
embeddings =
    Dict.put (Dict.put (Dict.put Dict.empty "a" (2 ∷ 1 ∷ [])) "b" (1 ∷ 1 ∷ [])) "c" (2 ∷ 1 ∷ [])

embedded_three : embed_all numbers embed_text three Dict.empty ≡ some embeddings
unfolding embed_all
embedded_three = refl

cluster_responses-IsSelection_example :
    let sim = entry numbers (similarity_table numbers embeddings three 0 three Dict.empty) in
    (cs : List C) × (cluster_responses numbers embed_text front three 1 ≡ clustered cs)
    × IsSelection numbers sim 1 cs (select_consensus_response numbers cs)
cluster_responses-IsSelection_example =
    cluster_responses-IsSelection numbers embed_text front (record { text = "yes"; node_id = "a" })
      (record { text = "no"; node_id = "b" } ∷ record { text = "yes"; node_id = "c" } ∷ []) 1
      embeddings front-Sorts embedded_three
