-- ===== src/Server/Matrix.antt =====
-- oracle/cmd/server/main.go, handlePrompt: the similarity matrix of the responses. What is printed of it is left
-- out. The service of the embeddings is a parameter. Loops over a map go through its keys.
use evm_oracle.Server.Prompt.{agreed_text}
use evm_oracle.Llm.Client.{LlmResponse}
use mathlib.Core.Option.{map as option_map}
use evm_oracle.Node.Requests.{OracleNode, get_request_state}
use evm_oracle.Base.Dict
use evm_oracle.Base.Dict.{Dict, keys}
use evm_oracle.Similarity.Floats.{Float32, cosine_similarity}
use evm_oracle.Base.{
  String, List, Option, some, none, [], ◌∷◌, ◌==◌, ◌||◌, if◌then◌else◌, string_eq,
}

-- A write where there is a value
abbrev pub put_some {ℓ} : {V : Type ℓ} → String → Option V → Dict String V → Dict String V
put_some id none m = m
put_some id (some v) m = Dict.put m id v

-- A loop that writes the value of each key, as far as it has one
unfoldable pub put_each {ℓ} :
    {V : Type ℓ} → (String → Option V) → List String → Dict String V → Dict String V
put_each value [] m = m
put_each value (id ∷ ids) m = put_each value ids (put_some id (value id) m)

module _ (fl : Float32) (embed : String → Option (List fl.F)) where
  open fl use {F, one_f}

  -- "Check results from each node", as far as it collects responses: a divergent response ends the loop.
  unfoldable pub gather :
      String → List (OracleNode fl) → String → Dict String String → Dict String String
  gather id [] final all = all
  gather id (n ∷ nodes) final all = elim (get_request_state fl id n).1 [
    | none ↦ gather id nodes final all
    | some s ↦
        let all' =
          put_some n.node_id (option_map (λ (r : LlmResponse). r.text) s.llm_response) all in
        elim (agreed_text fl s.status s.consensus_data) [
          | none ↦ gather id nodes final all'
          | some text ↦
              let rest = gather id nodes (if final == "" then text else final) all' in
              if final == "" || text == final then rest else all'
        ]
  ]

  abbrev pub embedding_of : Dict String String → String → Option (List F)
  embedding_of responses id = elim (Dict.get responses id) [ none ↦ none | some text ↦ embed text ]

  -- "Get embeddings for all responses"; a failure is passed over.
  unfoldable pub embed_responses : Dict String String → Dict String (List F)
  embed_responses responses = put_each (embedding_of responses) (keys responses) Dict.empty

  abbrev pub compare_both : Option (List F) → Option (List F) → Option F
  compare_both (some x) (some y) = some (cosine_similarity fl x y)
  compare_both _ _ = none

  -- One round of the inner loop: `none` prints "error" and stores nothing.
  unfoldable pub matrix_cell : Dict String (List F) → String → String → Option F
  matrix_cell embeddings a b =
      if a == b then some one_f else compare_both (Dict.get embeddings a) (Dict.get embeddings b)

  unfoldable pub matrix_row : Dict String (List F) → List String → String → Dict String F
  matrix_row embeddings ids a = put_each (matrix_cell embeddings a) ids Dict.empty

  unfoldable pub similarity_matrix : Dict String String → Dict String (Dict String F)
  similarity_matrix responses =
      let ids = keys responses in
      put_each (λ a. some (matrix_row (embed_responses responses) ids a)) ids Dict.empty

  abbrev pub in_row : Option (Dict String F) → String → Option F
  in_row none b = none
  in_row (some row) b = Dict.get row b

  -- similarityMatrix[a][b]
  abbrev pub lookup : Dict String (Dict String F) → String → String → Option F
  lookup m a b = in_row (Dict.get m a) b
