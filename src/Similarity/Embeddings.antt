-- ===== src/Similarity/Embeddings.antt =====
-- NewSemanticScorer and GetEmbedding of oracle/pkg/similarity/semantic.go. The API of go-openai is a parameter:
-- the embeddings of a text, by the name of a model.
use evm_oracle.Base.{String, List, Option, some, none, [], ◌∷◌, ◌==◌, if◌then◌else◌, string_eq}
use evm_oracle.Base.Results.{Result, ok, err}

pub data EmbeddingError : Type 0 where
  embedding_call_failed no_embedding_data : EmbeddingError

-- The client's API key and the model
pub record Scorer : Type 0 where
  pub api_key : String
  pub model : String

-- The name of openai.AdaEmbeddingV2 is the first argument.
unfoldable pub new_semantic_scorer : String → String → String → Scorer
new_semantic_scorer default_model api_key model = record {
  api_key = api_key;
  model = if model == "" then default_model else model;
}

module _ (F : Type 0) where
  abbrev pub first_embedding : Option (List (List F)) → Result EmbeddingError (List F)
  first_embedding none = err embedding_call_failed
  first_embedding (some []) = err no_embedding_data
  first_embedding (some (e ∷ rest)) = ok e

  unfoldable pub get_embedding :
      (String → String → Option (List (List F))) → Scorer → String → Result EmbeddingError (List F)
  get_embedding create s text = first_embedding (create s.model text)

  -- The embedding, or `none` for an error, as the callers take it
  unfoldable pub embed_with :
      (String → String → Option (List (List F))) → Scorer → String → Option (List F)
  unfolding get_embedding
  embed_with create s text = elim (get_embedding create s text) [ ok e ↦ some e | err e ↦ none ]
