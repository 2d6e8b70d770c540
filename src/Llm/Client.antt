-- ===== src/Llm/Client.antt =====
-- agent/llm/openai_client.go. The API of go-openai is a parameter, and so is float32; the extra parameters
-- of requests and responses are left out.
use evm_oracle.Base.Results.{Result, err, ok}
use evm_oracle.Base.{String, List, ℕ, Option, ◌∷◌, some, [], none, ◌==◌, string_eq, nat_eq}
use evm_oracle.Base.Results.{Result, ok, err, ◌>>◌, refuse_if}

pub record LlmResponse : Type 0 where
  pub text : String
  pub tokens_used : ℕ
  pub model : String
  pub timestamp : ℕ
  pub request_id : String
  pub node_id : String

-- What CreateChatCompletion answers
pub record ChatResponse : Type 0 where
  pub choices : List String
  pub total_tokens : ℕ
  pub model : String

pub data LlmError : Type 0 where
  nil_config api_failed empty_text no_tokens missing_request_id missing_node_id : LlmError

-- A return of GetResponse, or the panic of the index into an empty list
pub data Answer : Type 0 where
  answered : LlmResponse → Answer
  failed : LlmError → Answer
  out_of_range : Answer

unfoldable pub validate_response : LlmResponse → Result LlmError (Unit {0})
validate_response r = do
  refuse_if (r.text == "") empty_text
  refuse_if (r.tokens_used == 0) no_tokens
  refuse_if (r.request_id == "") missing_request_id
  refuse_if (r.node_id == "") missing_node_id
  ok tt

module _ (F : Type 0) where
  pub record LlmRequest : Type 0 where
    pub prompt : String
    pub temperature : F
    pub request_id : String
    pub node_id : String

  -- Config of the client, and the client itself
  pub record LlmConfig : Type 0 where
    pub model : String
    pub max_tokens : ℕ
    pub default_temperature : F
    pub max_retries : ℕ
    pub retry_interval_ms : ℕ

  pub record OpenAiClient : Type 0 where
    pub api_key : String
    pub cfg : LlmConfig

  -- A chat request with one message of the user
  pub record ChatRequest : Type 0 where
    pub model : String
    pub max_tokens : ℕ
    pub temperature : F
    pub content : String

  unfoldable pub new_openai_client : String → Option LlmConfig → Result LlmError OpenAiClient
  new_openai_client api_key none = err nil_config
  new_openai_client api_key (some cfg) = ok (record { api_key = api_key; cfg = cfg })

  unfoldable pub chat_request : OpenAiClient → LlmRequest → ChatRequest
  chat_request c r = record {
    model = c.cfg.model;
    max_tokens = c.cfg.max_tokens;
    temperature = r.temperature;
    content = r.prompt;
  }

  unfoldable pub answer_of : ℕ → LlmRequest → ChatResponse → List String → Answer
  answer_of now r chat [] = out_of_range
  answer_of now r chat (text ∷ rest) = answered (record {
    text = text;
    tokens_used = chat.total_tokens;
    model = chat.model;
    timestamp = now;
    request_id = r.request_id;
    node_id = r.node_id;
  })

  unfoldable pub answer_chat : ℕ → LlmRequest → Option ChatResponse → Answer
  unfolding answer_of
  answer_chat now r none = failed api_failed
  answer_chat now r (some chat) = answer_of now r chat chat.choices

  unfoldable pub get_response :
      (OpenAiClient → ChatRequest → Option ChatResponse) → ℕ → OpenAiClient → LlmRequest → Answer
  unfolding chat_request answer_chat
  get_response api now c r = answer_chat now r (api c (chat_request c r))
