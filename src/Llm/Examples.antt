-- ===== src/Llm/Examples.antt =====
-- GetResponse at an answer of one choice
use evm_oracle.Base.{ℕ, ◌∷◌, ◌≡◌, [], Option, some, refl}
use evm_oracle.Llm.Client.{
  OpenAiClient, LlmRequest, ChatResponse, LlmResponse, get_response, answer_chat, ChatRequest,
  answer_of, answered,
}

abbrev client : OpenAiClient ℕ
client = record {
  api_key = "key";
  cfg = record {
    model = "gpt";
    max_tokens = 9;
    default_temperature = 0;
    max_retries = 3;
    retry_interval_ms = 1;
  };
}

abbrev question : LlmRequest ℕ
question = record { prompt = "Why?"; temperature = 0; request_id = "r"; node_id = "a" }

abbrev chat : ChatResponse
chat = record { choices = "So." ∷ []; total_tokens = 4; model = "gpt" }

abbrev api : OpenAiClient ℕ → ChatRequest ℕ → Option ChatResponse
api c r = some chat

abbrev answer : LlmResponse
answer = record {
  text = "So.";
  tokens_used = 4;
  model = "gpt";
  timestamp = 6;
  request_id = "r";
  node_id = "a";
}

answers : get_response ℕ api 6 client question ≡ answered answer
unfolding get_response answer_chat answer_of
answers = refl
