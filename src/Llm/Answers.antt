-- ===== src/Llm/Answers.antt =====
-- Which answers of the language model are valid.
use evm_oracle.Base.Results.{ok}
use evm_oracle.Base.{
  Option, ℕ, ◌≢◌, ◌≡◌, ◌↔◌, List, String, some, ◌∷◌, arith, eq_iff, [], none, refl,
}
use evm_oracle.Llm.Client.{
  get_response, validate_response, OpenAiClient, ChatRequest, ChatResponse, LlmRequest, LlmResponse,
  answered, chat_request, answer_of, answer_chat,
}

validate_response_iff :
    (a : LlmResponse)
    → a.request_id ≢ ""
    → a.node_id ≢ ""
    → (validate_response a ≡ ok tt) ↔ ((a.text ≢ "") × (a.tokens_used ≢ 0))
unfolding validate_response
validate_response_iff a hr hn = (
  (λ e. ground (arith, eq_iff a.text "", eq_iff a.request_id "", eq_iff a.node_id "")),
  (λ h. ground (arith, eq_iff a.text "", eq_iff a.request_id "", eq_iff a.node_id "")),
)

module _ {F : Type 0} where
  -- What an answer was made of
  record IsFrom (r : LlmRequest F) (chat : ChatResponse) (choices : List String) (a : LlmResponse)
      : Type 0 where
    pub rest : List String
    pub chosen : choices ≡ a.text ∷ rest
    pub request_id : a.request_id ≡ r.request_id
    pub node_id : a.node_id ≡ r.node_id

  answer_of-IsFrom :
      (now : ℕ) (r : LlmRequest F) (chat : ChatResponse) (choices : List String) (a : LlmResponse)
      → answer_of F now r chat choices ≡ answered a
      → IsFrom r chat choices a
  unfolding answer_of
  answer_of-IsFrom now r chat [] a h = cc
  answer_of-IsFrom now r chat (text ∷ rest) a h = record {
    rest = rest;
    chosen = ground arith;
    request_id = ground arith;
    node_id = ground arith;
  }

  answer_chat-IsFrom :
      (now : ℕ) (r : LlmRequest F) (o : Option ChatResponse) (a : LlmResponse)
      → answer_chat F now r o ≡ answered a
      → (chat : ChatResponse) × (o ≡ some chat) × IsFrom r chat chat.choices a
  unfolding answer_chat
  answer_chat-IsFrom now r none a h = cc
  answer_chat-IsFrom now r (some chat) a h =
      (chat, refl, answer_of-IsFrom now r chat chat.choices a h)

  -- An answer of GetResponse to a request that names its ID and its node passes ValidateResponse exactly
  -- if its text is not empty and tokens were used; the text is the first choice of the API.
  validate_response-get_response :
      (api : OpenAiClient F → ChatRequest F → Option ChatResponse) (now : ℕ) (c : OpenAiClient F)
      (r : LlmRequest F) (a : LlmResponse)
      → r.request_id ≢ ""
      → r.node_id ≢ ""
      → get_response F api now c r ≡ answered a
      → ((validate_response a ≡ ok tt) ↔ ((a.text ≢ "") × (a.tokens_used ≢ 0)))
        × ((chat : ChatResponse) × (rest : List String) × (api c (chat_request F c r) ≡ some chat)
            × (chat.choices ≡ a.text ∷ rest))
  unfolding get_response
  validate_response-get_response api now c r a hr hn h =
      let (chat, sent, from) = answer_chat-IsFrom now r (api c (chat_request F c r)) a h in
      (
        validate_response_iff a (rw from.request_id hr) (rw from.node_id hn),
        (chat, from.rest, sent, from.chosen),
      )
