-- ===== src/Server/Prompt.antt =====
-- oracle/cmd/server/main.go, handlePrompt: the prompt goes to every node, and the results are compared.
use Prim.Native.Nat.{zero}
use evm_oracle.Llm.Client.{LlmResponse}
use evm_oracle.Http.{HttpResponse, status_ok}
use evm_oracle.Consensus.Message.{Env}
use evm_oracle.Node.Prompts.{Services, process_prompt}
use evm_oracle.Similarity.Floats.{Float32}
use mathlib.Core.Option.{map as option_map}
use evm_oracle.Node.Requests.{
  Status, pending, in_consensus, complete, request_failed, NodeError, OracleNode, ConsensusData,
  RequestState, get_request_state,
}
use evm_oracle.Base.{
  ◌∷◌, some, none, List, String, Bool, ℕ, Option, Bytes, if◌then◌else◌, false, suc, ◌==◌, not, [],
  true, ◌+◌, ◌||◌, length, string_eq,
}

pub data PromptReply : Type 0 where
  method_not_allowed bad_request : PromptReply
  internal_error : NodeError → PromptReply
  ipfs_reply : String → PromptReply

-- "Check consensus": the loop over the texts, on finalResponse and consensusReached
unfoldable pub check_texts : List String → String × Bool → String × Bool
check_texts [] s = s
check_texts (text ∷ rest) (final, reached) =
    let next = check_texts rest (if final == "" then (text, true) else (final, reached)) in
    if final == "" || text == final then next else (final, false)

module _ (fl : Float32) where
  -- The nodes of the server, and the counter of requests
  pub record Server : Type 0 where
    pub nodes : List (OracleNode fl)
    pub request_counter : ℕ

  -- What the nodes do while the handler sleeps after a prompt, by the number of the node
  abbrev pub Meanwhile : Type 0
  Meanwhile = ℕ → List (OracleNode fl) → List (OracleNode fl)

  unfoldable pub node_at : ℕ → List (OracleNode fl) → Option (OracleNode fl)
  node_at i [] = none
  node_at zero (n ∷ nodes) = some n
  node_at (suc i) (n ∷ nodes) = node_at i nodes

  unfoldable pub set_node : ℕ → OracleNode fl → List (OracleNode fl) → List (OracleNode fl)
  set_node i m [] = []
  set_node zero m (n ∷ nodes) = m ∷ nodes
  set_node (suc i) m (n ∷ nodes) = n ∷ set_node i m nodes

  -- The loop that submits the prompt, by the nodes left: the error that ends it, and the nodes
  unfoldable pub submit :
      Services
      → Env
      → ℕ
      → String
      → String
      → Meanwhile
      → ℕ
      → ℕ
      → List (OracleNode fl)
      → Option NodeError × List (OracleNode fl)
  submit w env now id prompt meanwhile i zero nodes = (none, nodes)
  submit w env now id prompt meanwhile i (suc left) nodes = elim (node_at i nodes) [
    | none ↦ (none, nodes)
    | some n ↦
        let (failure, n', outs) = process_prompt fl w env now id prompt n in
        let nodes' = set_node i n' nodes in
        let rest = submit w env now id prompt meanwhile (i + 1) left (meanwhile i nodes') in
        elim failure [ some e ↦ (some e, nodes') | none ↦ rest ]
  ]

  -- The text of a request that is complete with a response
  unfoldable pub agreed_text : Status → Option ConsensusData → Option String
  agreed_text pending d = none
  agreed_text in_consensus d = none
  agreed_text request_failed d = none
  agreed_text complete none = none
  agreed_text complete (some d) = option_map (λ (r : LlmResponse). r.text) d.response

  unfoldable pub agreed_at : Option (RequestState fl) → Option String
  unfolding agreed_text
  agreed_at none = none
  agreed_at (some s) = agreed_text s.status s.consensus_data

  unfoldable pub agreed_texts : String → List (OracleNode fl) → List String
  unfolding agreed_at
  agreed_texts id [] = []
  agreed_texts id (n ∷ nodes) =
      let rest = agreed_texts id nodes in
      elim (agreed_at (get_request_state fl id n).1) [ none ↦ rest | some text ↦ text ∷ rest ]

  unfoldable pub check_results : String → List (OracleNode fl) → String × Bool
  unfolding check_texts
  check_results id nodes = check_texts (agreed_texts id nodes) ("", false)

  -- "Get IPFS CID from the leader node"
  unfoldable pub leader_cid : String → List (OracleNode fl) → String
  leader_cid id [] = ""
  leader_cid id (n ∷ nodes) = elim (get_request_state fl id n).1 [ none ↦ "" | some s ↦ s.ipfs_cid ]

  -- The waits for the consensus and for the messages
  unfoldable pub settled :
      (List (OracleNode fl) → List (OracleNode fl))
      → Option NodeError × List (OracleNode fl)
      → Option NodeError × List (OracleNode fl)
  settled settle (some e, nodes) = (some e, nodes)
  settled settle (none, nodes) = (none, settle nodes)

  -- The last part
  unfoldable pub prompt_reply : String → Option NodeError × List (OracleNode fl) → PromptReply
  unfolding leader_cid
  prompt_reply id (some e, nodes) = internal_error e
  prompt_reply id (none, nodes) = ipfs_reply (leader_cid id nodes)

  -- Everything between the request and the reply; the last function is what the nodes do while the handler
  -- waits for the consensus.
  unfoldable pub prompt_outcome :
      Services
      → Env
      → ℕ
      → Meanwhile
      → (List (OracleNode fl) → List (OracleNode fl))
      → String
      → String
      → List (OracleNode fl)
      → Option NodeError × List (OracleNode fl)
  unfolding submit settled
  prompt_outcome w env now meanwhile settle id prompt nodes =
      settled settle (submit w env now id prompt meanwhile 0 (length nodes) nodes)

  -- The name of a request is fmt.Sprintf of its number.
  unfoldable pub handle_prompt :
      Services
      → Env
      → ℕ
      → (ℕ → String)
      → Meanwhile
      → (List (OracleNode fl) → List (OracleNode fl))
      → String
      → Option String
      → Server
      → PromptReply × Server
  unfolding prompt_outcome prompt_reply
  handle_prompt w env now request_name meanwhile settle method body s =
      if not (method == "POST") then (method_not_allowed, s) else elim body [
        | none ↦ (bad_request, s)
        | some prompt ↦
            let id = request_name (s.request_counter + 1) in
            let outcome = prompt_outcome w env now meanwhile settle id prompt s.nodes in
            (
              prompt_reply id outcome,
              record s { nodes = outcome.1; request_counter = s.request_counter + 1 },
            )
      ]

-- What goes over HTTP; the encoder of the answer with a CID is encoding/json.
unfoldable pub http_reply : (String → Bytes) → PromptReply → HttpResponse
http_reply encode method_not_allowed = record { status = 405; body = [] }
http_reply encode bad_request = record { status = 400; body = [] }
http_reply encode (internal_error e) = record { status = 500; body = [] }
http_reply encode (ipfs_reply cid) = record { status = status_ok; body = encode cid }
