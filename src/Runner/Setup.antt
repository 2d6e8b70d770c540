-- ===== src/Runner/Setup.antt =====
-- scripts/run_node.go: the peers of a node, and what its callbacks do with messages and results. The
-- addresses and the logger are left out.
use Prim.Native.Nat.{zero}
use evm_oracle.Llm.Client.{LlmResponse}
use evm_oracle.Consensus.Engine.{Pbft, init_consensus}
use evm_oracle.Node.Requests.{ConsensusData}
use evm_oracle.Node.Prompts.{Services}
use evm_oracle.Consensus.Message.{
  MessageType, ConsensusMessage, ConsensusResult, unknown, pre_prepare, prepare, commit,
  view_change, new_view, state_transfer,
}
use evm_oracle.Base.{
  ℕ, List, String, Bool, [], Option, ◌*◌, ◌∷◌, leb, length, suc, ◌+◌, ◌/◌, some, if◌then◌else◌,
  none, ◌==◌, string_eq, nat_eq,
}

-- fmt.Sprintf of "node%d" and of "127.0.0.1:%d"
pub record Formats : Type 0 where
  pub node_name : ℕ → String
  pub address : ℕ → String

unfoldable pub id_ok : ℕ → Bool
id_ok node_id = leb node_id 3

-- The loop over the four nodes, from a number on, that makes the list of peers and their addresses
unfoldable pub peers_from : Formats → ℕ → ℕ → ℕ → ℕ → List (String × String)
peers_from fmt node_id base_port i zero = []
peers_from fmt node_id base_port i (suc left) =
    let rest = peers_from fmt node_id base_port (i + 1) left in
    if i == node_id then rest else (fmt.node_name i, fmt.address (base_port + i)) ∷ rest

unfoldable pub peers_of : Formats → ℕ → ℕ → List (String × String)
peers_of fmt node_id base_port = peers_from fmt node_id base_port 0 4

abbrev names_of : List (String × String) → List String
names_of [] = []
names_of ((id, address) ∷ rest) = id ∷ names_of rest

-- "Initialize consensus and register peers"
unfoldable pub runner_engine : Formats → ℕ → ℕ → Option Pbft
runner_engine fmt node_id base_port =
    init_consensus (fmt.node_name node_id) (names_of (peers_of fmt node_id base_port))

-- `2*len(peers)/3 + 1`, the threshold that the progress is logged with
unfoldable pub logged_threshold : Formats → ℕ → ℕ → ℕ
logged_threshold fmt node_id base_port = 2 * length (peers_of fmt node_id base_port) / 3 + 1

unfoldable pub type_name : MessageType → String
type_name pre_prepare = "PrePrepare"
type_name prepare = "Prepare"
type_name commit = "Commit"
type_name view_change = "ViewChange"
type_name new_view = "NewView"
type_name state_transfer = "Unknown"
type_name (unknown n) = "Unknown"

-- The request ID of a message's payload if that is consensus data, else ""
unfoldable pub request_id_of : Services → ConsensusMessage → String
request_id_of w m = elim (w.decode_data m.payload) [ none ↦ "" | some d ↦ d.request_id ]

-- What the script's result callback does: it reads the text of the response, a nil pointer for `none`.
pub data Logged : Type 0 where
  logged : String → String → Logged
  undecoded nil_response : Logged

abbrev log_data : ConsensusData → Option LlmResponse → Logged
log_data d none = nil_response
log_data d (some r) = logged d.request_id r.text

unfoldable pub log_result : Services → ConsensusResult → Logged
log_result w result = elim (w.decode_data result.payload) [
  | none ↦ undecoded
  | some d ↦ log_data d d.response
]
