-- ===== src/Runner/Handler.antt =====
-- scripts/run_node.go: the handler of /request, and what happens to the node while it waits.
use evm_oracle.Node.Incoming.{handle_incoming}
use evm_oracle.Consensus.Message.{Env}
use evm_oracle.Consensus.Run.{Event, step}
use evm_oracle.Node.Prompts.{Services, process_prompt, Prompted}
use evm_oracle.Similarity.Floats.{Float32}
use evm_oracle.Node.Requests.{
  Status, pending, in_consensus, complete, request_failed, pending, in_consensus, complete,
  request_failed, NodeError, OracleNode, ConsensusData, RequestState, get_request_state,
}
use evm_oracle.Base.{
  ◌∷◌, ℕ, String, Bytes, Option, List, none, if◌then◌else◌, some, not, ◌==◌, [], string_eq, Bool,
  false, true,
}

-- What a node of the script does after its set-up: a prompt, a payload that the transport delivers, and a
-- step of the engine, whose results go to a callback that only logs.
pub data NodeEvent : Type 0 where
  prompted : ℕ → String → String → NodeEvent
  received : ℕ → Bytes → NodeEvent
  stepped : Event → NodeEvent

-- A round of the handler's select, or something that the node does between two rounds
pub data Round : Type 0 where
  ticked timed_out cancelled : Round
  moved : NodeEvent → Round

-- types.OracleRequest
pub record OracleRequest : Type 0 where
  pub request_id : String
  pub prompt : String

pub data Reply : Type 0 where
  method_not_allowed bad_request request_timed_out request_cancelled nil_pointer : Reply
  internal_error : NodeError → Reply
  response : String → Reply
  error_response : Option NodeError → Reply

module _ (fl : Float32) (w : Services) (env : Env) where
  unfoldable pub node_step : NodeEvent → OracleNode fl → OracleNode fl
  node_step (prompted now id prompt) n = (process_prompt fl w env now id prompt n).1
  node_step (received now payload) n = handle_incoming fl w env now payload n
  node_step (stepped e) n = record n { engine = (step env n.engine e).0 }

  -- The text of the agreed response, through two pointers
  unfoldable pub complete_reply : Option ConsensusData → Reply
  complete_reply none = nil_pointer
  complete_reply (some d) = elim d.response [ none ↦ nil_pointer | some r ↦ response r.text ]

  -- `none`: the loop goes on.
  unfoldable pub status_reply : Status → RequestState fl → Option Reply
  unfolding complete_reply
  status_reply pending s = none
  status_reply in_consensus s = none
  status_reply complete s = some (complete_reply s.consensus_data)
  status_reply request_failed s = some (error_response s.error)

  unfoldable pub state_reply : Option (RequestState fl) → Option Reply
  state_reply none = none
  state_reply (some s) = status_reply s.status s

  -- "Wait for consensus": the reply, `none` while there is none, and the node
  unfoldable pub wait : String → List Round → OracleNode fl → Option Reply × OracleNode fl
  unfolding node_step
  wait id [] n = (none, n)
  wait id (ticked ∷ rounds) n = elim (state_reply (get_request_state fl id n).1) [
    | none ↦ wait id rounds n
    | some reply ↦ (some reply, n)
  ]
  wait id (timed_out ∷ rounds) n = (some request_timed_out, n)
  wait id (cancelled ∷ rounds) n = (some request_cancelled, n)
  wait id (moved e ∷ rounds) n = wait id rounds (node_step e n)

  unfoldable pub after_prompt : String → List Round → Prompted fl → Option Reply × OracleNode fl
  after_prompt id rounds (some e, n, outs) = (some (internal_error e), n)
  after_prompt id rounds (none, n, outs) = wait id rounds n

  -- After the test of the method, with what decoding the body gives
  unfoldable pub handle_body :
      ℕ → Option OracleRequest → List Round → OracleNode fl → Option Reply × OracleNode fl
  unfolding after_prompt
  handle_body now none rounds n = (some bad_request, n)
  handle_body now (some r) rounds n =
      after_prompt r.request_id rounds (process_prompt fl w env now r.request_id r.prompt n)

  unfoldable pub handle_request :
      ℕ → String → Option OracleRequest → List Round → OracleNode fl → Option Reply × OracleNode fl
  unfolding handle_body
  handle_request now method body rounds n =
      if not (method == "POST") then (some method_not_allowed, n) else handle_body now body rounds n

  -- A node after some events
  unfoldable pub live : List NodeEvent → OracleNode fl → OracleNode fl
  live [] n = n
  live (e ∷ es) n = live es (node_step e n)

-- The wait is ended by the timeout or by the client.
unfoldable pub ends : List Round → Bool
ends [] = false
ends (ticked ∷ rounds) = ends rounds
ends (timed_out ∷ rounds) = true
ends (cancelled ∷ rounds) = true
ends (moved e ∷ rounds) = ends rounds
