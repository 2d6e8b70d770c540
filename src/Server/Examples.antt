-- ===== src/Server/Examples.antt =====
-- The theorems at the server's seven nodes, and at a server with a node that has no answer.
use evm_oracle.Server.Verdict.{AllSame, drop_empty, check_results_iff}
use evm_oracle.Server.Ready.{IsReady, ids_of, setup_network-IsReady}
use evm_oracle.Network.Transport.{new_p2p}
use evm_oracle.Http.{HttpResponse}
use evm_oracle.Server.Relay.{send_to_oracle-handle_prompt, IsServed, IsReply}
use evm_oracle.Listener.Client.{ListenerTools, Client, oracle_request, send_to_oracle}
use evm_oracle.Server.Prompt.{node_at, set_node, prompt_reply}
use evm_oracle.Node.Prompts.{process_prompt, propose_request}
use evm_oracle.Node.Requests.{set_request, new_oracle_node}
use evm_oracle.Base.{
  ℕ, String, Bytes, List, Option, ◌+◌, none, ◌∷◌, false, true, All, some, ◌*◌, [], ◌≡◌, ◌/◌, ◌↔◌,
  refl, string_eq, ◌==◌, ◌≢◌, leb, ltb, nat_eq,
}
use evm_oracle.Server.Prompt.{
  agreed_texts, check_results, Server, Meanwhile, check_texts, leader_cid, handle_prompt, agreed_at,
  http_reply, prompt_outcome, submit,
}
use evm_oracle.Llm.Client.{LlmResponse}
use evm_oracle.Base.Results.{Result, ok, err}
use evm_oracle.Server.Setup.{
  Surroundings, setup_network, SetupError, create_nodes, start_nodes, register_all, register_others,
  node_ids, start_node,
}
use evm_oracle.Node.Requests.{OracleNode, NodeError, complete, get_request_state}
use evm_oracle.Consensus.Engine.{Pbft, init_consensus, new_pbft}
use evm_oracle.Consensus.Message.{Env, normal}
use evm_oracle.Node.Prompts.{Services, new_request}
use evm_oracle.Similarity.Floats.{Float32}
use evm_oracle.Base.Dict
use evm_oracle.Node.Requests

abbrev pub whole : Float32
whole = record {
  F = ℕ;
  zero_f = 0;
  one_f = 1;
  add = λ x y. x + y;
  mul = λ x y. x * y;
  div = λ x y. x / y;
  sqrt = λ x. x;
  of_int = λ n. n;
  is_zero = λ x. x == 0;
  ge = λ x y. leb y x;
  gt = λ x y. ltb y x;
}

abbrev services : Services
services = record {
  get_response = λ id prompt. none;
  encode_data = λ d. none;
  decode_data = λ bytes. none;
}

abbrev env : Env
env = record {
  sha256 = λ b. b;
  encode_message = λ m. none;
  decode_message = λ b. none;
  encode_view_change = λ d. none;
  decode_view_change = λ b. none;
  encode_checkpoint = λ s b. b;
  delivers = λ b. true;
}

abbrev engine : Pbft
engine = record {
  node_id = "node1";
  nodes = "node0" ∷ [];
  networked = true;
  checkpoint_interval = 100;
  view = 0;
  sequence = 0;
  state = normal;
  is_leader = false;
  last_checkpoint = [];
  last_checkpoint_seq = 0;
  prepare_messages = Dict.empty;
  commit_messages = Dict.empty;
  view_change_msgs = Dict.empty;
  checkpoints = Dict.empty;
  consensus_reached = Dict.empty;
  msg_chan = [];
  senders = [];
  has_callback = true;
  f = 0;
  timer = false;
}

abbrev node : OracleNode whole
node = record {
  node_id = "node1";
  address = "x";
  has_client = false;
  has_storage = false;
  has_scorer = false;
  engine = engine;
  transport = new_p2p "node1" "x" [];
  requests = Dict.empty;
  is_running = false;
  peers = Dict.empty;
}

abbrev fine : Surroundings
fine = record {
  llm_fine = true;
  storage_fine = true;
  address = λ i. "localhost";
  listens = λ id. true;
}

abbrev nodes_of : Result SetupError (List (OracleNode whole)) → List (OracleNode whole)
nodes_of (ok nodes) = nodes
nodes_of (err e) = []

listening : setup_network whole fine ≡ ok (nodes_of (setup_network whole fine))
unfolding setup_network create_nodes start_nodes register_all register_others start_node
    Requests.start Requests.register_peer new_oracle_node init_consensus new_pbft
listening = refl

setup_network-IsReady_example :
    let nodes = nodes_of (setup_network whole fine) in All IsReady nodes × (ids_of nodes ≡ node_ids)
setup_network-IsReady_example =
    setup_network-IsReady fine (nodes_of (setup_network whole fine)) listening

abbrev answered : LlmResponse
answered = record {
  text = "yes";
  tokens_used = 3;
  model = "m";
  timestamp = 5;
  request_id = "r";
  node_id = "a";
}

abbrev agreed : OracleNode whole
agreed = record node {
  requests = Dict.put Dict.empty "r" (record (new_request whole node 5 "r" "why") {
    status = complete;
    consensus_data =
        some (record { request_id = "r"; node_id = "a"; response = some answered; timestamp = 6 });
  });
}

check_results_iff_example :
    let texts = agreed_texts whole "r" (agreed ∷ node ∷ agreed ∷ []) in
    ((check_results whole "r" (agreed ∷ node ∷ agreed ∷ [])).1 ≡ true)
    ↔ ((texts ≢ []) × AllSame (drop_empty texts))
check_results_iff_example = check_results_iff whole "r" (agreed ∷ node ∷ agreed ∷ [])

reached : (check_results whole "r" (agreed ∷ node ∷ agreed ∷ [])).1 ≡ true
unfolding check_results check_texts agreed_texts agreed_at get_request_state Dict.get Dict.put
    Dict.empty
reached = refl

abbrev server : Server whole
server = record { nodes = node ∷ node ∷ []; request_counter = 0 }

abbrev name : ℕ → String
name n = "request-1"

abbrev encode : String → Bytes
encode cid = 7 ∷ []

abbrev decode_prompt : Bytes → Option String
decode_prompt body = some "Why?"

abbrev tools : ListenerTools String String
tools = record {
  read_file = λ path. none;
  decode_metadata = λ bytes. none;
  parse_abi = λ bytes. none;
  marshal_request = λ r. some (1 ∷ []);
  decode_response = λ bytes. some (record { ipfs_cid = ""; error = "" });
  unpack_prompt = λ abi bytes. some "Why?";
  event_topic = λ abi name. "0xc0";
  parse_key = λ digits. some digits;
  new_transactor = λ key chain_id. some "0xaa";
}

abbrev meanwhile : Meanwhile whole
meanwhile i nodes = nodes

abbrev settle : List (OracleNode whole) → List (OracleNode whole)
settle nodes = nodes

abbrev served_answer : Bytes → HttpResponse
served_answer body =
    http_reply encode
      (handle_prompt whole services env 5 name meanwhile settle "POST" (decode_prompt body)
        server).0

abbrev client : Client String
client = record {
  chain_id = some 1;
  pending_nonce = λ sender. some 4;
  gas_price = some 7;
  http = record {
    accepts = λ method url. true;
    send = λ request. some (served_answer request.body);
  };
  transact = λ abi auth request_id response cid. some "0xtx";
}

abbrev outcome : Option NodeError × List (OracleNode whole)
outcome = prompt_outcome whole services env 5 meanwhile settle "request-1" "Why?" server.nodes

served :
    IsServed tools whole client decode_prompt encode served_answer "0x01" "Why?"
      (leader_cid whole "request-1" outcome.1)
unfolding oracle_request leader_cid prompt_outcome submit node_at process_prompt propose_request
    set_node get_request_state Dict.get set_request Dict.put Dict.empty new_request
served = record {
  body = 1 ∷ [];
  accepts = refl;
  marshals = refl;
  decodes = refl;
  sends = refl;
  returns = refl;
}

send_to_oracle-handle_prompt_example :
    IsReply tools whole services env 5 meanwhile settle server.nodes "request-1" "Why?"
      (send_to_oracle tools client "0x01" "Why?")
send_to_oracle-handle_prompt_example =
    send_to_oracle-handle_prompt tools whole services env 5 name meanwhile settle server client
      decode_prompt encode "0x01" "Why?" "request-1" (λ i ns. refl) refl served

-- No node has agreed on anything, and the listener gets an empty CID.
empty_cid : send_to_oracle tools client "0x01" "Why?" ≡ ok ""
unfolding send_to_oracle handle_prompt oracle_request leader_cid prompt_outcome submit node_at
    process_prompt propose_request set_node get_request_state Dict.get set_request Dict.put
    Dict.empty new_request http_reply prompt_reply
empty_cid = refl
