-- ===== src/Node/Examples.antt =====
-- The theorems on nodes at a node of four.
-- Numbers in place of float32
use evm_oracle.Mocks.{mock_storage}
use evm_oracle.Node.Stored.{with_client, IsStored, handle_consensus_result-IsStored}
use evm_oracle.Llm.Client.{LlmResponse}
use evm_oracle.Node.Agreed.{IsAgreed, handle_consensus_result-IsAgreed}
use evm_oracle.Consensus.ViewChange.{new_view_message}
use evm_oracle.Network.Transport.{new_p2p}
use evm_oracle.Base.Dict
use evm_oracle.Node.Tracking.{IsTracked, Outcome, process_prompt-IsTracked, SameElsewhere}
use evm_oracle.Consensus.Message.{Env, ConsensusResult, normal}
use evm_oracle.Consensus.Engine.{Pbft}
use evm_oracle.Node.Results.{Back, handle_consensus_result}
use evm_oracle.Node.Prompts.{Services, process_prompt, new_request}
use evm_oracle.Base.{
  Bytes, ℕ, some, Option, ◌∷◌, true, ◌+◌, none, [], ◌≡◌, string_eq, ◌*◌, ◌/◌, false, refl, ◌==◌,
  leb, ltb, nat_eq,
}
use evm_oracle.Node.Requests.{ConsensusData, OracleNode, RequestState}
use evm_oracle.Similarity.Floats.{Float32}

abbrev whole : Float32
whole = record {
  F = ℕ;
  zero_f = 0;
  one_f = 1;
  add = λ x y. x + y;
  mul = λ x y. x * y;
  div = λ x y. x / y;
  sqrt = λ x. x;
  of_int = λ n. n;
  is_zero = λ x. x == 0;
  ge = λ x y. leb y x;
  gt = λ x y. ltb y x;
}

abbrev answer : LlmResponse
answer = record {
  text = "yes";
  tokens_used = 3;
  model = "m";
  timestamp = 5;
  request_id = "r";
  node_id = "a";
}

abbrev agreed_data : ConsensusData
agreed_data = record { request_id = "r"; node_id = "b"; response = some answer; timestamp = 6 }

abbrev decode_one : Bytes → Option ConsensusData
decode_one [] = none
decode_one (b ∷ bytes) = some agreed_data

abbrev services : Services
services = record {
  get_response = λ id prompt. some answer;
  encode_data = λ d. some (7 ∷ []);
  decode_data = decode_one;
}

abbrev back : Back whole
back = record {
  embed = λ text. some (1 ∷ 2 ∷ []);
  sort = λ before cs. cs;
  threshold = 1;
  store = λ r. some "cid";
  range = λ xs. xs;
}

abbrev engine_of_a : Pbft
engine_of_a = record {
  node_id = "a";
  nodes = "a" ∷ "b" ∷ "c" ∷ "d" ∷ [];
  networked = true;
  checkpoint_interval = 100;
  view = 0;
  sequence = 0;
  state = normal;
  is_leader = true;
  last_checkpoint = [];
  last_checkpoint_seq = 0;
  prepare_messages = Dict.empty;
  commit_messages = Dict.empty;
  view_change_msgs = Dict.empty;
  checkpoints = Dict.empty;
  consensus_reached = Dict.empty;
  msg_chan = [];
  senders = [];
  has_callback = true;
  f = 1;
  timer = false;
}

abbrev byte_env : Env
byte_env = record {
  sha256 = λ b. b;
  encode_message = λ m. some (m.sequence ∷ []);
  decode_message = λ b. some (new_view_message engine_of_a);
  encode_view_change = λ d. none;
  decode_view_change = λ b. none;
  encode_checkpoint = λ s b. b;
  delivers = λ b. true;
}

abbrev node_a : OracleNode whole
node_a = record {
  node_id = "a";
  address = "x";
  has_client = true;
  has_storage = true;
  has_scorer = true;
  engine = engine_of_a;
  transport = new_p2p "a" "x" [];
  requests = Dict.empty;
  is_running = true;
  peers = Dict.empty;
}

process_prompt-IsTracked_example :
    let r = process_prompt whole services byte_env 5 "r" "why" node_a in
    IsTracked node_a "r" r (λ s. (s.prompt ≡ "why") × Outcome true r.0 s)
process_prompt-IsTracked_example = process_prompt-IsTracked services byte_env 5 "r" "why" node_a

abbrev asked : RequestState whole
asked = record (new_request whole node_a 5 "r" "why") { responses = Dict.put Dict.empty "a" answer }

abbrev asked_a : OracleNode whole
asked_a = record node_a { requests = Dict.put Dict.empty "r" asked }

abbrev decided_r : ConsensusResult
decided_r = record { sequence = 3; payload = 7 ∷ []; digest = 7 ∷ [] }

handle_consensus_result-IsAgreed_example :
    let n' = handle_consensus_result whole services back 8 decided_r asked_a in
    ((s' : RequestState whole) × (Dict.get n'.requests "r" ≡ some s')
      × IsAgreed agreed_data asked s')
    × SameElsewhere "r" asked_a n'
unfolding Dict.get Dict.put Dict.empty
handle_consensus_result-IsAgreed_example =
    handle_consensus_result-IsAgreed services back 8 decided_r asked_a agreed_data asked refl refl

handle_consensus_result-IsStored_example :
    let n' =
      handle_consensus_result whole services
        (with_client whole back mock_storage Dict.empty)
        8
        decided_r
        asked_a in
    (s' : RequestState whole) × (Dict.get n'.requests "r" ≡ some s')
    × IsStored whole mock_storage back Dict.empty true 8 agreed_data asked s'
unfolding Dict.get Dict.put Dict.empty
handle_consensus_result-IsStored_example =
    handle_consensus_result-IsStored whole mock_storage back Dict.empty services 8 decided_r asked_a
      agreed_data asked refl refl
