-- ===== src/Runner/Examples.antt =====
-- The theorems at node 1 of the script, with a prompt before the request.
use evm_oracle.Consensus.Run.{takes}
use Prim.Native.Nat.{zero}
use evm_oracle.Network.Transport.{new_p2p}
use evm_oracle.Runner.Handler.{
  OracleRequest, Round, NodeEvent, handle_request, ticked, prompted, live, moved, stepped, received,
  timed_out,
}
use evm_oracle.Runner.Waiting.{IsAnswer, handle_request-no-IsAnswer}
use evm_oracle.Node.Requests.{OracleNode, new_oracle_node}
use evm_oracle.Consensus.Engine.{
  Pbft, init_consensus, new_pbft, set_network_manager, set_result_callback,
}
use evm_oracle.Consensus.Message.{Env, normal}
use evm_oracle.Node.Prompts.{Services}
use evm_oracle.Runner.Followers.{Distinguishes, Follows, runner_engine-Follows}
use evm_oracle.Runner.Setup.{Formats, id_ok, runner_engine, logged_threshold}
use evm_oracle.Base.{
  ℕ, Option, List, ◌+◌, String, none, ◌∷◌, false, ◌*◌, true, [], some, suc, ◌/◌, ◌==◌, ◌≡◌, refl,
  leb, ltb, nat_eq, if◌then◌else◌, ◌≤◌, sym, arith, ◌∙◌, string_eq, ap,
}
use evm_oracle.Similarity.Floats.{Float32}
use evm_oracle.Base.Dict

abbrev whole : Float32
whole = record {
  F = ℕ;
  zero_f = 0;
  one_f = 1;
  add = λ x y. x + y;
  mul = λ x y. x * y;
  div = λ x y. x / y;
  sqrt = λ x. x;
  of_int = λ n. n;
  is_zero = λ x. x == 0;
  ge = λ x y. leb y x;
  gt = λ x y. ltb y x;
}

abbrev pub name : ℕ → String
name zero = "node0"
name (suc zero) = "node1"
name (suc (suc zero)) = "node2"
name (suc (suc (suc n))) = "node3"

abbrev pub formats : Formats
formats = record { node_name = name; address = λ port. "127.0.0.1" }

abbrev number : String → ℕ
number s = if s == "node0" then 0 else if s == "node1" then 1 else if s == "node2" then 2 else 3

number-name : (i : ℕ) → i ≤ 3 → number (name i) ≡ i
number-name zero h = refl
number-name (suc zero) h = refl
number-name (suc (suc zero)) h = refl
number-name (suc (suc (suc n))) h = omega arith

formats-Distinguishes : Distinguishes formats
formats-Distinguishes i j hi hj e = sym (number-name i hi) ∙ ap number e ∙ number-name j hj

abbrev services : Services
services = record {
  get_response = λ id prompt. none;
  encode_data = λ d. none;
  decode_data = λ bytes. none;
}

abbrev env : Env
env = record {
  sha256 = λ b. b;
  encode_message = λ m. none;
  decode_message = λ b. none;
  encode_view_change = λ d. none;
  decode_view_change = λ b. none;
  encode_checkpoint = λ s b. b;
  delivers = λ b. true;
}

abbrev engine : Pbft
engine = record {
  node_id = "node1";
  nodes = "node0" ∷ [];
  networked = true;
  checkpoint_interval = 100;
  view = 0;
  sequence = 0;
  state = normal;
  is_leader = false;
  last_checkpoint = [];
  last_checkpoint_seq = 0;
  prepare_messages = Dict.empty;
  commit_messages = Dict.empty;
  view_change_msgs = Dict.empty;
  checkpoints = Dict.empty;
  consensus_reached = Dict.empty;
  msg_chan = [];
  senders = [];
  has_callback = true;
  f = 0;
  timer = false;
}

abbrev node : OracleNode whole
node = record {
  node_id = "node1";
  address = "x";
  has_client = false;
  has_storage = false;
  has_scorer = false;
  engine = engine;
  transport = new_p2p "node1" "x" [];
  requests = Dict.empty;
  is_running = false;
  peers = Dict.empty;
}

made : new_oracle_node whole "node1" "x" false false false ("node0" ∷ []) ≡ some node
unfolding new_oracle_node init_consensus new_pbft set_network_manager set_result_callback
made = refl

abbrev question : Option OracleRequest
question = some (record { request_id = "r"; prompt = "Why?" })

abbrev rounds : List Round
rounds = ticked ∷ moved (received 6 (1 ∷ [])) ∷ ticked ∷ timed_out ∷ []

abbrev before : List NodeEvent
before = prompted 3 "q" "Who?" ∷ stepped takes ∷ []

handle_request-no-IsAnswer_example :
    ¬ IsAnswer
      (handle_request whole services env 5 "POST" question rounds
        (live whole services env before node)).0
handle_request-no-IsAnswer_example =
    handle_request-no-IsAnswer services env "node1" "x" false false false ("node0" ∷ []) node before
      5 "POST" question rounds made

runner_engine-Follows_example :
    Follows (runner_engine formats 1 3000) × (logged_threshold formats 1 3000 ≡ 3)
unfolding id_ok
runner_engine-Follows_example = runner_engine-Follows formats 1 3000 formats-Distinguishes refl
