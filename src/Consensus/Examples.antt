-- ===== src/Consensus/Examples.antt =====
-- The theorems on engines at a list of four members.
use evm_oracle.Consensus.Views.{two_leaders, view_messages_refused}
use evm_oracle.Consensus.Validation.{IsAdmissible, validate_iff}
use evm_oracle.Consensus.Checkpoints.{execute-loses_checkpoints}
use evm_oracle.Consensus.ViewChange.{leads, view_change_message, process_new_view, new_view_message}
use evm_oracle.Consensus.Execute.{execute_consensus, announce, broadcast}
use evm_oracle.Consensus.Validate.{process_message, validate, is_behind, enqueue, catch_up, queued}
use evm_oracle.Base.Dict
use evm_oracle.Consensus.Progress.{handle_all, commit_of, commits_decide, prepare-decides_again}
use evm_oracle.Consensus.Decisions.{step-IsSound}
use evm_oracle.Consensus.Quorum.{shared}
use evm_oracle.Consensus.Votes.{count, box, file, Votes}
use evm_oracle.Consensus.Reports.{IsSound}
use evm_oracle.Consensus.Preservation.{step-IsWellFormed}
use evm_oracle.Consensus.Handlers.{
  reached, handle_message, handle_commit, propose_value, handle_prepare,
}
use evm_oracle.Consensus.Run.{run, Event, step, receives, take_next, proposes, takes, after}
use evm_oracle.Consensus.Agreement.{Ran, decisions_overlap, Reported}
use evm_oracle.Consensus.Invariant.{IsWellFormed, init_consensus-IsWellFormed}
use evm_oracle.Consensus.Engine.{Pbft, init_consensus}
use evm_oracle.Consensus.Message.{
  Env, ConsensusResult, ConsensusMessage, ViewChangeData, normal, commit, decided, prepare,
  send_failed,
}
use evm_oracle.Base.{
  List, Bytes, String, All, ◌≤◌, ◌∷◌, Option, some, false, Bool, true, ◌≡◌, [], none, refl, map,
  arith, inl, ◌↔◌, ◌≢◌, nat_eq, string_eq,
}

abbrev pub members : List String
members = "a" ∷ "b" ∷ "c" ∷ "d" ∷ []

abbrev read_change : Bytes → Option ViewChangeData
read_change (v ∷ s ∷ c) = some (record { new_view = v; last_seq = s; checkpoint = c })
read_change _ = none

abbrev pub wires : Env
wires = record {
  sha256 = λ b. b;
  encode_message = λ m. some (m.sequence ∷ m.digest);
  decode_message = λ b. none;
  encode_view_change = λ d. some (d.new_view ∷ d.last_seq ∷ d.checkpoint);
  decode_view_change = read_change;
  encode_checkpoint = λ s b. s ∷ b;
  delivers = λ b. true;
}

abbrev cut_wires : Env
cut_wires = record wires { delivers = λ b. false }

-- The engine of a member when InitConsensus has made it
abbrev engine : String → Bool → Pbft
engine id lead = record {
  node_id = id;
  nodes = members;
  networked = true;
  checkpoint_interval = 100;
  view = 0;
  sequence = 0;
  state = normal;
  is_leader = lead;
  last_checkpoint = [];
  last_checkpoint_seq = 0;
  prepare_messages = Dict.empty;
  commit_messages = Dict.empty;
  view_change_msgs = Dict.empty;
  checkpoints = Dict.empty;
  consensus_reached = Dict.empty;
  msg_chan = [];
  senders = [];
  has_callback = true;
  f = 1;
  timer = false;
}

abbrev pub engine_a : Pbft
engine_a = engine "a" true

abbrev pub engine_b : Pbft
engine_b = engine "b" false

created_a : init_consensus "a" members ≡ some engine_a
unfolding init_consensus
created_a = refl

created_b : init_consensus "b" members ≡ some engine_b
unfolding init_consensus
created_b = refl

pub well_a : IsWellFormed engine_a
well_a = init_consensus-IsWellFormed "a" members engine_a created_a

abbrev pub commit_from : String → ConsensusMessage
commit_from id = record {
  kind = commit;
  node_id = id;
  view = 0;
  sequence = 3;
  digest = 7 ∷ [];
  payload = 7 ∷ [];
}

-- Three commits come in and two are handled; the next is the third.
abbrev history : List Event
history =
    receives (commit_from "b")
    ∷ receives (commit_from "c")
    ∷ receives (commit_from "d")
    ∷ takes
    ∷ takes
    ∷ []

abbrev pub result : ConsensusResult
result = record { sequence = 3; payload = 7 ∷ []; digest = 7 ∷ [] }

abbrev late_a : Pbft
late_a = (run wires engine_a history).0

abbrev late_b : Pbft
late_b = (run wires engine_b history).0

made_a : Ran wires "a" members late_a
made_a = record { start = engine_a; history = history; created = created_a; here = refl }

made_b : Ran wires "b" members late_b
made_b = record { start = engine_b; history = history; created = created_b; here = refl }

reports_a : Reported result (step wires late_a takes).1
unfolding run step take_next after process_message validate is_behind enqueue catch_up
    handle_message handle_commit reached execute_consensus announce count file box Dict.get
    Dict.empty Dict.size Dict.put
reports_a = inl refl

reports_b : Reported result (step wires late_b takes).1
unfolding run step take_next after process_message validate is_behind enqueue catch_up
    handle_message handle_commit reached execute_consensus announce count file box Dict.get
    Dict.empty Dict.size Dict.put
reports_b = inl refl

step-IsWellFormed_example : IsWellFormed (step wires engine_a (proposes (7 ∷ []))).0
step-IsWellFormed_example = step-IsWellFormed wires engine_a (proposes (7 ∷ [])) well_a

step-IsSound_example : All (IsSound wires (step wires late_a takes).0) (step wires late_a takes).1
step-IsSound_example = step-IsSound wires late_a takes

decisions_overlap_example :
    2
    ≤ shared members
        (box (step wires late_a takes).0.commit_messages 3)
        (box (step wires late_b takes).0.commit_messages 3)
decisions_overlap_example =
    decisions_overlap made_a made_b takes takes result result 1 refl refl refl reports_a reports_b

abbrev few : List String
few = "b" ∷ "c" ∷ "d" ∷ []

commits_decide_example :
    (handle_all wires (map (commit_of wires 3 0 (7 ∷ []) (7 ∷ [])) few) engine_a).1
    ≡ decided result ∷ []
unfolding reached count box Dict.get Dict.empty Dict.size Dict.keys
commits_decide_example =
    commits_decide wires 3 0 (7 ∷ []) (7 ∷ []) few engine_a refl refl (refl, (refl, (refl, tt)))
      (λ j h. refl) (omega arith) (omega arith)

abbrev ahead : ConsensusMessage
ahead = record (commit_from "c") { sequence = 90 }

abbrev caught_up : Pbft
caught_up = record engine_a { sequence = 90; msg_chan = ahead ∷ [] }

takes_in : process_message engine_a ahead ≡ queued caught_up
unfolding process_message validate is_behind
takes_in = refl

validate_iff_example : (validate engine_a ahead ≡ none) ↔ IsAdmissible engine_a ahead
validate_iff_example = validate_iff engine_a ahead (omega arith) (omega arith)

two_leaders_example :
    let p' = (process_new_view wires 1 engine_a).0 in
    let q' = (process_new_view wires 1 engine_b).0 in
    (p'.is_leader ≡ true) × (q'.is_leader ≡ true) × (p'.view ≡ q'.view) × (p'.node_id ≢ q'.node_id)
unfolding leads
two_leaders_example = two_leaders wires wires 1 engine_a engine_b refl refl refl refl

abbrev viewed : Pbft
viewed = record engine_a { view = 1 }

view_messages_refused_example :
    (validate viewed (view_change_message engine_b (2 ∷ [])) ≢ none)
    × (validate viewed (new_view_message engine_b) ≢ none)
view_messages_refused_example = view_messages_refused viewed engine_b (2 ∷ []) (omega arith)

execute-loses_checkpoints_example :
    Dict.get (execute_consensus wires 0 (7 ∷ []) engine_a).0.checkpoints 0 ≡ none
execute-loses_checkpoints_example =
    execute-loses_checkpoints wires 0 0 (7 ∷ []) engine_a refl (omega arith) (omega arith)

fails : (propose_value cut_wires (7 ∷ []) engine_a).0 ≡ some send_failed
unfolding propose_value broadcast
fails = refl

abbrev full : Votes → Votes
full v =
    file (file (file v 3 "b" (commit_from "b")) 3 "c" (commit_from "c")) 3 "d" (commit_from "d")

abbrev decided_a : Pbft
decided_a = record engine_a {
  prepare_messages = full Dict.empty;
  commit_messages = full Dict.empty;
  consensus_reached = Dict.put Dict.empty 3 true;
}

abbrev late_prepare : ConsensusMessage
late_prepare = record (commit_from "d") { kind = prepare }

prepare-decides_again_example : Reported result (handle_prepare wires late_prepare decided_a).1
unfolding count box file Dict.get Dict.empty Dict.put Dict.size
prepare-decides_again_example =
    prepare-decides_again wires late_prepare decided_a refl (omega arith) (omega arith)
