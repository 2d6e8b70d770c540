-- ===== src/Consensus/Invariant.antt =====
-- What every engine keeps, whatever it is sent: its stores hold at most one message for each voter, and
-- only messages of members or its own; its channel holds messages of members within the
-- capacity, and those that wait on it are of members.
use evm_oracle.Consensus.Validate.{chan_capacity}
use evm_oracle.Consensus.Votes.{file, init_box}
use mathlib.Core.Option.{some-injective}
use evm_oracle.Base.Dict.{Dict}
use evm_oracle.Consensus.Ballots.{
  IsBallot, IsBallot-keep_from, IsBallot-empty, IsBallot-file, IsBallot-init_box,
}
use evm_oracle.Consensus.ViewChange.{process_new_view}
use evm_oracle.Consensus.Execute.{cleanup, execute_consensus, make_checkpoint}
use evm_oracle.Consensus.Message.{Env, ConsensusMessage, normal, PbftState, view_changing}
use evm_oracle.Consensus.Engine.{Pbft, init_consensus}
use evm_oracle.Base.{
  refl, refl, [], ◌∷◌, String, List, ◌≡◌, ℕ, contains, All, some, arith, Bytes, Bool, true, length,
  subst, ◌≤◌, ==_refl, string_eq, nat_eq,
}
use evm_oracle.Base.Dict

abbrev pub IsMember : Pbft → ConsensusMessage → Type 0
IsMember p m = contains p.nodes m.node_id ≡ true

-- Those whose votes a store may hold
abbrev pub voters : Pbft → List String
voters p = p.node_id ∷ p.nodes

pub record Invariant (p : Pbft) : Type 0 where
  pub prepares : IsBallot (voters p) p.prepare_messages
  pub commits : IsBallot (voters p) p.commit_messages
  pub view_changes : IsBallot (voters p) p.view_change_msgs
  pub waiting : All (IsMember p) p.msg_chan
  pub room : length p.msg_chan ≤ chan_capacity
  pub behind : All (IsMember p) p.senders

-- Shut, so that the tactics pass it on whole.
unfoldable pub IsWellFormed : Pbft → Type 0
IsWellFormed p = Invariant p

pub init_consensus-IsWellFormed :
    (id : String) (nodes : List String) (p : Pbft)
    → init_consensus id nodes ≡ some p
    → IsWellFormed p
unfolding init_consensus
init_consensus-IsWellFormed id [] p e = cc
init_consensus-IsWellFormed id (n ∷ ns) p e = subst IsWellFormed (some-injective _ _ e) (
    unfold IsWellFormed in
    record {
      prepares = IsBallot-empty _;
      commits = IsBallot-empty _;
      view_changes = IsBallot-empty _;
      waiting = tt;
      room = omega arith;
      behind = tt;
    })

pub self-known : (id : String) (nodes : List String) → contains (id ∷ nodes) id ≡ true
self-known id nodes = rw (==_refl id)

-- A record with the same stores and channel
pub same-IsWellFormed :
    (p q : Pbft)
    → q.node_id ≡ p.node_id
    → q.nodes ≡ p.nodes
    → q.prepare_messages ≡ p.prepare_messages
    → q.commit_messages ≡ p.commit_messages
    → q.view_change_msgs ≡ p.view_change_msgs
    → q.msg_chan ≡ p.msg_chan
    → q.senders ≡ p.senders
    → IsWellFormed p
    → IsWellFormed q
unfolding IsWellFormed
same-IsWellFormed p q i n a b c d e w = record {
  prepares = rw (i, n, a) w.prepares;
  commits = rw (i, n, b) w.commits;
  view_changes = rw (i, n, c) w.view_changes;
  waiting = rw (d, n) w.waiting;
  room = rw d w.room;
  behind = rw (e, n) w.behind;
}

pub make_checkpoint-IsWellFormed :
    (env : Env) (p : Pbft) → IsWellFormed p → IsWellFormed (make_checkpoint env p)
make_checkpoint-IsWellFormed env p =
    unfold make_checkpoint in
    same-IsWellFormed p (make_checkpoint env p) (ground arith) (ground arith) (ground arith)
      (ground arith) (ground arith) (ground arith) (ground arith)

pub cleanup-IsWellFormed : (s : ℕ) (p : Pbft) → IsWellFormed p → IsWellFormed (cleanup s p)
unfolding cleanup IsWellFormed
cleanup-IsWellFormed s p w = record {
  prepares = IsBallot-keep_from p.prepare_messages w.prepares s;
  commits = IsBallot-keep_from p.commit_messages w.commits s;
  view_changes = w.view_changes;
  waiting = w.waiting;
  room = w.room;
  behind = w.behind;
}

pub execute-IsWellFormed :
    (env : Env) (s : ℕ) (d : Bytes) (p : Pbft)
    → IsWellFormed p
    → IsWellFormed (execute_consensus env s d p).0
unfolding execute_consensus
execute-IsWellFormed env s d p w = cleanup-IsWellFormed s _ (make_checkpoint-IsWellFormed env p w)

module _ (p : Pbft) (s : ℕ) (id : String) (m : ConsensusMessage) where
  pub store_prepare-IsWellFormed :
      contains (voters p) id ≡ true
      → IsWellFormed p
      → IsWellFormed (record p { prepare_messages = file p.prepare_messages s id m })
  unfolding IsWellFormed
  store_prepare-IsWellFormed h w = record {
    prepares = IsBallot-file p.prepare_messages w.prepares s id m h;
    commits = w.commits;
    view_changes = w.view_changes;
    waiting = w.waiting;
    room = w.room;
    behind = w.behind;
  }

  pub store_commit-IsWellFormed :
      contains (voters p) id ≡ true
      → IsWellFormed p
      → IsWellFormed (record p { commit_messages = file p.commit_messages s id m })
  unfolding IsWellFormed
  store_commit-IsWellFormed h w = record {
    prepares = w.prepares;
    commits = IsBallot-file p.commit_messages w.commits s id m h;
    view_changes = w.view_changes;
    waiting = w.waiting;
    room = w.room;
    behind = w.behind;
  }

  pub store_view_change-IsWellFormed :
      contains (voters p) id ≡ true
      → IsWellFormed p
      → IsWellFormed (record p { view_change_msgs = file p.view_change_msgs s id m })
  unfolding IsWellFormed
  store_view_change-IsWellFormed h w = record {
    prepares = w.prepares;
    commits = w.commits;
    view_changes = IsBallot-file p.view_change_msgs w.view_changes s id m h;
    waiting = w.waiting;
    room = w.room;
    behind = w.behind;
  }

-- A record that differs in other fields than the stores and the channel
pub marked-IsWellFormed :
    (p : Pbft) (reached : Dict ℕ Bool)
    → IsWellFormed p
    → IsWellFormed (record p { consensus_reached = reached })
marked-IsWellFormed p reached =
    same-IsWellFormed p (record p { consensus_reached = reached }) refl refl refl refl refl refl
      refl

pub renumbered-IsWellFormed :
    (p : Pbft) (n : ℕ) → IsWellFormed p → IsWellFormed (record p { sequence = n })
renumbered-IsWellFormed p n =
    same-IsWellFormed p (record p { sequence = n }) refl refl refl refl refl refl refl

pub stated-IsWellFormed :
    (p : Pbft) (s : PbftState) → IsWellFormed p → IsWellFormed (record p { state = s })
stated-IsWellFormed p s =
    same-IsWellFormed p (record p { state = s }) refl refl refl refl refl refl refl

pub entered_change-IsWellFormed :
    (p : Pbft)
    → IsWellFormed p
    → (v : ℕ)
    → IsWellFormed
        (record p { state = view_changing; view_change_msgs = init_box p.view_change_msgs v })
unfolding IsWellFormed
entered_change-IsWellFormed p w v = record {
  prepares = w.prepares;
  commits = w.commits;
  view_changes = IsBallot-init_box p.view_change_msgs w.view_changes v;
  waiting = w.waiting;
  room = w.room;
  behind = w.behind;
}

pub process_new_view-IsWellFormed :
    (env : Env) (v : ℕ) (p : Pbft) → IsWellFormed p → IsWellFormed (process_new_view env v p).0
unfolding process_new_view
process_new_view-IsWellFormed env v p w = ground (arith, entered true, entered p.is_leader)
  where
    entered :
        (lead : Bool)
        → IsWellFormed (record p {
          is_leader = lead;
          view = v;
          state = normal;
          view_change_msgs = Dict.empty;
          timer = true;
        })
    entered lead =
        unfold IsWellFormed in
        record {
          prepares = w.prepares;
          commits = w.commits;
          view_changes = IsBallot-empty _;
          waiting = w.waiting;
          room = w.room;
          behind = w.behind;
        }
