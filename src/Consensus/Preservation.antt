-- ===== src/Consensus/Preservation.antt =====
-- Each operation of pbft.go keeps an engine well-formed.
use evm_oracle.Base.Dict
use evm_oracle.Consensus.ViewChange.{start_view_change, handle_view_change}
use evm_oracle.Consensus.Run.{
  take_next, expire, step, run, after, Event, receives, proposes, takes, times_out, let_in,
}
use evm_oracle.Consensus.Invariant.{
  IsWellFormed, process_new_view-IsWellFormed, same-IsWellFormed, IsMember,
  store_prepare-IsWellFormed, entered_change-IsWellFormed, voters, stated-IsWellFormed, self-known,
  renumbered-IsWellFormed, store_commit-IsWellFormed, execute-IsWellFormed, marked-IsWellFormed,
  store_view_change-IsWellFormed,
}
use evm_oracle.Consensus.Engine.{Pbft}
use evm_oracle.Consensus.Validate.{validate, catch_up, process_message, chan_capacity}
use evm_oracle.Consensus.Handlers.{
  handle_prepare, handle_new_view, dispatch, handle_message, propose_value, proposal,
  handle_pre_prepare, handle_commit, cast_commit, vote,
}
use evm_oracle.Consensus.Message.{
  Env, ConsensusMessage, PbftState, MessageType, view_changing, pre_prepare, prepare, commit,
  view_change, new_view,
}
use evm_oracle.Base.{
  ◌≡◌, List, arith, Bytes, ℕ, contains, none, ◌++◌, ◌∷◌, [], length, All, false, true, ◌<◌, subst,
  inc_u64, string_eq, Option-cases, All-append, length-append, inl, inr, refl, nat_eq, ◌≤◌,
}

module _ (env : Env) (p : Pbft) (w : IsWellFormed p) where
  propose_value-IsWellFormed : (value : Bytes) → IsWellFormed (propose_value env value p).1
  unfolding propose_value
  propose_value-IsWellFormed value =
      let stored =
        store_prepare-IsWellFormed p p.sequence p.node_id (proposal env p value)
          (self-known p.node_id p.nodes) w in
      ground (arith, stored, renumbered-IsWellFormed _ (inc_u64 p.sequence) stored)

  start_view_change-IsWellFormed : (v : ℕ) → IsWellFormed (start_view_change env v p).0
  unfolding start_view_change
  start_view_change-IsWellFormed v =
      ground (arith, entered_change-IsWellFormed p w v, stated-IsWellFormed p view_changing w)

  module _ (m : ConsensusMessage) (sender : contains (voters p) m.node_id ≡ true) where
    pre_prepare-IsWellFormed : IsWellFormed (handle_pre_prepare env m p).0
    unfolding handle_pre_prepare
    pre_prepare-IsWellFormed = ground (
      arith,
      store_prepare-IsWellFormed p m.sequence p.node_id (vote prepare p m (env.sha256 m.payload))
          (self-known p.node_id p.nodes) w,
    )

    commit-IsWellFormed : IsWellFormed (handle_commit env m p).0
    unfolding handle_commit
    commit-IsWellFormed =
        let stored = store_commit-IsWellFormed p m.sequence m.node_id m sender w in
        ground (
          arith,
          stored,
          execute-IsWellFormed env m.sequence m.payload _
              (marked-IsWellFormed _ (Dict.put p.consensus_reached m.sequence true) stored),
        )

    cast_commit-IsWellFormed : IsWellFormed (cast_commit env m p).0
    unfolding cast_commit
    cast_commit-IsWellFormed =
        let stored =
          store_commit-IsWellFormed p m.sequence p.node_id (vote commit p m m.digest)
            (self-known p.node_id p.nodes) w in
        ground (arith, stored, execute-IsWellFormed env m.sequence m.payload _ stored)

    view_change-IsWellFormed : IsWellFormed (handle_view_change env m p).0
    unfolding handle_view_change
    view_change-IsWellFormed = elim (Option-cases (env.decode_view_change m.payload)) [
      | inl e ↦ rw (e, handle_view_change) w
      | inr (d, e) ↦
          let stored = store_view_change-IsWellFormed p d.new_view m.node_id m sender w in
          rw (e, handle_view_change)
            (ground (arith, stored, process_new_view-IsWellFormed env d.new_view _ stored))
    ]

prepare-IsWellFormed :
    (env : Env) (p : Pbft) (m : ConsensusMessage)
    → contains (voters p) m.node_id ≡ true
    → IsWellFormed p
    → IsWellFormed (handle_prepare env m p).0
unfolding handle_prepare
prepare-IsWellFormed env p m sender w =
    let stored = store_prepare-IsWellFormed p m.sequence m.node_id m sender w in
    ground (arith, stored, cast_commit-IsWellFormed env _ stored m sender)

new_view-IsWellFormed :
    (env : Env) (s : PbftState) (p : Pbft)
    → IsWellFormed p
    → IsWellFormed (handle_new_view env s p).0
unfolding handle_new_view
new_view-IsWellFormed env view_changing p w = process_new_view-IsWellFormed env p.view p w
new_view-IsWellFormed env _ p w = w

dispatch-IsWellFormed :
    (env : Env) (k : MessageType) (p : Pbft) (m : ConsensusMessage)
    → contains (voters p) m.node_id ≡ true
    → IsWellFormed p
    → IsWellFormed (dispatch env k m p).0
unfolding dispatch
dispatch-IsWellFormed env pre_prepare p m h w = pre_prepare-IsWellFormed env p w m h
dispatch-IsWellFormed env prepare p m h w = prepare-IsWellFormed env p m h w
dispatch-IsWellFormed env commit p m h w = commit-IsWellFormed env p w m h
dispatch-IsWellFormed env view_change p m h w = view_change-IsWellFormed env p w m h
dispatch-IsWellFormed env new_view p m h w = new_view-IsWellFormed env p.state p w
dispatch-IsWellFormed env _ p m h w = w

pub handle_message-IsWellFormed :
    (env : Env) (p : Pbft) (m : ConsensusMessage)
    → contains (voters p) m.node_id ≡ true
    → IsWellFormed p
    → IsWellFormed (handle_message env m p).0
unfolding handle_message
handle_message-IsWellFormed env p m = dispatch-IsWellFormed env m.kind p m

-- A validated message is a member's.
validate-IsMember : (p : Pbft) (m : ConsensusMessage) → validate p m ≡ none → IsMember p m
unfolding validate
validate-IsMember p m h = ground arith

-- The channel after a message has been put in
abbrev pub delivered_to : Pbft → ConsensusMessage → Pbft
delivered_to p m = record (catch_up p m) { msg_chan = p.msg_chan ++ m ∷ [] }

delivered-IsWellFormed :
    (p : Pbft) (m : ConsensusMessage)
    → IsMember p m
    → length p.msg_chan < chan_capacity
    → IsWellFormed p
    → IsWellFormed (delivered_to p m)
unfolding IsWellFormed catch_up
delivered-IsWellFormed p m h room w = record {
  prepares = w.prepares;
  commits = w.commits;
  view_changes = w.view_changes;
  waiting = All-append (IsMember p) p.msg_chan (m ∷ []) w.waiting (h, tt);
  room = omega (arith, length-append p.msg_chan (m ∷ []));
  behind = w.behind;
}

-- The calls that wait on the channel after one more has come
abbrev pub waits_at : Pbft → ConsensusMessage → Pbft
waits_at p m = record (catch_up p m) { senders = p.senders ++ m ∷ [] }

waiting-IsWellFormed :
    (p : Pbft) (m : ConsensusMessage) → IsMember p m → IsWellFormed p → IsWellFormed (waits_at p m)
unfolding IsWellFormed catch_up
waiting-IsWellFormed p m h w = record {
  prepares = w.prepares;
  commits = w.commits;
  view_changes = w.view_changes;
  waiting = w.waiting;
  room = w.room;
  behind = All-append (IsMember p) p.senders (m ∷ []) w.behind (h, tt);
}

receive-IsWellFormed :
    (p : Pbft) (m : ConsensusMessage)
    → IsWellFormed p
    → IsWellFormed (after p (process_message p m))
unfolding process_message after
receive-IsWellFormed p m w =
    ground (arith, w, waiting-IsWellFormed p m, delivered-IsWellFormed p m, validate-IsMember p m)

let_in-IsWellFormed :
    (p : Pbft) (ms : List ConsensusMessage)
    → p.senders ≡ ms
    → length p.msg_chan < chan_capacity
    → IsWellFormed p
    → IsWellFormed (let_in p ms)
unfolding let_in IsWellFormed
let_in-IsWellFormed p [] e room w = w
let_in-IsWellFormed p (m ∷ rest) e room w =
    let held : All (IsMember p) (m ∷ rest) = subst (All (IsMember p)) e w.behind in
    record {
      prepares = w.prepares;
      commits = w.commits;
      view_changes = w.view_changes;
      waiting = All-append (IsMember p) p.msg_chan (m ∷ []) w.waiting (held.0, tt);
      room = omega (arith, length-append p.msg_chan (m ∷ []));
      behind = held.1;
    }

let_in-nodes : (p : Pbft) (ms : List ConsensusMessage) → (let_in p ms).nodes ≡ p.nodes
unfolding let_in
let_in-nodes p [] = refl
let_in-nodes p (m ∷ rest) = refl

taken-IsWellFormed :
    (env : Env) (ms : List ConsensusMessage) (p : Pbft)
    → p.msg_chan ≡ ms
    → IsWellFormed p
    → IsWellFormed (take_next env ms p).0
unfolding take_next
taken-IsWellFormed env [] p e w = w
taken-IsWellFormed env (m ∷ rest) p e w =
    handle_message-IsWellFormed env (let_in shorter p.senders) m
      (ground (arith, held.0, let_in-nodes shorter p.senders))
      (let_in-IsWellFormed shorter p.senders refl (omega (arith, room)) kept)
  where
    shorter : Pbft
    shorter = record p { msg_chan = rest }

    held : All (IsMember p) (m ∷ rest)
    held = subst (All (IsMember p)) e (unfold IsWellFormed in w.waiting)

    room : length (m ∷ rest) ≤ chan_capacity
    room = subst (λ ms. length ms ≤ chan_capacity) e (unfold IsWellFormed in w.room)

    kept : IsWellFormed shorter
    kept =
        unfold IsWellFormed in
        record {
          prepares = w.prepares;
          commits = w.commits;
          view_changes = w.view_changes;
          waiting = held.1;
          room = omega (arith, room);
          behind = w.behind;
        }

expire-IsWellFormed : (env : Env) (p : Pbft) → IsWellFormed p → IsWellFormed (expire env p).0
unfolding expire
expire-IsWellFormed env p w = ground (
  arith,
  w,
  start_view_change-IsWellFormed env _
      (same-IsWellFormed p (record p { timer = false }) refl refl refl refl refl refl refl w)
      (inc_u64 p.view),
)

-- Every step keeps a well-formed engine well-formed: what it receives, handles, proposes, and a timeout.
pub step-IsWellFormed :
    (env : Env) (p : Pbft) (e : Event) → IsWellFormed p → IsWellFormed (step env p e).0
unfolding step
step-IsWellFormed env p (receives m) w = receive-IsWellFormed p m w
step-IsWellFormed env p takes w = taken-IsWellFormed env p.msg_chan p refl w
step-IsWellFormed env p (proposes value) w = propose_value-IsWellFormed env p w value
step-IsWellFormed env p times_out w = expire-IsWellFormed env p w

-- The same for any number of steps.
pub run-IsWellFormed :
    (env : Env) (p : Pbft) (es : List Event) → IsWellFormed p → IsWellFormed (run env p es).0
unfolding run
run-IsWellFormed env p [] w = w
run-IsWellFormed env p (e ∷ es) w =
    run-IsWellFormed env (step env p e).0 es (step-IsWellFormed env p e w)
