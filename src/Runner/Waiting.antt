-- ===== src/Runner/Waiting.antt =====
-- What the handler of /request can reply, whatever happens while it waits.
use mathlib.Core.Bool.{false≢true}
use mathlib.Core.Option.{map as option_map}
use evm_oracle.Consensus.Run.{step}
use evm_oracle.Consensus.Engine.{Pbft, init_consensus}
use mathlib.Core.Option.{some-injective}
use evm_oracle.Node.Tracking.{Outcome, process_prompt-IsTracked}
use evm_oracle.Base.Dict
use evm_oracle.Node.Incoming.{handle_incoming, ensure_request, hand_over}
use evm_oracle.Consensus.Message.{Env}
use evm_oracle.Node.Prompts.{Services, process_prompt, new_request, Prompted}
use evm_oracle.Runner.Handler.{
  Reply, node_step, state_reply, wait, nil_pointer, NodeEvent, Round, prompted, response, received,
  stepped, moved, ticked, timed_out, cancelled, status_reply, after_prompt, live, handle_body,
  handle_request, ends, OracleRequest,
}
use evm_oracle.Node.Requests.{
  OracleNode, RequestState, NodeError, complete, set_request, ConsensusData, get_request_state,
  Status, pending, in_consensus, request_failed, new_oracle_node,
}
use evm_oracle.Base.{
  Option, String, ◌≡◌, some, Bool, ℕ, ◌≢◌, List, ◌⊎◌, Bool-cases, ◌∷◌, inl, string_eq, ◌==◌, Bytes,
  inr, sym, true, [], ◌∙◌, false, Option-cases, arith, ap, subst, eq_iff, refl, none, if_cases, not,
}
use evm_oracle.Similarity.Floats.{Float32}

unfoldable pub IsOpen : {fl : Float32} → OracleNode fl → Type 0
IsOpen {fl} n =
    (id : String) (s : RequestState fl) → Dict.get n.requests id ≡ some s → s.status ≢ complete

abbrev pub IsAnswer : Option Reply → Type 0
IsAnswer r = (r ≡ some nil_pointer) ⊎ ((text : String) × (r ≡ some (response text)))

map_some :
    {A B : Type 0} (f : A → B) (o : Option A) (b : B)
    → option_map f o ≡ some b
    → (a : A) × (o ≡ some a) × (f a ≡ b)
map_some f none b h = cc
map_some f (some a) b h = (a, refl, some-injective _ _ h)

module _ {fl : Float32} (w : Services) (env : Env) where
  Outcome-open :
      (leads : Bool) (failure : Option NodeError) (s : RequestState fl)
      → Outcome leads failure s
      → s.status ≢ complete
  Outcome-open leads failure s (inl (e, h, k, l)) = λ c. cc
  Outcome-open true failure s (inr (h, k, l)) = λ c. cc
  Outcome-open false failure s (inr (h, k, l)) = λ c. cc

  prompt-IsOpen :
      (now : ℕ) (id prompt : String) (n : OracleNode fl)
      → IsOpen n
      → IsOpen (process_prompt fl w env now id prompt n).1
  unfolding IsOpen
  prompt-IsOpen now id prompt n open_n j s e =
      let r = process_prompt fl w env now id prompt n in
      let tracked = process_prompt-IsTracked w env now id prompt n in
      elim (Bool-cases (j == id)) [
        | inl same ↦
            let found = tracked.found in
            let alike : s ≡ tracked.request =
              some-injective _ _
                (sym e ∙ ap (Dict.get r.1.requests) ((eq_iff j id).0 same) ∙ found) in
            rw alike (Outcome-open n.engine.is_leader _ tracked.request tracked.outcome.1)
        | inr other ↦
            open_n j s (
              sym (tracked.others j (λ h. absurd (false≢true (sym other ∙ (eq_iff j id).1 h)))) ∙ e)
      ]

  engine-IsOpen : (n : OracleNode fl) (q : Pbft) → IsOpen n → IsOpen (record n { engine = q })
  unfolding IsOpen
  engine-IsOpen n q open_n = open_n

  ensured-IsOpen :
      (now : ℕ) (d : ConsensusData) (n : OracleNode fl)
      → IsOpen n
      → IsOpen (ensure_request fl now d n)
  unfolding ensure_request set_request IsOpen
  ensured-IsOpen now d n open_n = elim (Option-cases (Dict.get n.requests d.request_id)) [
    | inr (s, e) ↦ rw (e, ensure_request) open_n
    | inl e ↦
        rw (e, ensure_request)
          (λ j s got. λ c. ground (
            arith,
            Dict.get-put n.requests d.request_id j
                (record (new_request fl n now d.request_id "") { status = in_consensus }),
            open_n j s,
          ))
  ]

  incoming-IsOpen :
      (now : ℕ) (payload : Bytes) (n : OracleNode fl)
      → IsOpen n
      → IsOpen (handle_incoming fl w env now payload n)
  unfolding handle_incoming hand_over
  incoming-IsOpen now payload n open_n = elim (Option-cases (env.decode_message payload)) [
    | inl e ↦ rw (e, handle_incoming) open_n
    | inr (m, e) ↦ elim (Option-cases (w.decode_data m.payload)) [
      | inl k ↦ rw (e, k, handle_incoming) open_n
      | inr (d, k) ↦ rw (e, k, handle_incoming) (engine-IsOpen _ _ (ensured-IsOpen now d n open_n))
    ]
  ]

  node_step-IsOpen :
      (e : NodeEvent) (n : OracleNode fl) → IsOpen n → IsOpen (node_step fl w env e n)
  unfolding node_step
  node_step-IsOpen (prompted now id prompt) n open_n = prompt-IsOpen now id prompt n open_n
  node_step-IsOpen (received now payload) n open_n = incoming-IsOpen now payload n open_n
  node_step-IsOpen (stepped e) n open_n = engine-IsOpen n (step env n.engine e).0 open_n

  status_reply-open :
      (status : Status) (s : RequestState fl)
      → status ≢ complete
      → ¬ IsAnswer (status_reply fl w env status s)
  unfolding status_reply
  status_reply-open pending s h a = ground arith
  status_reply-open in_consensus s h a = ground arith
  status_reply-open complete s h a = h refl
  status_reply-open request_failed s h a = ground arith

  state-open :
      (id : String) (n : OracleNode fl)
      → IsOpen n
      → ¬ IsAnswer (state_reply fl w env (get_request_state fl id n).1)
  unfolding state_reply get_request_state IsOpen
  state-open id n open_n = elim (Option-cases (Dict.get n.requests id)) [
    | inl e ↦ rw (e, get_request_state, state_reply) (λ a. ground arith)
    | inr (s, e) ↦
        rw (e, get_request_state, state_reply) (status_reply-open s.status s (open_n id s e))
  ]

  wait-open :
      (id : String) (rounds : List Round) (n : OracleNode fl)
      → IsOpen n
      → ¬ IsAnswer (wait fl w env id rounds n).0
  unfolding wait
  wait-open id [] n open_n = λ a. ground arith
  wait-open id (ticked ∷ rounds) n open_n =
      let got = state_reply fl w env (get_request_state fl id n).1 in
      let closed = state-open id n open_n in
      elim (Option-cases got) [
        | inl e ↦ rw (e, wait) (wait-open id rounds n open_n)
        | inr (reply, e) ↦ rw (e, wait) (λ a. closed (subst IsAnswer (sym e) a))
      ]
  wait-open id (timed_out ∷ rounds) n open_n = λ a. ground arith
  wait-open id (cancelled ∷ rounds) n open_n = λ a. ground arith
  wait-open id (moved e ∷ rounds) n open_n =
      wait-open id rounds (node_step fl w env e n) (node_step-IsOpen e n open_n)

  prompt-open :
      (id : String) (rounds : List Round) (r : Prompted fl)
      → IsOpen r.1
      → ¬ IsAnswer (after_prompt fl w env id rounds r).0
  unfolding after_prompt
  prompt-open id rounds (some e, n, outs) open_n = λ a. ground arith
  prompt-open id rounds (none, n, outs) open_n = wait-open id rounds n open_n

  live-IsOpen : (es : List NodeEvent) (n : OracleNode fl) → IsOpen n → IsOpen (live fl w env es n)
  unfolding live
  live-IsOpen [] n open_n = open_n
  live-IsOpen (e ∷ es) n open_n =
      live-IsOpen es (node_step fl w env e n) (node_step-IsOpen e n open_n)

  new-IsOpen :
      (id address : String) (client storage scorer : Bool) (nodes : List String) (n : OracleNode fl)
      → new_oracle_node fl id address client storage scorer nodes ≡ some n
      → IsOpen n
  unfolding new_oracle_node IsOpen
  new-IsOpen id address client storage scorer nodes n made j s e =
      let (p, created, same) = map_some _ (init_consensus id nodes) n made in
      let nothing : Dict.get n.requests j ≡ none =
        ap (λ (m : OracleNode fl). Dict.get m.requests j) (sym same) ∙ Dict.get-empty j in
      λ c. cc

  body_open :
      (now : ℕ) (body : Option OracleRequest) (rounds : List Round) (n : OracleNode fl)
      → IsOpen n
      → ¬ IsAnswer (handle_body fl w env now body rounds n).0
  unfolding handle_body
  body_open now none rounds n open_n = λ a. ground arith
  body_open now (some r) rounds n open_n =
      prompt-open r.request_id rounds _ (prompt-IsOpen now r.request_id r.prompt n open_n)

  -- The handler of /request never replies with an agreed response, nor fails on the way to one: whatever
  -- the node has done since it was made, and whatever happens while the handler waits, no request of the node
  -- is complete, because its result callback only logs.
  pub handle_request-no-IsAnswer :
      (id address : String) (client storage scorer : Bool) (nodes : List String) (n : OracleNode fl)
      (es : List NodeEvent) (now : ℕ) (method : String) (body : Option OracleRequest)
      (rounds : List Round)
      → new_oracle_node fl id address client storage scorer nodes ≡ some n
      → ¬ IsAnswer (handle_request fl w env now method body rounds (live fl w env es n)).0
  unfolding handle_request
  handle_request-no-IsAnswer id address client storage scorer nodes n es now method body rounds
        made =
      let m = live fl w env es n in
      let open_m = live-IsOpen es n (new-IsOpen id address client storage scorer nodes n made) in
      if_cases (λ (r : Option Reply × OracleNode fl). ¬ IsAnswer r.0) (not (method == "POST")) _ _
        (λ t. λ a. ground arith) (λ t. body_open now body rounds m open_m)

  ends-wait :
      (id : String) (rounds : List Round) (n : OracleNode fl)
      → ends rounds ≡ true
      → (wait fl w env id rounds n).0 ≢ none
  unfolding wait ends
  ends-wait id [] n h = λ e. cc
  ends-wait id (ticked ∷ rounds) n h =
      elim (Option-cases (state_reply fl w env (get_request_state fl id n).1)) [
        | inl e ↦ rw (e, wait) (ends-wait id rounds n h)
        | inr (reply, e) ↦ rw (e, wait) (λ a. cc)
      ]
  ends-wait id (timed_out ∷ rounds) n h = λ e. cc
  ends-wait id (cancelled ∷ rounds) n h = λ e. cc
  ends-wait id (moved e ∷ rounds) n h = ends-wait id rounds (node_step fl w env e n) h

  ends_prompt :
      (id : String) (rounds : List Round) (r : Prompted fl)
      → ends rounds ≡ true
      → (after_prompt fl w env id rounds r).0 ≢ none
  unfolding after_prompt
  ends_prompt id rounds (some e, n, outs) h = λ a. cc
  ends_prompt id rounds (none, n, outs) h = ends-wait id rounds n h

  body_ends :
      (now : ℕ) (body : Option OracleRequest) (rounds : List Round) (n : OracleNode fl)
      → ends rounds ≡ true
      → (handle_body fl w env now body rounds n).0 ≢ none
  unfolding handle_body
  body_ends now none rounds n h = λ a. cc
  body_ends now (some r) rounds n h = ends_prompt r.request_id rounds _ h

  -- The handler of /request replies: its rounds come to an end once one is the timeout's or the
  -- cancellation of the request, if not before.
  handle_request-replies :
      (now : ℕ) (method : String) (body : Option OracleRequest) (rounds : List Round)
      (n : OracleNode fl)
      → ends rounds ≡ true
      → (handle_request fl w env now method body rounds n).0 ≢ none
  unfolding handle_request
  handle_request-replies now method body rounds n h =
      if_cases (λ (r : Option Reply × OracleNode fl). r.0 ≢ none) (not (method == "POST")) _ _
        (λ t. λ a. cc) (λ t. body_ends now body rounds n h)
