-- ===== src/Node/Tracking.antt =====
-- What becomes of a node's requests.
use evm_oracle.Consensus.Handlers.{propose_value}
use evm_oracle.Base.Dict.{get-put}
use evm_oracle.Base.Dict
use evm_oracle.Consensus.Message.{Error, Env, Output}
use evm_oracle.Consensus.Engine.{Pbft}
use evm_oracle.Consensus.ViewChange.{new_view_message}
use evm_oracle.Node.Incoming.{handle_incoming}
use evm_oracle.Node.Prompts.{
  fail_request, proposed, propose_request, process_prompt, Prompted, Services, new_request,
}
use evm_oracle.Node.Requests.{
  OracleNode, set_request, RequestState, NodeError, request_failed, pending, propose_failed,
  in_consensus, data_marshal_failed, llm_failed,
}
use evm_oracle.Base.{
  String, Bool, ◌≢◌, Option, ◌≡◌, some, arith, List, ℕ, string_eq, none, Bytes, ◌⊎◌, eq_iff,
  ==_refl, inl, true, [], inr, if◌then◌else◌, Option-cases, refl, false, if_not_cases, if_cases,
}
use evm_oracle.Similarity.Floats.{Float32}

module _ {fl : Float32} where
  -- The requests other than `id` are the same at both nodes.
  abbrev pub SameElsewhere : String → OracleNode fl → OracleNode fl → Type 0
  SameElsewhere id n n' = (j : String) → j ≢ id → Dict.get n'.requests j ≡ Dict.get n.requests j

  -- What a prompt leaves: the request under its ID, as `P` says, and the others untouched
  pub record IsTracked (n : OracleNode fl) (id : String) (r : Prompted fl)
      (P : RequestState fl → Type 0) : Type 0 where
    pub request : RequestState fl
    pub found : Dict.get r.1.requests id ≡ some request
    pub outcome : P request
    pub others : SameElsewhere id n r.1

  -- An error is the request's own; without one it awaits consensus at a leader, and stays pending at a
  -- follower.
  abbrev pub Outcome : Bool → Option NodeError → RequestState fl → Type 0
  Outcome leads failure s =
      ((e : NodeError) × (failure ≡ some e) × (s.status ≡ request_failed) × (s.error ≡ some e))
      ⊎ ((failure ≡ none)
          × (s.error ≡ none)
          × (s.status ≡ (if leads then in_consensus else pending)))

  abbrev Handled : OracleNode fl → String → String → Bool → Prompted fl → Type 0
  Handled n id prompt leads r = IsTracked n id r (λ s. (s.prompt ≡ prompt) × Outcome leads r.0 s)

  pub set-others :
      (n : OracleNode fl) (id : String) (s : RequestState fl) (q : Pbft)
      → SameElsewhere id n (set_request fl (record n { engine = q }) id s)
  unfolding set_request
  set-others n id s q j h = ground (arith, get-put n.requests id j s, eq_iff id j)

  pub set-found :
      (n : OracleNode fl) (id : String) (s : RequestState fl) (q : Pbft)
      → Dict.get (set_request fl (record n { engine = q }) id s).requests id ≡ some s
  unfolding set_request
  set-found n id s q = rw (get-put n.requests id id s, ==_refl id)

  failed-Handled :
      (n : OracleNode fl) (id prompt : String) (leads : Bool) (s : RequestState fl) (e : NodeError)
      (q : Pbft) (outs : List Output)
      → s.prompt ≡ prompt
      → Handled n id prompt leads (fail_request fl (record n { engine = q }) id s e outs)
  unfolding fail_request
  failed-Handled n id prompt leads s e q outs h = record {
    request = record s { status = request_failed; error = some e };
    found = set-found n id _ q;
    outcome = (h, inl (e, refl, refl, refl));
    others = set-others n id _ q;
  }

  proposed-Handled :
      (n : OracleNode fl) (id prompt : String) (leads : Bool) (s : RequestState fl)
      (r : Option Error × Pbft × List Output)
      → leads ≡ true
      → s.prompt ≡ prompt
      → s.error ≡ none
      → Handled n id prompt leads (proposed fl n id s r)
  unfolding proposed
  proposed-Handled n id prompt leads s (some e, q, outs) l h k =
      failed-Handled n id prompt leads s (propose_failed e) q outs h
  proposed-Handled n id prompt leads s (none, q, outs) l h k = record {
    request = record s { status = in_consensus };
    found = set-found n id _ q;
    outcome = (h, inr (refl, k, rw l refl));
    others = set-others n id _ q;
  }

  waiting-Handled :
      (n : OracleNode fl) (id prompt : String) (leads : Bool) (s : RequestState fl)
      → leads ≡ false
      → s.prompt ≡ prompt
      → s.error ≡ none
      → s.status ≡ pending
      → Handled n id prompt leads (none, set_request fl n id s, [])
  waiting-Handled n id prompt leads s l h k st = record {
    request = s;
    found = set-found n id s n.engine;
    outcome = (h, inr (refl, k, rw l st));
    others = set-others n id s n.engine;
  }

  propose_request-Handled :
      (w : Services) (env : Env) (now : ℕ) (id prompt : String) (n : OracleNode fl)
      (s : RequestState fl)
      → s.prompt ≡ prompt
      → s.error ≡ none
      → s.status ≡ pending
      → Handled n id prompt n.engine.is_leader (propose_request fl w env now id n s)
  unfolding propose_request
  propose_request-Handled w env now id prompt n s h k st =
      let leads = n.engine.is_leader in
      let encoded = w.encode_data (record {
        request_id = id;
        node_id = n.node_id;
        response = s.llm_response;
        timestamp = now;
      }) in
      if_not_cases (Handled n id prompt leads) leads _ _
        (λ l. waiting-Handled n id prompt leads s l h k st)
        (λ l. elim (Option-cases encoded) [
          | inl e ↦ rw e (failed-Handled n id prompt leads s data_marshal_failed n.engine [] h)
          | inr (bytes, e) ↦
              rw e (proposed-Handled n id prompt leads s (propose_value env bytes n.engine) l h k)
        ])

  -- A prompt that a node processes is afterwards a request under its ID, whatever was there, with the
  -- prompt's text; the other requests are as before. An error that is returned is also the request's, which
  -- is failed then; without an error the request awaits consensus if the node's engine leads, and is
  -- pending if it does not.
  pub process_prompt-IsTracked :
      (w : Services) (env : Env) (now : ℕ) (id prompt : String) (n : OracleNode fl)
      → let r = process_prompt fl w env now id prompt n in
        IsTracked n id r (λ s. (s.prompt ≡ prompt) × Outcome n.engine.is_leader r.0 s)
  unfolding process_prompt new_request
  process_prompt-IsTracked w env now id prompt n =
      let s = new_request fl n now id prompt in
      let leads = n.engine.is_leader in
      if_cases (Handled n id prompt leads) n.has_client _ _
        (λ set. elim (Option-cases (w.get_response id prompt)) [
          | inl e ↦ rw e (failed-Handled n id prompt leads s llm_failed n.engine [] refl)
          | inr (r, e) ↦ rw e (
              propose_request-Handled w env now id prompt n
                (record s { llm_response = some r; responses = Dict.put s.responses n.node_id r })
                refl refl refl)
        ])
        (λ unset. propose_request-Handled w env now id prompt n s refl refl refl)

  -- The messages of a view change carry no consensus data: where encoding/json refuses the empty payload,
  -- a node that receives the new view message of any engine drops it, and its engine never sees it.
  new_view-dropped :
      (w : Services) (env : Env) (now : ℕ) (q : Pbft) (bytes : Bytes) (n : OracleNode fl)
      → env.decode_message bytes ≡ some (new_view_message q)
      → w.decode_data [] ≡ none
      → handle_incoming fl w env now bytes n ≡ n
  unfolding handle_incoming new_view_message
  new_view-dropped w env now q bytes n e h = rw (e, h, handle_incoming)
