-- ===== src/Server/Relay.antt =====
-- What the listener gets from the server.
use evm_oracle.Server.Turns.{
  KeepsLength, AllTurns, Submitted, submit-Submitted, at_turn, FirstFailure,
}
use evm_oracle.Consensus.Message.{Env}
use evm_oracle.Node.Prompts.{Services}
use evm_oracle.Node.Requests.{NodeError, OracleNode}
use evm_oracle.Http.{HttpResponse}
use evm_oracle.Server.Prompt.{
  prompt_reply, http_reply, leader_cid, handle_prompt, Meanwhile, Server, prompt_outcome, settled,
  submit,
}
use evm_oracle.Base.{
  Bytes, Option, String, ◌≡◌, List, true, some, none, refl, ℕ, ◌+◌, ◌∙◌, ap, sym, length, ◌⊎◌, inl,
  subst, inr,
}
use evm_oracle.Base.Results.{Result, ok, err}
use evm_oracle.Similarity.Floats.{Float32}
use evm_oracle.Listener.Client.{
  ListenerTools, Client, send_to_oracle, ListenerError, oracle_request, error_status,
}

module _ {Abi P : Type 0} (tools : ListenerTools Abi P) (fl : Float32) where
  -- encoding/json and net/http between the two programs, for a prompt and a CID: the server decodes the
  -- prompt of the listener's request, the listener decodes the CID of the server's answer, and the client
  -- gets what the server answers.
  pub record IsServed (c : Client Abi) (decode_prompt : Bytes → Option String)
      (encode : String → Bytes) (answer : Bytes → HttpResponse) (request_id prompt cid : String)
      : Type 0 where
    pub body : Bytes
    pub accepts : c.http.accepts "POST" "http://localhost:8080/prompt" ≡ true
    pub marshals :
        tools.marshal_request (record { request_id = request_id; prompt = prompt }) ≡ some body
    pub decodes : decode_prompt body ≡ some prompt
    pub sends : c.http.send (oracle_request tools body) ≡ some (answer body)
    pub returns : tools.decode_response (encode cid) ≡ some (record { ipfs_cid = cid; error = "" })

  abbrev pub Relayed : Result ListenerError String → Option NodeError → String → Type 0
  Relayed r none cid = r ≡ ok cid
  Relayed r (some e) cid = r ≡ err (error_status 500)

  relayed :
      (c : Client Abi) (encode : String → Bytes) (request_id prompt id : String)
      (outcome : Option NodeError × List (OracleNode fl)) (body : Bytes)
      → c.http.accepts "POST" "http://localhost:8080/prompt" ≡ true
      → tools.marshal_request (record { request_id = request_id; prompt = prompt }) ≡ some body
      → c.http.send (oracle_request tools body)
        ≡ some (http_reply encode (prompt_reply fl id outcome))
      → tools.decode_response (encode (leader_cid fl id outcome.1))
        ≡ some (record { ipfs_cid = leader_cid fl id outcome.1; error = "" })
      → Relayed (send_to_oracle tools c request_id prompt) outcome.0 (leader_cid fl id outcome.1)
  unfolding send_to_oracle prompt_reply http_reply
  relayed c encode request_id prompt id (some e, nodes) body accepts marshalled sent cids =
      rw (marshalled, accepts, sent) refl
  relayed c encode request_id prompt id (none, nodes) body accepts marshalled sent cids =
      rw (marshalled, accepts, sent, cids) refl

  -- The reply to a run of the handler behind the checks of the request
  reply-handle_prompt :
      (w : Services) (env : Env) (now : ℕ) (name : ℕ → String) (meanwhile : Meanwhile fl)
      (settle : List (OracleNode fl) → List (OracleNode fl)) (s : Server fl) (id prompt : String)
      → id ≡ name (s.request_counter + 1)
      → (handle_prompt fl w env now name meanwhile settle "POST" (some prompt) s).0
        ≡ prompt_reply fl id (prompt_outcome fl w env now meanwhile settle id prompt s.nodes)
  unfolding handle_prompt
  reply-handle_prompt w env now name meanwhile settle s id prompt named =
      ap (λ k. prompt_reply fl k (prompt_outcome fl w env now meanwhile settle k prompt s.nodes))
        (sym named)

  send_to_oracle-outcome :
      (w : Services) (env : Env) (now : ℕ) (name : ℕ → String) (meanwhile : Meanwhile fl)
      (settle : List (OracleNode fl) → List (OracleNode fl)) (s : Server fl) (c : Client Abi)
      (decode_prompt : Bytes → Option String) (encode : String → Bytes)
      (request_id prompt id : String)
      → id ≡ name (s.request_counter + 1)
      → let outcome = prompt_outcome fl w env now meanwhile settle id prompt s.nodes in
        IsServed c decode_prompt encode
          (λ body.
            http_reply encode
              (handle_prompt fl w env now name meanwhile settle "POST" (decode_prompt body) s).0)
          request_id
          prompt
          (leader_cid fl id outcome.1)
        → Relayed (send_to_oracle tools c request_id prompt) outcome.0 (leader_cid fl id outcome.1)
  send_to_oracle-outcome w env now name meanwhile settle s c decode_prompt encode request_id prompt
        id named served =
      relayed c encode request_id prompt id
        (prompt_outcome fl w env now meanwhile settle id prompt s.nodes) served.body served.accepts
        served.marshals
        (served.sends
          ∙ ap
              (λ o.
                some (
                  http_reply encode
                    (handle_prompt fl w env now name meanwhile settle "POST" o s).0))
              served.decodes
          ∙ ap (λ r. some (http_reply encode r))
              (reply-handle_prompt w env now name meanwhile settle s id prompt named))
        served.returns

  -- What the listener gets, by the turns of the server's nodes
  abbrev pub IsReply :
      Services
      → Env
      → ℕ
      → Meanwhile fl
      → (List (OracleNode fl) → List (OracleNode fl))
      → List (OracleNode fl)
      → String
      → String
      → Result ListenerError String
      → Type 0
  IsReply w env now meanwhile settle nodes id prompt r =
      let count = length nodes in
      (AllTurns w env now id prompt meanwhile nodes count
        × (r ≡ ok (leader_cid fl id (settle (at_turn w env now id prompt meanwhile nodes count)))))
      ⊎ ((k : ℕ) × (e : NodeError) × FirstFailure w env now id prompt meanwhile nodes k e
          × (r ≡ err (error_status 500)))

  Submitted-IsReply :
      (w : Services) (env : Env) (now : ℕ) (meanwhile : Meanwhile fl)
      (settle : List (OracleNode fl) → List (OracleNode fl)) (nodes : List (OracleNode fl))
      (id prompt : String) (r : Result ListenerError String)
      → Submitted w env now id prompt meanwhile nodes
          (submit fl w env now id prompt meanwhile 0 (length nodes) nodes)
      → let outcome = prompt_outcome fl w env now meanwhile settle id prompt nodes in
        Relayed r outcome.0 (leader_cid fl id outcome.1)
        → IsReply w env now meanwhile settle nodes id prompt r
  unfolding prompt_outcome settled
  Submitted-IsReply w env now meanwhile settle nodes id prompt r (inl (every, e)) got = inl (
    every,
    subst (λ o. Relayed r (settled fl settle o).0 (leader_cid fl id (settled fl settle o).1)) e got,
  )
  Submitted-IsReply w env now meanwhile settle nodes id prompt r (inr (k, e, first, f)) got = inr (
    k,
    e,
    first,
    failed_reply (submit fl w env now id prompt meanwhile 0 (length nodes) nodes) f got,
  )
    where
      failed_reply :
          (o : Option NodeError × List (OracleNode fl))
          → o.0 ≡ some e
          → Relayed r (settled fl settle o).0 (leader_cid fl id (settled fl settle o).1)
          → r ≡ err (error_status 500)
      failed_reply (none, ns) f got = cc
      failed_reply (some e', ns) f got = got

  -- Where the server answers the listener, JSON and HTTP keep what they carry, and the nodes stay as many as
  -- they are: either each of the nodes, in its turn, processes the prompt without an error, and the listener
  -- gets the CID of the request at node 0 after the wait, "" if there is none, whether the nodes have agreed
  -- or not; or one of the nodes is the first to return an error, and the listener gets the error of the
  -- status 500.
  pub send_to_oracle-handle_prompt :
      (w : Services) (env : Env) (now : ℕ) (name : ℕ → String) (meanwhile : Meanwhile fl)
      (settle : List (OracleNode fl) → List (OracleNode fl)) (s : Server fl) (c : Client Abi)
      (decode_prompt : Bytes → Option String) (encode : String → Bytes)
      (request_id prompt id : String)
      → KeepsLength meanwhile
      → id ≡ name (s.request_counter + 1)
      → IsServed c decode_prompt encode
          (λ body.
            http_reply encode
              (handle_prompt fl w env now name meanwhile settle "POST" (decode_prompt body) s).0)
          request_id
          prompt
          (leader_cid fl id (prompt_outcome fl w env now meanwhile settle id prompt s.nodes).1)
      → IsReply w env now meanwhile settle s.nodes id prompt
          (send_to_oracle tools c request_id prompt)
  send_to_oracle-handle_prompt w env now name meanwhile settle s c decode_prompt encode request_id
        prompt id keeps named served =
      Submitted-IsReply w env now meanwhile settle s.nodes id prompt _
        (submit-Submitted w env now id prompt meanwhile s.nodes keeps)
        (send_to_oracle-outcome w env now name meanwhile settle s c decode_prompt encode request_id
          prompt id named served)
