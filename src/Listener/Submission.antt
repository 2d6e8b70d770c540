-- ===== src/Listener/Submission.antt =====
-- What a log that is answered has gone through.
use evm_oracle.Http.{HttpResponse, status_ok}
use evm_oracle.Base.{
  List, String, ◌≡◌, Bytes, ◌∷◌, some, [], arith, ◌∙◌, not, ap, ◌==◌, false, eq_iff, string_eq,
  nat_eq,
}
use evm_oracle.Listener.Client.{
  OracleResponse, OracleRequest, request_failed, decode_failed, send_failed, marshal_failed,
  error_status, ListenerTools, Client, send_to_oracle, Log, TransactOpts, oracle_request,
  create_transaction_auth, error_status, event_failed, submit_failed, oracle_error, ListenerError,
  OracleRequest,
}
use evm_oracle.Listener.Monitor.{request_topic, handle_log}
use evm_oracle.Base.Results.{Result, ok, or_fail, bind_ok, then_ok, or_fail_ok}

request_topic-ok :
    (topics : List String) (id : String)
    → request_topic topics ≡ ok id
    → (event requester : String) × (rest : List String) × (topics ≡ event ∷ id ∷ requester ∷ rest)
unfolding request_topic
request_topic-ok [] id h = cc
request_topic-ok (a ∷ []) id h = cc
request_topic-ok (a ∷ b ∷ []) id h = cc
request_topic-ok (a ∷ b ∷ c ∷ rest) id h = (a, c, rest, cc)

abbrev done : String → Result ListenerError String
done a = ok a

ok-injective : (a b : String) → done a ≡ done b → a ≡ b
ok-injective a b h = cc

answer_lem :
    (a : OracleResponse) (cid : String)
    → not (a.error == "") ≡ false
    → done a.ipfs_cid ≡ done cid
    → a ≡ record { ipfs_cid = cid; error = "" }
answer_lem a cid no_error same =
    let e : a.error ≡ "" = ground (arith, no_error, eq_iff a.error "") in
    λ i. record { ipfs_cid = ok-injective _ _ same i; error = e i }

module _ {Abi P : Type 0} (tools : ListenerTools Abi P) where
  -- The oracle's server has answered a request with a CID and no error.
  abbrev pub Answered : Client Abi → String → String → String → Type 0
  Answered c request_id prompt cid =
      (body : Bytes) × (response : HttpResponse) × (tools.marshal_request
          (record { request_id = request_id; prompt = prompt })
        ≡ some body)
      × (c.http.send (oracle_request tools body) ≡ some response)
      × (response.status ≡ status_ok)
      × (tools.decode_response response.body ≡ some (record { ipfs_cid = cid; error = "" }))

  send_to_oracle-Answered :
      (c : Client Abi) (request_id prompt cid : String)
      → send_to_oracle tools c request_id prompt ≡ ok cid
      → Answered c request_id prompt cid
  unfolding send_to_oracle
  send_to_oracle-Answered c request_id prompt cid h =
      let request : OracleRequest = record { request_id = request_id; prompt = prompt } in
      let (body, marshalled, h1) =
        bind_ok (or_fail marshal_failed (tools.marshal_request request)) _ cid h in
      let (_, h2) =
        then_ok (not (c.http.accepts "POST" "http://localhost:8080/prompt")) request_failed _ cid
          h1 in
      let (response, sent, h3) =
        bind_ok (or_fail send_failed (c.http.send (oracle_request tools body))) _ cid h2 in
      let (fine, h4) =
        then_ok (not (response.status == status_ok)) (error_status response.status) _ cid h3 in
      let (answer, decoded, h5) =
        bind_ok (or_fail decode_failed (tools.decode_response response.body)) _ cid h4 in
      let (no_error, h6) =
        then_ok (not (answer.error == "")) (oracle_error answer.error) _ cid h5 in
      (
        body,
        response,
        or_fail_ok marshal_failed _ body marshalled,
        or_fail_ok send_failed _ response sent,
        ground (arith, fine),
        or_fail_ok decode_failed _ answer decoded ∙ ap some (answer_lem answer cid no_error h6),
      )

  -- A log is answered only if it has three topics, its data holds a prompt, and the oracle's server answers
  -- the request of the second topic with the status 200, a CID and no error; the transaction submits that
  -- CID both as the response and as the CID, under the second topic.
  pub handle_log-submits :
      (c : Client Abi) (abi : Abi) (private_key : String) (log : Log) (tx : String)
      → handle_log tools c abi private_key log ≡ ok tx
      → (event request_id requester : String) × (rest : List String) × (prompt cid : String)
        × (auth : TransactOpts) × (log.topics ≡ event ∷ request_id ∷ requester ∷ rest)
        × (tools.unpack_prompt abi log.log_data ≡ some prompt)
        × Answered c request_id prompt cid
        × (create_transaction_auth tools c private_key ≡ ok auth)
        × (c.transact abi auth request_id cid cid ≡ some tx)
  unfolding handle_log
  handle_log-submits c abi private_key log tx h =
      let (request_id, known, h1) = bind_ok (request_topic log.topics) _ tx h in
      let (prompt, unpacked, h2) =
        bind_ok (or_fail event_failed (tools.unpack_prompt abi log.log_data)) _ tx h1 in
      let (cid, answered, h3) = bind_ok (send_to_oracle tools c request_id prompt) _ tx h2 in
      let (auth, made, h4) = bind_ok (create_transaction_auth tools c private_key) _ tx h3 in
      let (event, requester, rest, topics) = request_topic-ok log.topics request_id known in
      (
        event,
        request_id,
        requester,
        rest,
        prompt,
        cid,
        auth,
        topics,
        or_fail_ok event_failed _ prompt unpacked,
        send_to_oracle-Answered c request_id prompt cid answered,
        made,
        or_fail_ok submit_failed _ tx h4,
      )
