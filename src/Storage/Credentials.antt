-- ===== src/Storage/Credentials.antt =====
-- With what credentials a record is stored.
-- The credentials that a client sends: a token that is not empty, or a key and a secret that are not
use Prim.Native.String.{◌++◌ as str_append}
use evm_oracle.Node.Requests.{ExecutionRecord}
use evm_oracle.Base.Results.{ok, bind_ok, then_ok, or_fail, or_fail_ok}
use evm_oracle.Http.{HttpResponse, HttpClient, status_ok}
use evm_oracle.Base.{◌≢◌, ◌≡◌, String, Bytes, arith, eq_iff, some, ap, sym, ◌∙◌, ◌∷◌, [], ◌⊎◌}
use evm_oracle.Storage.Pinata.{
  PinataClient, new_pinata_client, check_status, store_execution_record, auth_headers, PinTools,
  pin_form, pin_request, request_failed, response_decode_failed, http_failed,
}

abbrev pub IsAuthorised : PinataClient → Type 0
IsAuthorised p =
    ((p.jwt ≢ "") × (auth_headers p ≡ ("Authorization", str_append "Bearer " p.jwt) ∷ []))
    ⊎ ((p.api_key ≢ "")
        × (p.api_secret ≢ "")
        × (auth_headers p
            ≡ ("pinata_api_key", p.api_key) ∷ ("pinata_secret_api_key", p.api_secret) ∷ []))

created-IsAuthorised :
    (key secret jwt : String) (p : PinataClient)
    → new_pinata_client key secret jwt ≡ ok p
    → IsAuthorised p
unfolding new_pinata_client auth_headers
created-IsAuthorised key secret jwt p h =
    ground (arith, eq_iff jwt "", eq_iff key "", eq_iff secret "")

check_status-ok :
    (r : HttpResponse) (body : Bytes)
    → check_status r ≡ ok body
    → (r.status ≡ status_ok) × (body ≡ r.body)
unfolding check_status
check_status-ok r body h = ground arith

-- The exchange behind a CID
pub pinned :
    (t : PinTools) (http : HttpClient) (p : PinataClient) (r : ExecutionRecord) (cid : String)
    → store_execution_record t http p r ≡ ok cid
    → (form : Bytes) × (response : HttpResponse) × (pin_form t r ≡ ok form)
      × (http.send (pin_request t p form) ≡ some response)
      × (response.status ≡ status_ok)
      × (t.decode_hash response.body ≡ some cid)
unfolding store_execution_record
pinned t http p r cid stored =
    let (form, formed, after_form) = bind_ok (pin_form t r) _ cid stored in
    let (_, after_request) = then_ok _ request_failed _ cid after_form in
    let (response, sent, after_send) =
      bind_ok (or_fail http_failed (http.send (pin_request t p form))) _ cid after_request in
    let (answer, checked, decoded) = bind_ok (check_status response) _ cid after_send in
    let (fine, same) = check_status-ok response answer checked in
    (
      form,
      response,
      formed,
      or_fail_ok http_failed _ response sent,
      fine,
      ap t.decode_hash (sym same) ∙ or_fail_ok response_decode_failed _ cid decoded,
    )

-- Where a client that NewPinataClient has made stores a record and returns a CID, it has sent the form of
-- the record to Pinata, with a token that is not empty or else with a key and a secret that are not; the
-- answer has the status 200, and the CID is the hash in it.
pub store_execution_record-IsAuthorised :
    (t : PinTools) (http : HttpClient) (key secret jwt : String) (p : PinataClient)
    (r : ExecutionRecord) (cid : String)
    → new_pinata_client key secret jwt ≡ ok p
    → store_execution_record t http p r ≡ ok cid
    → IsAuthorised p
      × ((form : Bytes) × (response : HttpResponse) × (pin_form t r ≡ ok form)
          × (http.send (pin_request t p form) ≡ some response)
          × (response.status ≡ status_ok)
          × (t.decode_hash response.body ≡ some cid))
store_execution_record-IsAuthorised t http key secret jwt p r cid made stored =
    (created-IsAuthorised key secret jwt p made, pinned t http p r cid stored)
