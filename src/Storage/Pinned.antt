-- ===== src/Storage/Pinned.antt =====
-- The Pinata client as a storage of execution records.
use Prim.Native.String.{◌++◌ as str_append}
use evm_oracle.Storage.Credentials.{pinned}
use evm_oracle.Node.Requests.{ExecutionRecord}
use evm_oracle.Storage.Pinata.{
  PinTools, pin_form, get_execution_record, gateway_url, PinataClient, record_marshal_failed,
  store_execution_record, pin_request, check_status, PinMetadata, pin_metadata, form_file_failed,
  form_write_failed, metadata_field_failed, metadata_encode_failed, form_close_failed,
}
use evm_oracle.Http.{HttpRequest, HttpClient, HttpResponse, status_ok}
use evm_oracle.Base.{String, some, ◌≡◌, refl, Bytes, true, nat_eq, [], Option}
use evm_oracle.Base.Results.{ok, bind_ok, or_fail_ok, or_fail}

-- Where the public gateway of IPFS serves a CID
abbrev public_url : String → String
public_url cid = str_append "https://gateway.pinata.cloud/ipfs/" cid

abbrev get_request : String → HttpRequest
get_request cid = record { method = "GET"; url = public_url cid; headers = []; body = [] }

-- The bytes of a multipart form with a file and a field of metadata, as mime/multipart writes them one after the
-- other
abbrev pub IsForm : PinTools → Bytes → PinMetadata → Bytes → Type 0
IsForm t file metadata form =
    (part : Bytes) × (written : Bytes) × (field : Bytes) × (both : Bytes) × (t.create_form_file
        "file" "execution_record.json"
      ≡ some part)
    × (t.write_part part file ≡ some written)
    × (t.create_form_field "pinataMetadata" written ≡ some field)
    × (t.encode_metadata metadata field ≡ some both)
    × (t.close_form both ≡ some form)

-- What encoding/json, mime/multipart, Pinata and IPFS guarantee, with the file that Pinata reads out of a form: a
-- record is decoded as it was encoded, the file of a form is what was written as its file part, whatever it is,
-- and the gateway serves the file of a form under the CID with which Pinata has answered to that form.
pub record Serves (t : PinTools) (http : HttpClient) (p : PinataClient) (r : ExecutionRecord)
    (cid : String) : Type 0 where
  pub file_of : Bytes → Option Bytes
  pub trips : (json : Bytes) → t.marshal_record r ≡ some json → t.decode_record json ≡ some r
  pub reads :
      (file : Bytes) (metadata : PinMetadata) (form : Bytes)
      → IsForm t file metadata form
      → file_of form ≡ some file
  pub accepted : http.accepts "GET" (public_url cid) ≡ true
  pub served :
      (file form : Bytes) (response : HttpResponse)
      → file_of form ≡ some file
      → http.send (pin_request t p form) ≡ some response
      → t.decode_hash response.body ≡ some cid
      → http.send (get_request cid) ≡ some (record { status = status_ok; body = file })

-- The form of a record holds its JSON as the file, and its metadata.
pub pin_form-IsForm :
    (t : PinTools) (r : ExecutionRecord) (form : Bytes)
    → pin_form t r ≡ ok form
    → (json : Bytes) × (t.marshal_record r ≡ some json) × IsForm t json (pin_metadata t r) form
unfolding pin_form
pin_form-IsForm t r form formed =
    let (json, a, rest) =
      bind_ok (or_fail record_marshal_failed (t.marshal_record r)) _ form formed in
    let (part, b, rest) =
      bind_ok (or_fail form_file_failed (t.create_form_file "file" "execution_record.json")) _ form
        rest in
    let (written, c, rest) =
      bind_ok (or_fail form_write_failed (t.write_part part json)) _ form rest in
    let (field, d, rest) =
      bind_ok (or_fail metadata_field_failed (t.create_form_field "pinataMetadata" written)) _ form
        rest in
    let (both, e, last) =
      bind_ok (or_fail metadata_encode_failed (t.encode_metadata (pin_metadata t r) field)) _ form
        rest in
    (
      json,
      or_fail_ok record_marshal_failed _ json a,
      (
        part,
        written,
        field,
        both,
        or_fail_ok form_file_failed _ part b,
        or_fail_ok form_write_failed _ written c,
        or_fail_ok metadata_field_failed _ field d,
        or_fail_ok metadata_encode_failed _ both e,
        or_fail_ok form_close_failed _ form last,
      ),
    )

-- Where the gateway serves the file that Pinata has read out of the form it pinned, and JSON and the multipart
-- form keep what is written, GetExecutionRecord gets the record that StoreExecutionRecord has stored, under the
-- CID that this has returned.
pub get_execution_record-store :
    (t : PinTools) (http : HttpClient) (p : PinataClient) (r : ExecutionRecord) (cid : String)
    → Serves t http p r cid
    → store_execution_record t http p r ≡ ok cid
    → get_execution_record t http cid ≡ ok r
unfolding get_execution_record gateway_url
get_execution_record-store t http p r cid s stored =
    let (form, response, formed, sent, fine, hash) = pinned t http p r cid stored in
    let (json, marshalled, written) = pin_form-IsForm t r form formed in
    rw
      (
        s.accepted,
        s.served json form response (s.reads json (pin_metadata t r) form written) sent hash,
        check_status,
        s.trips json marshalled,
      )
      refl
