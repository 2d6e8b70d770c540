-- ===== src/Storage/Pinata.antt =====
-- oracle/pkg/storage/pinata.go. The multipart form, JSON and the HTTP client are parameters.
use evm_oracle.Http.{HttpResponse, HttpClient, HttpRequest, status_ok}
use evm_oracle.Node.Requests.{ExecutionRecord}
use evm_oracle.Base.{
  String, ℕ, List, Bytes, Option, if◌then◌else◌, not, ◌==◌, ◌++◌, [], ◌&&◌, ◌∷◌, ◌||◌, nat_eq,
  string_eq,
}
use Prim.Native.String.{◌++◌ as str_append}
use evm_oracle.Base.Results.{Result, ok, err, ◌>>=◌, ◌>>◌, or_fail, refuse_if}

pub record PinataClient : Type 0 where
  pub api_key : String
  pub api_secret : String
  pub jwt : String

pub data StorageError : Type 0 where
  no_credentials record_marshal_failed form_file_failed form_write_failed : StorageError
  metadata_field_failed metadata_encode_failed form_close_failed : StorageError
  request_failed http_failed response_decode_failed : StorageError
  api_error : ℕ → Bytes → StorageError

-- The key values of the metadata
pub record PinMetadata : Type 0 where
  pub name : String
  pub request_id : String
  pub timestamp : String
  pub record_type : String

-- mime/multipart over a buffer, encoding/json, and the format of a time. A form is the bytes written.
pub record PinTools : Type 0 where
  pub marshal_record : ExecutionRecord → Option Bytes
  pub create_form_file : String → String → Option Bytes
  pub write_part : Bytes → Bytes → Option Bytes
  pub create_form_field : String → Bytes → Option Bytes
  pub encode_metadata : PinMetadata → Bytes → Option Bytes
  pub close_form : Bytes → Option Bytes
  pub content_type : String
  pub format_time : ℕ → String
  pub decode_hash : Bytes → Option String
  pub decode_record : Bytes → Option ExecutionRecord

abbrev pub pinata_base_url : String
pinata_base_url = "https://api.pinata.cloud"

unfoldable pub new_pinata_client : String → String → String → Result StorageError PinataClient
new_pinata_client api_key api_secret jwt =
    if jwt == "" && (api_key == "" || api_secret == "")
    then err no_credentials
    else ok (record { api_key = api_key; api_secret = api_secret; jwt = jwt })

unfoldable pub pin_metadata : PinTools → ExecutionRecord → PinMetadata
pin_metadata t r = record {
  name = str_append "execution_record_" r.request_id;
  request_id = r.request_id;
  timestamp = t.format_time r.timestamp;
  record_type = "oracle_execution";
}

-- The multipart body with the record and its metadata
unfoldable pub pin_form : PinTools → ExecutionRecord → Result StorageError Bytes
unfolding pin_metadata
pin_form t r = do
  json ← or_fail record_marshal_failed (t.marshal_record r)
  part ← or_fail form_file_failed (t.create_form_file "file" "execution_record.json")
  written ← or_fail form_write_failed (t.write_part part json)
  field ← or_fail metadata_field_failed (t.create_form_field "pinataMetadata" written)
  both ← or_fail metadata_encode_failed (t.encode_metadata (pin_metadata t r) field)
  or_fail form_close_failed (t.close_form both)

-- "Set headers"
unfoldable pub auth_headers : PinataClient → List (String × String)
auth_headers p =
    if not (p.jwt == "")
    then ("Authorization", str_append "Bearer " p.jwt) ∷ []
    else ("pinata_api_key", p.api_key) ∷ ("pinata_secret_api_key", p.api_secret) ∷ []

unfoldable pub pin_request : PinTools → PinataClient → Bytes → HttpRequest
unfolding auth_headers
pin_request t p body = record {
  method = "POST";
  url = str_append pinata_base_url "/pinning/pinFileToIPFS";
  headers = auth_headers p ++ ("Content-Type", t.content_type) ∷ [];
  body = body;
}

unfoldable pub check_status : HttpResponse → Result StorageError Bytes
check_status r = if r.status == status_ok then ok r.body else err (api_error r.status r.body)

unfoldable pub store_execution_record :
    PinTools → HttpClient → PinataClient → ExecutionRecord → Result StorageError String
unfolding check_status
store_execution_record t http p r = do
  body ← pin_form t r
  refuse_if (not (http.accepts "POST" (str_append pinata_base_url "/pinning/pinFileToIPFS")))
      request_failed
  response ← or_fail http_failed (http.send (pin_request t p body))
  answer ← check_status response
  or_fail response_decode_failed (t.decode_hash answer)

unfoldable pub gateway_url : String → String
gateway_url cid = str_append "https://gateway.pinata.cloud/ipfs/" cid

unfoldable pub get_execution_record :
    PinTools → HttpClient → String → Result StorageError ExecutionRecord
unfolding check_status gateway_url
get_execution_record t http cid = do
  refuse_if (not (http.accepts "GET" (gateway_url cid))) request_failed
  response ←
      or_fail http_failed
        (http.send (record { method = "GET"; url = gateway_url cid; headers = []; body = [] }))
  answer ← check_status response
  or_fail response_decode_failed (t.decode_record answer)
