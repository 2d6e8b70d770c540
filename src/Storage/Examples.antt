-- ===== src/Storage/Examples.antt =====
-- The theorems at a record that is stored with a key and a secret.
use mathlib.Core.Option.{some-injective}
use evm_oracle.Storage.Pinned.{Serves, get_execution_record-store, IsForm}
use evm_oracle.Base.Results.{ok}
use evm_oracle.Base.{
  some, true, ◌≡◌, [], Bytes, ◌∷◌, ◌++◌, refl, if◌then◌else◌, ◌==◌, ap, string_eq, Option, drop,
  arith, String, sym, none, ◌∙◌, nat_eq,
}
use evm_oracle.Storage.Credentials.{IsAuthorised, store_execution_record-IsAuthorised}
use evm_oracle.Node.Requests.{ExecutionRecord}
use evm_oracle.Http.{HttpClient, HttpResponse, status_ok}
use evm_oracle.Storage.Pinata.{
  PinTools, PinataClient, new_pinata_client, store_execution_record, pin_form, check_status,
  pin_request, get_execution_record, PinMetadata,
}

abbrev record_r : ExecutionRecord
record_r = record {
  request_id = "r";
  request_input = "Why?";
  timestamp = 6;
  final_response = "So.";
  oracle_responses = [];
  participant_count = 4;
}

-- The hash of a file: only that of the record's JSON is known.
abbrev hash_of : Bytes → Option String
hash_of [] = none
hash_of (x ∷ []) = if x == 1 then some "Qm" else none
hash_of (x ∷ y ∷ rest) = none

-- A form holds its file at the end, behind a number for each of the four other parts.
abbrev tools : PinTools
tools = record {
  marshal_record = λ r. some (1 ∷ []);
  create_form_file = λ field file. some (2 ∷ []);
  write_part = λ part json. some (part ++ json);
  create_form_field = λ field form. some (3 ∷ form);
  encode_metadata = λ metadata form. some (4 ∷ form);
  close_form = λ form. some (5 ∷ form);
  content_type = "multipart/form-data";
  format_time = λ time. "1970";
  decode_hash = λ body. hash_of (drop 4 body);
  decode_record = λ body. some record_r;
}

-- Pinata answers with the form that it has got; the gateway has one file.
abbrev http : HttpClient
http = record {
  accepts = λ method url. true;
  send = λ request.
      some
        (record { status = 200; body = if request.method == "GET" then 1 ∷ [] else request.body });
}

abbrev client : PinataClient
client = record { api_key = "key"; api_secret = "secret"; jwt = "" }

made : new_pinata_client "key" "secret" "" ≡ ok client
unfolding new_pinata_client
made = refl

stored : store_execution_record tools http client record_r ≡ ok "Qm"
unfolding store_execution_record pin_form check_status pin_request
stored = refl

store_execution_record-IsAuthorised_example :
    IsAuthorised client
    × ((form : Bytes) × (response : HttpResponse) × (pin_form tools record_r ≡ ok form)
        × (http.send (pin_request tools client form) ≡ some response)
        × (response.status ≡ status_ok)
        × (tools.decode_hash response.body ≡ some "Qm"))
store_execution_record-IsAuthorised_example =
    store_execution_record-IsAuthorised tools http "key" "secret" "" client record_r "Qm" made
      stored

hashed : (file : Bytes) → hash_of file ≡ some "Qm" → file ≡ 1 ∷ []
hashed [] h = cc
hashed (x ∷ []) h = ground arith
hashed (x ∷ y ∷ rest) h = cc

read_back :
    (file : Bytes) (metadata : PinMetadata) (form : Bytes)
    → IsForm tools file metadata form
    → some (drop 4 form) ≡ some file
read_back file metadata form (part, written, field, both, a, b, c, d, e) =
    rw
      (
        sym (some-injective _ _ e),
        sym (some-injective _ _ d),
        sym (some-injective _ _ c),
        sym (some-injective _ _ b),
        sym (some-injective _ _ a),
      )
      refl

serves : Serves tools http client record_r "Qm"
unfolding pin_request
serves = record {
  file_of = λ form. some (drop 4 form);
  trips = λ json e. refl;
  reads = read_back;
  accepted = refl;
  served = λ file form response e f g.
      let same : file ≡ 1 ∷ [] = hashed file (
        ap hash_of (
          sym (some-injective _ _ e)
          ∙ ap (λ (r : HttpResponse). drop 4 r.body) (some-injective _ _ f))
        ∙ g) in
      ap (λ b. some (record { status = 200; body = b })) (sym same);
}

get_execution_record-store_example : get_execution_record tools http "Qm" ≡ ok record_r
get_execution_record-store_example =
    get_execution_record-store tools http client record_r "Qm" serves stored
