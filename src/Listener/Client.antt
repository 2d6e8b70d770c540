-- ===== src/Listener/Client.antt =====
-- scripts/main.go: what the listener reads, and its calls of the oracle and of the chain. Hashes, addresses
-- and keys are strings of hexadecimal digits; go-ethereum, encoding/json and net/http are parameters.
use evm_oracle.Http.{HttpClient, HttpRequest, status_ok}
use evm_oracle.Base.Dict
use evm_oracle.Base.Dict.{Dict}
use evm_oracle.Base.{
  String, List, ℕ, Option, Bytes, if◌then◌else◌, not, string_eq, ltb, ◌∷◌, ◌==◌, ◌^◌, [], u64_mod,
  nat_eq, ◌-◌,
}
use evm_oracle.Base.Results.{Result, ok, ◌>>=◌, ◌>>◌, or_fail, refuse_if}

pub record OracleRequest : Type 0 where
  pub request_id : String
  pub prompt : String

pub record OracleResponse : Type 0 where
  pub ipfs_cid : String
  pub error : String

-- The part of the metadata that is used: the ABI of a contract of a file
pub record ContractMetadata : Type 0 where
  pub contracts : Dict String (Dict String Bytes)

pub record FilterQuery : Type 0 where
  pub address : String
  pub topic : String
  pub from_block : ℕ
  pub to_block : ℕ

-- types.Log
pub record Log : Type 0 where
  pub topics : List String
  pub log_data : Bytes

-- big.NewInt(int64(n))
pub data ℤ : Type 0 where
  pos negsuc : ℕ → ℤ

unfoldable pub int64 : ℕ → ℤ
int64 n = if ltb n (2 ^ 63) then pos n else negsuc (u64_mod - 1 - n)

-- bind.TransactOpts
pub record TransactOpts : Type 0 where
  pub sender : String
  pub nonce : ℤ
  pub value : ℕ
  pub gas_limit : ℕ
  pub gas_price : ℕ

pub data ListenerError : Type 0 where
  read_failed metadata_failed no_contract no_interface abi_failed : ListenerError
  marshal_failed request_failed send_failed decode_failed : ListenerError
  error_status : ℕ → ListenerError
  oracle_error : String → ListenerError
  invalid_key chain_id_failed transactor_failed nonce_failed gas_price_failed : ListenerError
  few_topics event_failed submit_failed : ListenerError

-- A private key is parsed into a P, and a transactor of it has an address.
pub record ListenerTools (Abi P : Type 0) : Type 0 where
  pub read_file : String → Option Bytes
  pub decode_metadata : Bytes → Option ContractMetadata
  pub parse_abi : Bytes → Option Abi
  pub marshal_request : OracleRequest → Option Bytes
  pub decode_response : Bytes → Option OracleResponse
  pub unpack_prompt : Abi → Bytes → Option String
  pub event_topic : Abi → String → String
  pub parse_key : String → Option P
  pub new_transactor : P → ℕ → Option String

-- ethclient.Client and the oracle's server as a log finds them
pub record Client (Abi : Type 0) : Type 0 where
  pub chain_id : Option ℕ
  pub pending_nonce : String → Option ℕ
  pub gas_price : Option ℕ
  pub http : HttpClient
  pub transact : Abi → TransactOpts → String → String → String → Option String

-- A tick of the monitor: BlockNumber and FilterLogs, and the client at each log of the query
pub record Tick (Abi : Type 0) : Type 0 where
  pub block_number : Option ℕ
  pub filter_logs : FilterQuery → Option (List Log)
  pub client : ℕ → Client Abi

module _ {Abi P : Type 0} (tools : ListenerTools Abi P) where
  unfoldable pub load_contract_abi : Result ListenerError Abi
  load_contract_abi = do
    bytes ← or_fail read_failed (tools.read_file "../contracts/contract_metadata.json")
    metadata ← or_fail metadata_failed (tools.decode_metadata bytes)
    contracts ← or_fail no_contract (Dict.get metadata.contracts "contracts/IOracle.sol")
    ioracle ← or_fail no_interface (Dict.get contracts "IOracle")
    or_fail abi_failed (tools.parse_abi ioracle)

  unfoldable pub oracle_request : Bytes → HttpRequest
  oracle_request body = record {
    method = "POST";
    url = "http://localhost:8080/prompt";
    headers = ("Content-Type", "application/json") ∷ [];
    body = body;
  }

  unfoldable pub send_to_oracle : Client Abi → String → String → Result ListenerError String
  unfolding oracle_request
  send_to_oracle c request_id prompt = do
    body ←
        or_fail marshal_failed
          (tools.marshal_request (record { request_id = request_id; prompt = prompt }))
    refuse_if (not (c.http.accepts "POST" "http://localhost:8080/prompt")) request_failed
    response ← or_fail send_failed (c.http.send (oracle_request body))
    refuse_if (not (response.status == status_ok)) (error_status response.status)
    answer ← or_fail decode_failed (tools.decode_response response.body)
    refuse_if (not (answer.error == "")) (oracle_error answer.error)
    ok answer.ipfs_cid

  unfoldable pub create_transaction_auth : Client Abi → String → Result ListenerError TransactOpts
  unfolding int64
  create_transaction_auth c private_key_hex = do
    private_key ← or_fail invalid_key (tools.parse_key private_key_hex)
    chain_id ← or_fail chain_id_failed c.chain_id
    sender ← or_fail transactor_failed (tools.new_transactor private_key chain_id)
    nonce ← or_fail nonce_failed (c.pending_nonce sender)
    gas_price ← or_fail gas_price_failed c.gas_price
    ok (record {
      sender = sender;
      nonce = int64 nonce;
      value = 0;
      gas_limit = 300000;
      gas_price = gas_price;
    })
