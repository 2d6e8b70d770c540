-- ===== src/Caller/Command.antt =====
-- scripts/caller.go: main, with what it calls of go-ethereum as parameters. Keys, hashes and addresses are
-- strings; an error of main ends the program.
use Prim.Native.String.{◌++◌ as str_append}
use evm_oracle.Base.{
  ◌∷◌, String, ℕ, List, Bytes, Option, if◌then◌else◌, [], Bool, ◌==◌, not, string_eq,
}
use evm_oracle.Base.Results.{Result, ok, err, ◌>>=◌, ◌>>◌, or_fail, refuse_if}

pub record InvokerConfig : Type 0 where
  pub network : String
  pub rpc_url : String
  pub chain_id : ℕ
  pub contract_address : String
  pub private_key : String
  pub gas_limit : ℕ
  pub confirmations : ℕ

-- types.NewTransaction, and the logs of its receipt
pub record Transaction : Type 0 where
  pub nonce : ℕ
  pub to : String
  pub value : ℕ
  pub gas : ℕ
  pub gas_price : ℕ
  pub payload : Bytes

pub record ReceiptLog : Type 0 where
  pub topics : List String

-- `out_of_range`: the index into the topics of a log that has too few panics.
pub data CallError : Type 0 where
  no_prompt read_failed parse_failed dial_failed key_failed nonce_failed : CallError
  gas_price_failed abi_failed pack_failed sign_failed send_failed mining_failed : CallError
  out_of_range : CallError

pub record CallTools (Abi : Type 0) : Type 0 where
  pub read_file : String → Option Bytes
  pub decode_config : Bytes → Option InvokerConfig
  pub trim_prefix : String → String → String
  pub parse_key : String → Option String
  pub address_of : String → String
  pub parse_abi : Option Abi
  pub pack : Abi → String → String → Option Bytes
  pub created_topic : Abi → String
  pub sign : Transaction → ℕ → String → Option Bytes

pub record Chain : Type 0 where
  pub pending_nonce : String → Option ℕ
  pub gas_price : Option ℕ
  pub send : Bytes → Bool
  pub mined : Bytes → Option (List ReceiptLog)

-- A log's topics: one of the event RequestCreated has the ID as its second topic.
abbrev from_topics :
    String → (String → Result CallError String) → String → List String → Result CallError String
from_topics created next id [] = err out_of_range
from_topics created next id (event ∷ []) = if event == created then err out_of_range else next id
from_topics created next id (event ∷ request_id ∷ rest) =
    next (if event == created then request_id else id)

-- "Check for events": the request ID, from the zeros on
unfoldable pub request_id_from : String → List ReceiptLog → String → Result CallError String
request_id_from created [] id = ok id
request_id_from created (log ∷ logs) id =
    from_topics created (request_id_from created logs) id log.topics

-- fetchIPFSData: whether it fails
pub data FetchError : Type 0 where
  fetch_failed body_failed json_failed format_failed : FetchError

pub record IpfsTools (J : Type 0) : Type 0 where
  pub get : String → Option (Option Bytes)
  pub parse : Bytes → Option J
  pub format : J → Option String

unfoldable pub fetch_ipfs_data : {J : Type 0} → IpfsTools J → String → Result FetchError String
fetch_ipfs_data t cid = do
  response ← or_fail fetch_failed (t.get (str_append "https://ipfs.io/ipfs/" cid))
  body ← or_fail body_failed response
  json ← or_fail json_failed (t.parse body)
  or_fail format_failed (t.format json)

module _ {Abi : Type 0} (tools : CallTools Abi) where
  unfoldable pub load_config : Result CallError InvokerConfig
  load_config = do
    bytes ← or_fail read_failed (tools.read_file "../config/config.json")
    or_fail parse_failed (tools.decode_config bytes)

  unfoldable pub create_request : InvokerConfig → ℕ → ℕ → Bytes → Transaction
  create_request cfg nonce gas_price payload = record {
    nonce = nonce;
    to = cfg.contract_address;
    value = 0;
    gas = cfg.gas_limit;
    gas_price = gas_price;
    payload = payload;
  }

  -- From the parsed flag to the request ID that waitForResponse gets
  unfoldable pub call : (String → Option Chain) → String → Result CallError String
  unfolding load_config create_request request_id_from
  call dial prompt = do
    refuse_if (prompt == "") no_prompt
    cfg ← load_config
    chain ← or_fail dial_failed (dial cfg.rpc_url)
    key ← or_fail key_failed (tools.parse_key (tools.trim_prefix cfg.private_key "0x"))
    nonce ← or_fail nonce_failed (chain.pending_nonce (tools.address_of key))
    gas_price ← or_fail gas_price_failed chain.gas_price
    abi ← or_fail abi_failed tools.parse_abi
    payload ← or_fail pack_failed (tools.pack abi "createRequest" prompt)
    signed ←
        or_fail sign_failed
          (tools.sign (create_request cfg nonce gas_price payload) cfg.chain_id key)
    refuse_if (not (chain.send signed)) send_failed
    logs ← or_fail mining_failed (chain.mined signed)
    request_id_from (tools.created_topic abi) logs ""
