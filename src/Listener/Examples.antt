-- ===== src/Listener/Examples.antt =====
-- The theorems at a chain of 150 blocks that grows to 170, with one request, and at a young one.
use evm_oracle.Listener.Client.{Tick}
use evm_oracle.Base.Results.{ok}
use evm_oracle.Listener.Submission.{Answered, handle_log-submits}
use evm_oracle.Listener.Scans.{IsGrowing, times_scanned, in_range, monitor_blockchain-once}
use evm_oracle.Listener.Monitor.{handle_log, monitor_blockchain, request_topic, monitor_tick}
use evm_oracle.Base.{
  Option, List, String, none, ◌∷◌, ℕ, some, arith, [], true, ◌≡◌, if◌then◌else◌, ltb, refl, ◌-◌,
  ◌&&◌, leb,
}
use evm_oracle.Listener.Client.{
  ListenerTools, Log, Client, TransactOpts, send_to_oracle, create_transaction_auth,
}

abbrev tools : ListenerTools String String
tools = record {
  read_file = λ path. none;
  decode_metadata = λ bytes. none;
  parse_abi = λ bytes. none;
  marshal_request = λ r. some (1 ∷ []);
  decode_response = λ bytes. some (record { ipfs_cid = "Qm"; error = "" });
  unpack_prompt = λ abi bytes. some "Why?";
  event_topic = λ abi name. "0xc0";
  parse_key = λ digits. some digits;
  new_transactor = λ key chain_id. some "0xaa";
}

abbrev request_log : Log
request_log = record { topics = "0xc0" ∷ "0x01" ∷ "0x02" ∷ []; log_data = 9 ∷ [] }

abbrev client : Client String
client = record {
  chain_id = some 1;
  pending_nonce = λ sender. some 4;
  gas_price = some 7;
  http = record {
    accepts = λ method url. true;
    send = λ request. some (record { status = 200; body = 2 ∷ [] });
  };
  transact = λ abi auth request_id response cid. some "0xtx";
}

abbrev round : Option ℕ → Option (List Log) → Tick String
round block_number logs = record {
  block_number = block_number;
  filter_logs = λ query. logs;
  client = λ i. client;
}

abbrev first : Tick String
first = round (some 150) (some (request_log ∷ []))

-- One round without a query that succeeds, one that does not learn the height
abbrev later : List (Tick String)
later =
    round (some 160) none ∷ round none (some []) ∷ round (some 170) (some (request_log ∷ [])) ∷ []

answered_log : handle_log tools client "abi" "key" request_log ≡ ok "0xtx"
unfolding handle_log request_topic send_to_oracle create_transaction_auth
answered_log = refl

handle_log-submits_example :
    (event request_id requester : String) × (rest : List String) × (prompt cid : String)
    × (auth : TransactOpts) × (request_log.topics ≡ event ∷ request_id ∷ requester ∷ rest)
    × (tools.unpack_prompt "abi" request_log.log_data ≡ some prompt)
    × Answered tools client request_id prompt cid
    × (create_transaction_auth tools client "key" ≡ ok auth)
    × (client.transact "abi" auth request_id cid cid ≡ some "0xtx")
handle_log-submits_example =
    handle_log-submits tools client "abi" "key" request_log "0xtx" answered_log

later-IsGrowing : IsGrowing tools "abi" "0xcc" "key" 150 later
unfolding IsGrowing
later-IsGrowing = ((omega arith, omega arith), (tt, ((omega arith, omega arith), tt)))

monitor_blockchain-once_example :
    let (scans, end) = monitor_blockchain tools (first ∷ later) "abi" "0xcc" "key" 0 in
    times_scanned 165 scans ≡ (if ltb (150 - 100) 165 && leb 165 end then 1 else 0)
monitor_blockchain-once_example =
    monitor_blockchain-once tools "abi" "0xcc" "key" first later 165 150 refl (omega arith)
      (omega arith) later-IsGrowing

scanned_once :
    let (scans, end) = monitor_blockchain tools (first ∷ later) "abi" "0xcc" "key" 0 in
    (times_scanned 165 scans ≡ 1) × (end ≡ 170)
unfolding monitor_blockchain monitor_tick times_scanned in_range handle_log
scanned_once = (refl, refl)
