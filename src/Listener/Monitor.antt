-- ===== src/Listener/Monitor.antt =====
-- scripts/main.go, monitorBlockchain: a round of the ticker, and what is done with each log. The logger is
-- left out.
use evm_oracle.Listener.Client.{Tick}
use evm_oracle.Config.Loader.{ConfigError, ConfigTools, GlobalConfig, Package, load_config}
use evm_oracle.Base.{
  none, some, List, String, ℕ, if◌then◌else◌, inc_u64, Option, ◌==◌, ◌∷◌, sub_u64, [], nat_eq, ◌+◌,
}
use evm_oracle.Listener.Client.{
  FilterQuery, ListenerTools, ListenerError, Client, Log, event_failed, few_topics, send_to_oracle,
  create_transaction_auth, submit_failed, load_contract_abi,
}
use evm_oracle.Base.Results.{Result, ok, err, ◌>>=◌, or_fail}

pub data RunError : Type 0 where
  config_failed : ConfigError → RunError
  abi_unloaded : ListenerError → RunError
  nil_config dial_failed : RunError

abbrev config_result : {A : Type 0} → Result ConfigError A → Result RunError A
config_result (err e) = err (config_failed e)
config_result (ok a) = ok a

abbrev abi_result : {A : Type 0} → Result ListenerError A → Result RunError A
abi_result (err e) = err (abi_unloaded e)
abi_result (ok a) = ok a

-- The blocks of a query that succeeded, and the transactions that answered its logs
pub record Scan : Type 0 where
  pub query : FilterQuery
  pub answers : List (Result ListenerError String)

-- `vLog.Topics[1]` after the test of the length
unfoldable pub request_topic : List String → Result ListenerError String
request_topic (event ∷ request_id ∷ requester ∷ rest) = ok request_id
request_topic [] = err few_topics
request_topic (a ∷ []) = err few_topics
request_topic (a ∷ b ∷ []) = err few_topics

-- `lastBlock` after the test for 0
unfoldable pub scan_start : ℕ → ℕ → ℕ
scan_start last_block current = if last_block == 0 then sub_u64 current 100 else last_block

module _ {Abi P : Type 0} (tools : ListenerTools Abi P) where
  -- The body of the loop over the logs: `continue` is the error that it logs.
  unfoldable pub handle_log : Client Abi → Abi → String → Log → Result ListenerError String
  handle_log c abi private_key log = do
    request_id ← request_topic log.topics
    prompt ← or_fail event_failed (tools.unpack_prompt abi log.log_data)
    response ← send_to_oracle tools c request_id prompt
    auth ← create_transaction_auth tools c private_key
    or_fail submit_failed (c.transact abi auth request_id response response)

  -- The loop, from the number of a log on
  unfoldable pub handle_logs :
      Tick Abi → Abi → String → ℕ → List Log → List (Result ListenerError String)
  unfolding handle_log
  handle_logs c abi private_key i [] = []
  handle_logs c abi private_key i (log ∷ logs) =
      handle_log (c.client i) abi private_key log ∷ handle_logs c abi private_key (i + 1) logs

  unfoldable pub block_query : Abi → String → ℕ → ℕ → FilterQuery
  block_query abi contract last_block current = record {
    address = contract;
    topic = tools.event_topic abi "RequestCreated";
    from_block = inc_u64 last_block;
    to_block = current;
  }

  -- The logs of a query that starts after a block, if it succeeds
  unfoldable pub process_logs :
      Tick Abi → Abi → String → FilterQuery → ℕ → Option (List Log) → Option Scan × ℕ
  unfolding handle_logs
  process_logs c abi private_key query start none = (none, start)
  process_logs c abi private_key query start (some logs) = (
    some (record { query = query; answers = handle_logs c abi private_key 0 logs }),
    query.to_block,
  )

  unfoldable pub scan_blocks : Tick Abi → Abi → String → String → ℕ → Option ℕ → Option Scan × ℕ
  unfolding scan_start block_query process_logs
  scan_blocks c abi contract private_key last_block none = (none, last_block)
  scan_blocks c abi contract private_key last_block (some current) =
      let start = scan_start last_block current in
      let query = block_query abi contract start current in
      process_logs c abi private_key query start (c.filter_logs query)

  -- A tick: the scan if there was one, and `lastBlock` after it
  unfoldable pub monitor_tick : Tick Abi → Abi → String → String → ℕ → Option Scan × ℕ
  unfolding scan_blocks
  monitor_tick c abi contract private_key last_block =
      scan_blocks c abi contract private_key last_block c.block_number

  -- The scans of the ticks one after another, and `lastBlock` in the end
  unfoldable pub monitor_blockchain :
      List (Tick Abi) → Abi → String → String → ℕ → List (Option Scan) × ℕ
  monitor_blockchain [] abi contract private_key last_block = ([], last_block)
  monitor_blockchain (c ∷ ticks) abi contract private_key last_block =
      let (scan, last') = monitor_tick c abi contract private_key last_block in
      let (scans, end) = monitor_blockchain ticks abi contract private_key last' in
      (scan ∷ scans, end)

  -- runListener: the rounds of a client are those before the interrupt, and a nil configuration panics.
  unfoldable pub run_listener :
      {F : Type 0}
      → ConfigTools F
      → GlobalConfig F
      → (String → Option (List (Tick Abi)))
      → Package F
      → Result RunError (List (Option Scan) × ℕ)
  run_listener {F} config_tools zero_config dial state = do
    loaded ← config_result (load_config F config_tools zero_config "../config/config.json" state).0
    cfg ← or_fail nil_config loaded
    abi ← abi_result (load_contract_abi tools)
    ticks ← or_fail dial_failed (dial cfg.blockchain.rpc_url)
    ok (monitor_blockchain ticks abi cfg.blockchain.contract_address cfg.blockchain.private_key 0)
