-- ===== src/Config/Examples.antt =====
-- The theorem at a program that first asks for a file that is missing.
use evm_oracle.Config.Loads.{load_all, failed_load-hides}
use evm_oracle.Base.Results.{err, ok}
use evm_oracle.Base.{
  ℕ, false, if◌then◌else◌, ◌==◌, ◌≡◌, All, some, ◌∷◌, [], refl, none, true, string_eq,
}
use evm_oracle.Config.Loader.{
  ChainConfig, GlobalConfig, ConfigTools, load_config, load_once, fresh_package, read_failed,
}

abbrev pub zero_chain : ChainConfig
zero_chain = record {
  network = "";
  rpc_url = "";
  chain_id = 0;
  contract_address = "";
  private_key = "";
  gas_limit = 0;
  confirmations = 0;
}

abbrev pub zero_config : GlobalConfig ℕ
zero_config = record {
  oracle = record {
    port = 0;
    host = "";
    consensus = record { kind = ""; timeout_ms = 0; min_nodes = 0; max_nodes = 0 };
    provider = "";
    pinata = record { api_key = ""; api_secret = ""; jwt = "" };
  };
  openai = record {
    api_key = "";
    model = "";
    temperature = 0;
    max_tokens = 0;
    default_temperature = 0;
    max_retries = 0;
    retry_interval_ms = 0;
  };
  request_timeout_ms = 0;
  cache_duration_ms = 0;
  blockchain = zero_chain;
  logging = record {
    level = "";
    file = "";
    max_size_mb = 0;
    max_backups = 0;
    max_age_days = 0;
    compress = false;
  };
  security = record {
    tls_enabled = false;
    cert_file = "";
    key_file = "";
    auth_token_expiry_ms = 0;
  };
  invoker = zero_chain;
}

abbrev pub tools : ConfigTools ℕ
tools = record {
  read_file = λ path. if path == "config.json" then some (1 ∷ []) else none;
  unmarshal = λ bytes config. (true, record config { request_timeout_ms = 5 });
  marshal = λ config. some (1 ∷ []);
  getenv = λ name. "";
  make_dir = λ path. true;
  write_file = λ path bytes. true;
}

no_file : (load_config ℕ tools zero_config "missing.json" (fresh_package ℕ)).0 ≡ err read_failed
unfolding load_config load_once
no_file = refl

failed_load-hides_example :
    let s = (load_config ℕ tools zero_config "missing.json" (fresh_package ℕ)).1 in
    All (λ r. r ≡ ok s.config) (load_all zero_config ((tools, "config.json") ∷ []) s)
    × (read_failed ≡ read_failed → s.config ≡ some zero_config)
failed_load-hides_example =
    failed_load-hides zero_config tools "missing.json" ((tools, "config.json") ∷ []) read_failed
      no_file
