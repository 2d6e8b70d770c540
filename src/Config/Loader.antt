-- ===== src/Config/Loader.antt =====
-- config/config.go. float32 is a parameter, and so is what os and encoding/json do in one call.
use evm_oracle.Base.Results.{Result, err, ok}
use evm_oracle.Base.{
  String, ℕ, Bool, Option, none, Bytes, false, if◌then◌else◌, some, ◌==◌, true, not, string_eq,
}

pub record ConsensusConfig : Type 0 where
  pub kind : String
  pub timeout_ms : ℕ
  pub min_nodes : ℕ
  pub max_nodes : ℕ

pub record PinataConfig : Type 0 where
  pub api_key : String
  pub api_secret : String
  pub jwt : String

pub record OracleConfig : Type 0 where
  pub port : ℕ
  pub host : String
  pub consensus : ConsensusConfig
  pub provider : String
  pub pinata : PinataConfig

-- Blockchain and Invoker; the caller has no field for a private key of the oracle.
pub record ChainConfig : Type 0 where
  pub network : String
  pub rpc_url : String
  pub chain_id : ℕ
  pub contract_address : String
  pub private_key : String
  pub gas_limit : ℕ
  pub confirmations : ℕ

pub record LoggingConfig : Type 0 where
  pub level : String
  pub file : String
  pub max_size_mb : ℕ
  pub max_backups : ℕ
  pub max_age_days : ℕ
  pub compress : Bool

pub record SecurityConfig : Type 0 where
  pub tls_enabled : Bool
  pub cert_file : String
  pub key_file : String
  pub auth_token_expiry_ms : ℕ

pub data ConfigError : Type 0 where
  read_failed parse_failed mkdir_failed marshal_failed write_failed : ConfigError

module _ (F : Type 0) where
  pub record OpenAiConfig : Type 0 where
    pub api_key : String
    pub model : String
    pub temperature : F
    pub max_tokens : ℕ
    pub default_temperature : F
    pub max_retries : ℕ
    pub retry_interval_ms : ℕ

  pub record GlobalConfig : Type 0 where
    pub oracle : OracleConfig
    pub openai : OpenAiConfig
    pub request_timeout_ms : ℕ
    pub cache_duration_ms : ℕ
    pub blockchain : ChainConfig
    pub logging : LoggingConfig
    pub security : SecurityConfig
    pub invoker : ChainConfig

  -- json.Unmarshal into a configuration: whether it succeeds, and what it has made of the configuration,
  -- also where it fails; json.MarshalIndent; os.Getenv, which gives "" for what is not set
  pub record ConfigTools : Type 0 where
    pub read_file : String → Option Bytes
    pub unmarshal : Bytes → GlobalConfig → Bool × GlobalConfig
    pub marshal : GlobalConfig → Option Bytes
    pub getenv : String → String
    pub make_dir : String → Bool
    pub write_file : String → Bytes → Bool

  -- The package's variables: the configuration, and whether the Once has run
  pub record Package : Type 0 where
    pub config : Option GlobalConfig
    pub loaded : Bool

  abbrev pub fresh_package : Package
  fresh_package = record { config = none; loaded = false }

  unfoldable pub override : String → String → String
  override value old = if value == "" then old else value

  unfoldable pub load_env_vars : ConfigTools → GlobalConfig → GlobalConfig
  unfolding override
  load_env_vars t cfg = record cfg {
    openai = record cfg.openai {
      api_key = override (t.getenv "OPENAI_API_KEY") cfg.openai.api_key;
    };
    oracle = record cfg.oracle {
      pinata = record cfg.oracle.pinata {
        jwt = override (t.getenv "PINATA_JWT") cfg.oracle.pinata.jwt;
      };
    };
    blockchain = record cfg.blockchain {
      rpc_url = override (t.getenv "ETH_RPC_URL") cfg.blockchain.rpc_url;
    };
  }

  -- The function that the Once runs, from the zero configuration
  unfoldable pub load_once : ConfigTools → GlobalConfig → String → Option ConfigError × Package
  load_once t zero_config path = elim (t.read_file path) [
    | none ↦ (some read_failed, record { config = some zero_config; loaded = true })
    | some bytes ↦
        let (fine, parsed) = t.unmarshal bytes zero_config in
        if fine
        then (none, record { config = some (load_env_vars t parsed); loaded = true })
        else (some parse_failed, record { config = some parsed; loaded = true })
  ]

  unfoldable pub loaded_config :
      Option ConfigError × Package → Result ConfigError (Option GlobalConfig) × Package
  loaded_config (some e, s) = (err e, s)
  loaded_config (none, s) = (ok s.config, s)

  -- A nil configuration is `none`.
  unfoldable pub load_config :
      ConfigTools
      → GlobalConfig
      → String
      → Package
      → Result ConfigError (Option GlobalConfig) × Package
  unfolding loaded_config
  load_config t zero_config path s =
      loaded_config (if s.loaded then (none, s) else load_once t zero_config path)

  unfoldable pub get_config : Package → Option GlobalConfig
  get_config s = s.config

  -- The directory of a path is filepath.Dir.
  unfoldable pub update_config :
      ConfigTools
      → (String → String)
      → GlobalConfig
      → String
      → Package
      → Result ConfigError (Unit {0}) × Package
  update_config t dir new_config path s =
      if not (t.make_dir (dir path)) then (err mkdir_failed, s) else elim (t.marshal new_config) [
        | none ↦ (err marshal_failed, s)
        | some bytes ↦
            if t.write_file path bytes
            then (ok tt, record s { config = some new_config })
            else (err write_failed, s)
      ]
