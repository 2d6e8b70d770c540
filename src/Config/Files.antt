-- ===== src/Config/Files.antt =====
-- The configuration files besides that of config/config.go: oracle/pkg/config/config.go, oracle/config/config.go,
-- and the one that oracle/cmd/server/main.go reads. os and encoding/json are parameters.
use evm_oracle.Base.{String, ℕ, Bool, List, Option, Bytes, ◌==◌, string_eq}
use evm_oracle.Base.Results.{Result, ◌>>=◌, ◌>>◌, or_fail, refuse_if}

pub record NodeConfig : Type 0 where
  pub node_id : String
  pub listen_address : String
  pub peers : List String
  pub consensus_timeout : ℕ
  pub view_change_timeout : ℕ
  pub max_message_size : ℕ
  pub connection_timeout : ℕ

-- Config of oracle/config, with durations as numbers
pub record PlainConfig : Type 0 where
  pub listen_addr : String
  pub peer_addrs : List String
  pub consensus_timeout : ℕ
  pub view_change_timeout : ℕ
  pub tls_enabled : Bool
  pub cert_file : String
  pub key_file : String

pub data FileError : Type 0 where
  no_path file_missing malformed : FileError

unfoldable pub load_node_config :
    (String → Option Bytes) → (Bytes → Option NodeConfig) → String → Result FileError NodeConfig
load_node_config read parse path = do
  bytes ← or_fail file_missing (read path)
  or_fail malformed (parse bytes)

module _ (F : Type 0) where
  -- Config of the server
  pub record ServerConfig : Type 0 where
    pub provider : String
    pub api_key : String
    pub api_secret : String
    pub jwt : String
    pub llm_api_key : String
    pub model : String
    pub temperature : F
    pub max_tokens : ℕ
    pub max_retries : ℕ
    pub retry_interval_ms : ℕ

  -- The flag -config and the file it names; every error ends the program.
  unfoldable pub load_server_config :
      (String → Option Bytes)
      → (Bytes → Option ServerConfig)
      → String
      → Result FileError ServerConfig
  load_server_config read parse path = do
    refuse_if (path == "") no_path
    bytes ← or_fail file_missing (read path)
    or_fail malformed (parse bytes)
