-- ===== src/Runner/Start.antt =====
-- scripts/run_node.go, main: from the flags to the registered peers. The scorer and the logger are left out.
use evm_oracle.Storage.Pinata.{PinataClient, new_pinata_client}
use evm_oracle.Llm.Client.{OpenAiClient, LlmConfig, new_openai_client}
use evm_oracle.Runner.Setup.{Formats, id_ok, peers_of}
use evm_oracle.Node.Wiring.{
  Wired, Transports, wire_peer, new_transport, no_transports, wire_node, set_transport,
  wire_consensus,
}
use evm_oracle.Base.{String, ℕ, some, ◌+◌, List, not, ◌∷◌, []}
use evm_oracle.Base.Results.{Result, ok, ◌>>=◌, ◌>>◌, or_fail, refuse_if, or_error}
use evm_oracle.Config.Loader.{load_config, GlobalConfig, ConfigTools, fresh_package}

pub data RunnerError : Type 0 where
  bad_id config_failed nil_config_panic client_failed storage_failed : RunnerError

-- "Register peer addresses"
unfoldable pub wire_peers : List (String × String) → Wired × Transports → Wired × Transports
wire_peers [] w = w
wire_peers ((id, address) ∷ rest) w = wire_peers rest (wire_peer id address w)

-- From the transport of the script to the registered peers: the transport is made before the node, which
-- makes one of its own.
unfoldable pub wire_runner : Formats → ℕ → ℕ → Wired × Transports
wire_runner fmt node_id base_port =
    let id = fmt.node_name node_id in
    let address = fmt.address (base_port + node_id) in
    let (transport, s) = new_transport id address no_transports in
    let (node, s') = wire_node id address s in
    wire_peers (peers_of fmt node_id base_port) (set_transport transport (wire_consensus node), s')

module _ (F : Type 0) where
  pub record Runner : Type 0 where
    pub client : OpenAiClient F
    pub storage : PinataClient
    pub wiring : Wired × Transports

  unfoldable pub client_config : GlobalConfig F → LlmConfig F
  client_config cfg = record {
    model = cfg.openai.model;
    max_tokens = cfg.openai.max_tokens;
    default_temperature = cfg.openai.default_temperature;
    max_retries = cfg.openai.max_retries;
    retry_interval_ms = cfg.openai.retry_interval_ms;
  }

  unfoldable pub start_runner :
      Formats → ConfigTools F → GlobalConfig F → ℕ → ℕ → Result RunnerError Runner
  unfolding client_config wire_runner
  start_runner fmt tools zero_config node_id base_port = do
    refuse_if (not (id_ok node_id)) bad_id
    loaded ←
        or_error config_failed
          (load_config F tools zero_config "../config/config.json" (fresh_package F)).0
    cfg ← or_fail nil_config_panic loaded
    client ←
        or_error client_failed (new_openai_client F cfg.openai.api_key (some (client_config cfg)))
    storage ← or_error storage_failed (
        new_pinata_client cfg.oracle.pinata.api_key cfg.oracle.pinata.api_secret
          cfg.oracle.pinata.jwt)
    ok (record { client = client; storage = storage; wiring = wire_runner fmt node_id base_port })
