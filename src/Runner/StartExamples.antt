-- ===== src/Runner/StartExamples.antt =====
-- The theorem on the set-up at node 2 of the script.
use evm_oracle.Base.Dict.{keys}
use evm_oracle.Storage.Pinata.{new_pinata_client}
use evm_oracle.Llm.Client.{new_openai_client}
use evm_oracle.Node.Wiring.{node_transport, manager_transport}
use evm_oracle.Runner.Examples.{formats}
use evm_oracle.Runner.Setup.{id_ok, peers_of}
use evm_oracle.Runner.Silence.{first_transport, Knows, start_runner-silent}
use evm_oracle.Network.Framing.{Codec}
use evm_oracle.Runner.Start.{Runner, start_runner, client_config, wire_runner}
use evm_oracle.Config.Loader.{
  GlobalConfig, ConfigTools, load_config, load_once, load_env_vars, override, loaded_config,
}
use evm_oracle.Base.{ℕ, some, none, ◌∷◌, [], ◌≡◌, refl, true, string_eq}
use evm_oracle.Base.Results.{ok}
use evm_oracle.Network.Transport
use evm_oracle.Network.Transport.{new_p2p, P2p, Net}
use evm_oracle.Config.Examples.{tools, zero_config}

abbrev with_jwt : GlobalConfig ℕ
with_jwt = record zero_config {
  oracle = record zero_config.oracle {
    pinata = record { api_key = ""; api_secret = ""; jwt = "token" };
  };
}

abbrev file_tools : ConfigTools ℕ
file_tools = record tools {
  read_file = λ path. some (1 ∷ []);
  unmarshal = λ bytes config. (true, with_jwt);
}

abbrev started : Runner ℕ
started = record {
  client = record { api_key = ""; cfg = client_config ℕ with_jwt };
  storage = record { api_key = ""; api_secret = ""; jwt = "token" };
  wiring = wire_runner formats 2 3000;
}

starts : start_runner ℕ formats file_tools zero_config 2 3000 ≡ ok started
unfolding start_runner load_config load_once load_env_vars override loaded_config new_openai_client
    new_pinata_client id_ok client_config
starts = refl

abbrev down : Net
down = record {
  dial = λ address. none;
  sets_deadline = λ conn. true;
  takes_length = λ conn. true;
  takes_data = λ conn. true;
}

abbrev codec : Codec
codec = record { encode = λ m. some []; decode = λ b. none }

start_runner-silent_example :
    let t = first_transport formats 2 3000 in
    (id_ok 2 ≡ true)
    × Knows (peers_of formats 2 3000) (node_transport started.wiring)
    × (manager_transport started.wiring ≡ some t)
    × (Transport.broadcast down codec (keys t.peers) (7 ∷ []) t ≡ (none, t, []))
start_runner-silent_example =
    start_runner-silent ℕ formats file_tools zero_config 2 3000 started down codec (7 ∷ []) starts
