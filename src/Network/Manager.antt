-- ===== src/Network/Manager.antt =====
-- oracle/pkg/network/health.go: the HealthManager, its loop, and its pings over the transport. The pings of a
-- round, which are goroutines, are taken one after another, each with the times of its start and its end.
use evm_oracle.Base.{String, ℕ, Bool, true, false, List, [], ◌∷◌, Option, some, none, if◌then◌else◌}
use evm_oracle.Base.Dict
use evm_oracle.Base.Dict.{Dict, keys}
use evm_oracle.Network.Health.{PeerHealth, check_peer, Ping}
use evm_oracle.Network.Dispatch.{PayloadCodec}
use evm_oracle.Network.Framing.{Codec}
use evm_oracle.Network.Transport.{P2p, Net, Sent, SendError}
use evm_oracle.Network.Transport

pub record HealthManager : Type 0 where
  pub peer_health : Dict String PeerHealth
  pub transport : P2p
  pub stopped : Bool

unfoldable pub new_health_manager : P2p → HealthManager
new_health_manager transport = record {
  peer_health = Dict.empty;
  transport = transport;
  stopped = false;
}

-- Stop; `none` is the panic of a close of a closed channel.
unfoldable pub stop_manager : HealthManager → Option HealthManager
stop_manager hm = if hm.stopped then none else some (record hm { stopped = true })

-- What happens to a ping: what the sockets do, and the times before and after the Send
pub record Probe : Type 0 where
  pub net : Net
  pub started : ℕ
  pub ended : ℕ

abbrev pub is_failure : Option SendError → Bool
is_failure none = false
is_failure (some e) = true

-- The Send of a ping to a peer
unfoldable pub send_ping : Codec → PayloadCodec → String → Probe → P2p → Sent
send_ping c j id probe t =
    Transport.send probe.net c id
      (j.encode_health (record { kind = "ping"; time = probe.started; node_id = t.node_id })) t

-- checkPeer
unfoldable pub check_over : Codec → PayloadCodec → String → Probe → HealthManager → HealthManager
check_over c j id probe hm =
    let (failure, t, frames) = send_ping c j id probe hm.transport in
    let ping : Ping = record {
      started = probe.started;
      ended = probe.ended;
      failed = is_failure failure;
    } in
    record hm { peer_health = check_peer id ping hm.peer_health; transport = t }

unfoldable pub check_each :
    Codec → PayloadCodec → (String → Probe) → List String → HealthManager → HealthManager
check_each c j probes [] hm = hm
check_each c j probes (id ∷ ids) hm = check_each c j probes ids (check_over c j id (probes id) hm)

-- checkAllPeers
unfoldable pub check_round : Codec → PayloadCodec → (String → Probe) → HealthManager → HealthManager
check_round c j probes hm = check_each c j probes (keys hm.transport.peers) hm

-- The ticks of healthCheckLoop, until it sees that the manager has been stopped
unfoldable pub health_loop :
    Codec → PayloadCodec → List (String → Probe) → HealthManager → HealthManager
health_loop c j [] hm = hm
health_loop c j (probes ∷ ticks) hm =
    let rest = health_loop c j ticks (check_round c j probes hm) in if hm.stopped then hm else rest
