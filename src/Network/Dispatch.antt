-- ===== src/Network/Dispatch.antt =====
-- oracle/pkg/network/p2p.go: handleMessage by the type of a payload.
use evm_oracle.Network.Framing.{Codec, Message}
use evm_oracle.Network.Discovery.{DiscoveryMessage, PeerDiscovery, handle_discovery_message}
use evm_oracle.Network.Transport.{SendError, Net, P2p, Sent}
use evm_oracle.Base.{
  some, none, String, Bytes, Option, ℕ, Bool, true, List, [], if◌then◌else◌, false, ◌==◌, string_eq,
}
use evm_oracle.Network.Transport

pub record HealthCheck : Type 0 where
  pub kind : String
  pub time : ℕ
  pub node_id : String

-- encoding/json on payloads. The type is that of an object, with `none` inside where it is no string.
pub record PayloadCodec : Type 0 where
  pub type_of : Bytes → Option (Option String)
  pub decode_discovery : Bytes → Option DiscoveryMessage
  pub encode_health : HealthCheck → Bytes

-- A return of handleMessage, or the panic of a call through nil
pub data Handled : Type 0 where
  handled undecoded invalid_type nil_call : Handled
  pong_failed : SendError → Handled
  handler_failed : Handled

-- What handleMessage returns, the peers known to discovery, the transport, and the frames that went out
abbrev pub Dispatched : Type 0
Dispatched = Handled × Option PeerDiscovery × P2p × List (String × Bytes)

unfoldable pub dispatch_discovery :
    ℕ → Option DiscoveryMessage → Option PeerDiscovery → P2p → Dispatched
dispatch_discovery now none discovery t = (undecoded, discovery, t, [])
dispatch_discovery now (some m) none t = (nil_call, none, t, [])
dispatch_discovery now (some m) (some pd) t =
    let (pd', t') = handle_discovery_message now m pd t in (handled, some pd', t', [])

abbrev pong_result : Option PeerDiscovery → Sent → Dispatched
pong_result discovery (none, t, frames) = (handled, discovery, t, frames)
pong_result discovery (some e, t, frames) = (pong_failed e, discovery, t, frames)

abbrev handler_result : Option Bool → Handled
handler_result none = nil_call
handler_result (some true) = handled
handler_result (some false) = handler_failed

-- The switch on the type; the last argument says whether a message handler is set, and if so whether it
-- returns no error.
unfoldable pub dispatch_type :
    Net
    → Codec
    → PayloadCodec
    → ℕ
    → Message
    → Option PeerDiscovery
    → P2p
    → Option Bool
    → String
    → Dispatched
unfolding dispatch_discovery
dispatch_type net c j now m discovery t handler kind =
    if kind == "discovery"
    then dispatch_discovery now (j.decode_discovery m.payload) discovery t
    else if kind == "ping"
    then pong_result discovery (
        Transport.send net c m.from
          (j.encode_health (record { kind = "pong"; time = now; node_id = t.node_id })) t)
    else (handler_result handler, discovery, t, [])

unfoldable pub handle_transport_message :
    Net → Codec → PayloadCodec → ℕ → Message → Option PeerDiscovery → P2p → Option Bool → Dispatched
unfolding dispatch_type
handle_transport_message net c j now m discovery t handler = elim (j.type_of m.payload) [
  | none ↦ (undecoded, discovery, t, [])
  | some kind ↦ elim kind [
    | none ↦ (invalid_type, discovery, t, [])
    | some kind ↦ dispatch_type net c j now m discovery t handler kind
  ]
]
