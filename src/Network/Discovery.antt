-- ===== src/Network/Discovery.antt =====
-- oracle/pkg/network/discovery.go. Times are numbers of nanoseconds.
use evm_oracle.Network.Framing.{Codec}
use evm_oracle.Network.Transport.{P2p, Net}
use evm_oracle.Base.Dict.{Dict}
use evm_oracle.Base.{
  ℕ, String, Option, List, ◌*◌, Bool, false, if◌then◌else◌, ◌∷◌, not, Bytes, [], true, ◌==◌, some,
  string_eq, ltb, ◌-◌, none,
}
use evm_oracle.Base.Dict
use evm_oracle.Network.Transport

abbrev pub peer_ttl : ℕ
peer_ttl = 5 * 60 * 1_000_000_000

pub record PeerInfo : Type 0 where
  pub node_id : String
  pub address : String
  pub last_seen : ℕ
  pub version : String

pub record DiscoveryMessage : Type 0 where
  pub kind : String
  pub peers : List PeerInfo
  pub node_id : String
  pub address : String

-- The transport is an argument of the operations.
pub record PeerDiscovery : Type 0 where
  pub known_peers : Dict String PeerInfo
  pub stopped : Bool
  pub version : String

unfoldable pub new_peer_discovery : String → PeerDiscovery
new_peer_discovery version = record { known_peers = Dict.empty; stopped = false; version = version }

-- A pointer in the map while a message is processed: to a record of its own, or to the variable of the
-- loop over the message's peers, which the modules' Go 1.21 has once for all rounds
pub data Pointer : Type 0 where
  own : PeerInfo → Pointer
  loop_variable : Pointer

-- What a pointer points to while the variable has a value
unfoldable pub pointed : PeerInfo → Pointer → PeerInfo
pointed variable (own p) = p
pointed variable loop_variable = variable

-- `!exists || existing.LastSeen.Before(peer.LastSeen)`
unfoldable pub is_news : PeerInfo → Option Pointer → Bool
unfolding pointed
is_news peer none = true
is_news peer (some existing) = ltb (pointed peer existing).last_seen peer.last_seen

unfoldable pub receive_peer : PeerInfo → Dict String Pointer × P2p → Dict String Pointer × P2p
unfolding is_news
receive_peer peer (known, t) =
    if peer.node_id == t.node_id
    then (known, t)
    else if is_news peer (Dict.get known peer.node_id)
    then (
      Dict.put known peer.node_id loop_variable,
      Transport.register_peer peer.node_id peer.address t,
    )
    else (known, t)

unfoldable pub receive_peers : List PeerInfo → Dict String Pointer × P2p → Dict String Pointer × P2p
receive_peers [] s = s
receive_peers (peer ∷ rest) s = receive_peers rest (receive_peer peer s)

-- What the loop's variable holds in the end
unfoldable pub last_peer : PeerInfo → List PeerInfo → PeerInfo
last_peer before [] = before
last_peer before (peer ∷ rest) = last_peer peer rest

-- "Update sender's info"
unfoldable pub sender_info : ℕ → DiscoveryMessage → PeerDiscovery → PeerInfo
sender_info now m pd = record {
  node_id = m.node_id;
  address = m.address;
  last_seen = now;
  version = pd.version;
}

unfoldable pub with_sender : ℕ → DiscoveryMessage → PeerDiscovery → Dict String PeerInfo
unfolding sender_info
with_sender now m pd = Dict.put pd.known_peers m.node_id (sender_info now m pd)

unfoldable pub handle_discovery_message :
    ℕ → DiscoveryMessage → PeerDiscovery → P2p → PeerDiscovery × P2p
handle_discovery_message now m pd t =
    let (known, t') = receive_peers m.peers (Dict.map_values own (with_sender now m pd), t) in
    let variable = last_peer (sender_info now m pd) m.peers in
    (record pd { known_peers = Dict.map_values (pointed variable) known }, t')

abbrev is_old : ℕ → Option PeerInfo → Bool
is_old now none = false
is_old now (some p) = ltb peer_ttl (now - p.last_seen)

-- `now.Sub(peer.LastSeen) > peerTTL`, at the peer of an ID
unfoldable pub is_stale : ℕ → Dict String PeerInfo → String → Bool
is_stale now known id = is_old now (Dict.get known id)

unfoldable pub close_stale : ℕ → Dict String PeerInfo → List String → P2p → P2p
close_stale now known [] t = t
close_stale now known (id ∷ ids) t =
    close_stale now known ids (if is_stale now known id then Transport.close_connection id t else t)

unfoldable pub cleanup_stale_nodes : ℕ → PeerDiscovery → P2p → PeerDiscovery × P2p
cleanup_stale_nodes now pd t = (
  record pd {
    known_peers = Dict.retain (λ id. not (is_stale now pd.known_peers id)) pd.known_peers;
  },
  close_stale now pd.known_peers (Dict.keys pd.known_peers) t,
)

abbrev infos : List (String × PeerInfo) → List PeerInfo
infos [] = []
infos ((id, p) ∷ rest) = p ∷ infos rest

unfoldable pub discovery_message : PeerDiscovery → P2p → DiscoveryMessage
discovery_message pd t = record {
  kind = "discovery";
  peers = infos (Dict.items pd.known_peers);
  node_id = t.node_id;
  address = t.address;
}

-- The first argument is encoding/json; the IDs are those of the transport's peers in the order of its
-- range.
unfoldable pub broadcast_peers :
    (DiscoveryMessage → Option Bytes) → Net → Codec → List String → PeerDiscovery → P2p → P2p
unfolding discovery_message
broadcast_peers encode net c ids pd t = elim (encode (discovery_message pd t)) [
  | none ↦ t
  | some bytes ↦ (Transport.broadcast net c ids bytes t).1
]

-- A tick of discoveryLoop
unfoldable pub discovery_tick :
    (DiscoveryMessage → Option Bytes)
    → Net
    → Codec
    → List String
    → ℕ
    → PeerDiscovery
    → P2p
    → PeerDiscovery × P2p
discovery_tick encode net c ids now pd t =
    cleanup_stale_nodes now pd (broadcast_peers encode net c ids pd t)
