-- ===== src/Node/Wiring.antt =====
-- The transports that a node and its network manager hold, as objects in a store: NewOracleNode,
-- InitConsensus, SetTransport and RegisterPeer of oracle/pkg/node/oracle_node.go, and NewNetworkManager and
-- Broadcast of oracle/pkg/consensus/network.go.
use evm_oracle.Base.{String, ℕ, Option, some, none, ◌+◌, nat_eq, string_eq, []}
use evm_oracle.Base.Dict
use evm_oracle.Base.Dict.{Dict}
use evm_oracle.Network.Transport
use evm_oracle.Network.Transport.{P2p, new_p2p, Net, Sent, broadcast}

-- The transports made so far, by number
pub record Transports : Type 0 where
  pub objects : Dict ℕ P2p
  pub next : ℕ

abbrev pub no_transports : Transports
no_transports = record { objects = Dict.empty; next = 0 }

unfoldable pub new_transport : String → String → Transports → ℕ × Transports
new_transport node_id address s = (
  s.next,
  record { objects = Dict.put s.objects s.next (new_p2p node_id address []); next = s.next + 1 },
)

-- The two pointers: the node's own, and that of its network manager, which is `none` before InitConsensus
pub record Wired : Type 0 where
  pub node_id : String
  pub network : ℕ
  pub manager : Option ℕ
  pub peers : Dict String String

unfoldable pub wire_node : String → String → Transports → Wired × Transports
unfolding new_transport
wire_node node_id address s =
    let (network, s') = new_transport node_id address s in
    (record { node_id = node_id; network = network; manager = none; peers = Dict.empty }, s')

unfoldable pub wire_consensus : Wired → Wired
wire_consensus n = record n { manager = some n.network }

unfoldable pub set_transport : ℕ → Wired → Wired
set_transport network n = record n { network = network }

abbrev pub peered : ℕ → String → String → Option P2p → Transports → Transports
peered network id address none s = s
peered network id address (some t) s = record s {
  objects = Dict.put s.objects network (Transport.register_peer id address t);
}

unfoldable pub wire_peer : String → String → Wired × Transports → Wired × Transports
wire_peer id address (n, s) = (
  record n { peers = Dict.put n.peers id address },
  peered n.network id address (Dict.get s.objects n.network) s,
)

-- The transport that the engine's messages go to
unfoldable pub manager_transport : Wired × Transports → Option P2p
manager_transport (n, s) = elim n.manager [ none ↦ none | some i ↦ Dict.get s.objects i ]

-- The transport that the node's Start starts and whose messages it handles
unfoldable pub node_transport : Wired × Transports → Option P2p
node_transport (n, s) = Dict.get s.objects n.network
