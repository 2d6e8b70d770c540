-- ===== src/Network/Transport.antt =====
-- oracle/pkg/network/p2p.go: peers, connections, sending and receiving. A connection is a number; what
-- the sockets do in one call is a parameter. The locks, the listener and the goroutines are left out.
use Prim.Native.Nat.{zero}
use evm_oracle.Base.Dict.{Dict}
use evm_oracle.Network.Framing.{Codec, Message, be32, read_message, got, failed}
use evm_oracle.Base.{
  [], ◌∷◌, String, Option, if◌then◌else◌, List, ℕ, Bytes, true, Bool, false, some, none, not, ◌++◌,
  length, suc, string_eq,
}
use evm_oracle.Base.Dict

pub record P2p : Type 0 where
  pub node_id : String
  pub address : String
  pub peers : Dict String String
  pub connections : Dict String ℕ
  pub stopped : Bool
  pub version : String

unfoldable pub new_p2p : String → String → List String → P2p
new_p2p node_id address [] = record {
  node_id = node_id;
  address = address;
  peers = Dict.empty;
  connections = Dict.empty;
  stopped = false;
  version = "1.0.0";
}
new_p2p node_id address (version ∷ opts) = record {
  node_id = node_id;
  address = address;
  peers = Dict.empty;
  connections = Dict.empty;
  stopped = false;
  version = version;
}

-- net.DialTimeout, SetWriteDeadline, and the writes of the length and of the data
pub record Net : Type 0 where
  pub dial : String → Option ℕ
  pub sets_deadline : ℕ → Bool
  pub takes_length : ℕ → Bool
  pub takes_data : ℕ → Bool

pub data SendError : Type 0 where
  unknown_peer dial_failed nil_connection marshal_failed : SendError
  deadline_failed length_failed data_failed : SendError

unfoldable pub register_peer : String → String → P2p → P2p
register_peer id address t = record t { peers = Dict.put t.peers id address }

unfoldable pub dial_peer : Net → String → Option ℕ → P2p → Option SendError × P2p
dial_peer net id none t = (some dial_failed, t)
dial_peer net id (some conn) t = (none, record t { connections = Dict.put t.connections id conn })

unfoldable pub connect_with_retry : Net → String → P2p → Option SendError × P2p
unfolding dial_peer
connect_with_retry net id t = elim (Dict.get t.peers id) [
  | none ↦ (some unknown_peer, t)
  | some address ↦ elim (Dict.get t.connections id) [
    | some conn ↦ (none, t)
    | none ↦ dial_peer net id (net.dial address) t
  ]
]

-- connect: like the above, but it dials also where there is a connection
unfoldable pub connect : Net → String → P2p → Option SendError × P2p
unfolding dial_peer
connect net id t = elim (Dict.get t.peers id) [
  | none ↦ (some unknown_peer, t)
  | some address ↦ dial_peer net id (net.dial address) t
]

unfoldable pub close_connection : String → P2p → P2p
close_connection id t = record t { connections = Dict.delete t.connections id }

unfoldable pub reconnect : Net → String → P2p → Option SendError × P2p
reconnect net id t = connect net id (close_connection id t)

-- handleConnectionFailure
unfoldable pub connection_failure : Net → String → P2p → P2p
connection_failure net id t = if t.stopped then t else (connect_with_retry net id t).1

-- What handleConnection does when its loop has ended; `none` is a connection that no peer is known for.
unfoldable pub end_connection : Net → Option String → P2p → P2p
end_connection net none t = t
end_connection net (some id) t = connection_failure net id (close_connection id t)

-- What a Send returns, the state, and the frame that went out, with its addressee
abbrev pub Sent : Type 0
Sent = Option SendError × P2p × List (String × Bytes)

-- The part of Send behind the look-up of the connection
unfoldable pub send_on : Net → Codec → String → Bytes → Option ℕ → P2p → Sent
send_on net c id payload none t = (some nil_connection, t, [])
send_on net c id payload (some conn) t =
    elim (c.encode (record { from = t.node_id; to = id; payload = payload })) [
      | none ↦ (some marshal_failed, t, [])
      | some bytes ↦
          if not (net.sets_deadline conn)
          then (some deadline_failed, t, [])
          else if not (net.takes_length conn)
          then (some length_failed, close_connection id t, [])
          else if not (net.takes_data conn)
          then (some data_failed, close_connection id t, [])
          else (none, t, (id, be32 (length bytes) ++ bytes) ∷ [])
    ]

unfoldable pub send_connected : Net → Codec → String → Bytes → Option SendError × P2p → Sent
send_connected net c id payload (some e, t) = (some e, t, [])
send_connected net c id payload (none, t) = send_on net c id payload (Dict.get t.connections id) t

unfoldable pub send : Net → Codec → String → Bytes → P2p → Sent
unfolding send_connected
send net c id payload t = elim (Dict.get t.connections id) [
  | some conn ↦ send_on net c id payload (some conn) t
  | none ↦ send_connected net c id payload (connect_with_retry net id t)
]

-- The peers are those of the map, in the order in which the range gives them out.
unfoldable pub broadcast : Net → Codec → List String → Bytes → P2p → Sent
broadcast net c [] payload t = (none, t, [])
broadcast net c (id ∷ ids) payload t =
    let (failure, t', out) = send net c id payload t in
    let rest = broadcast net c ids payload t' in
    elim failure [ some e ↦ (some e, t', out) | none ↦ (rest.0, rest.1, out ++ rest.2) ]

unfoldable pub stop : P2p → P2p
stop t = if t.stopped then t else record t { stopped = true; connections = Dict.empty }

-- The loop of handleConnection on the bytes that come in: what it puts into the channel. A round takes
-- at least four bytes, so their number is fuel enough.
unfoldable pub receive_loop : Codec → ℕ → Bytes → List Message
receive_loop c zero bytes = []
receive_loop c (suc fuel) bytes = elim (read_message c bytes) [
  | got m rest ↦ m ∷ receive_loop c fuel rest
  | failed e ↦ []
]

unfoldable pub receive : Codec → Bytes → List Message
unfolding receive_loop
receive c bytes = receive_loop c (length bytes) bytes
