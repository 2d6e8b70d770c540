-- ===== src/Network/Examples.antt =====
-- The theorems on the transport at small messages and sockets.
-- A codec for the messages of "a" to "b" and to "c"
use evm_oracle.Network.Outages.{
  failures_at, outage, pings_of, healthy_at, last_succeeded, check_all-outage,
}
use evm_oracle.Network.Health.{Ping, check_all}
use evm_oracle.Network.Endings.{handle_connection-ends}
use evm_oracle.Network.Accept.{find_peer, handle_connection}
use evm_oracle.Network.Transport
use evm_oracle.Network.Peers.{handle_discovery_message-aliases}
use evm_oracle.Network.Discovery.{
  PeerInfo, PeerDiscovery, DiscoveryMessage, handle_discovery_message, with_sender, receive_peers,
  last_peer, receive_peer, sender_info, is_news, pointed,
}
use evm_oracle.Base.Dict.{get-empty, items}
use evm_oracle.Network.Delivery.{addressees, broadcast_prefix}
use evm_oracle.Network.Streams.{stream, receive-stream}
use evm_oracle.Base.Dict
use evm_oracle.Network.Connections.{IsRegistered, perform, registers, perform-IsRegistered}
use evm_oracle.Network.Failures.{WriteFailed}
use evm_oracle.Network.Transport.{broadcast}
use evm_oracle.Network.Transport.{receive, Net, P2p, send, send_on, new_p2p}
use evm_oracle.Base.{
  Bytes, List, Option, arith, ◌∷◌, ◌≡◌, some, false, String, if◌then◌else◌, eq_iff, [], none, ◌++◌,
  true, string_eq, ◌==◌, inl, ◌&&◌, ◌⊎◌, ◌↔◌, refl, nat_eq, ℕ,
}
use evm_oracle.Network.Framing.{
  Message, Codec, RoundTrips, Writer, read_message, failed, read_length_failed,
}

abbrev encode_small : Message → Option Bytes
encode_small m =
    if m.from == "a" && m.to == "b"
    then some (1 ∷ m.payload)
    else if m.from == "a" && m.to == "c"
    then some (2 ∷ m.payload)
    else none

abbrev decode_small : Bytes → Option Message
decode_small [] = none
decode_small (tag ∷ bytes) =
    some (record { from = "a"; to = if tag == 1 then "b" else "c"; payload = bytes })

abbrev plain : Codec
plain = record { encode = encode_small; decode = decode_small }

plain-RoundTrips : RoundTrips plain
plain-RoundTrips m bytes e = ground (arith, eq_iff m.from "a", eq_iff m.to "b", eq_iff m.to "c")

abbrev hello : Message
hello = record { from = "a"; to = "b"; payload = 5 ∷ 6 ∷ [] }

abbrev empty_writer : Writer
empty_writer = record { written = 1 ∷ []; room = 20 }

abbrev batch : List (Message × Bytes)
batch = (hello, 1 ∷ 5 ∷ 6 ∷ []) ∷ (hello, 1 ∷ 5 ∷ 6 ∷ []) ∷ []

ends : read_message plain (0 ∷ []) ≡ failed read_length_failed
unfolding read_message
ends = refl

receive-stream_example : receive plain (stream batch ++ 0 ∷ []) ≡ hello ∷ hello ∷ []
receive-stream_example =
    receive-stream plain batch (0 ∷ []) read_length_failed plain-RoundTrips
      ((refl, omega arith), ((refl, omega arith), tt)) ends

-- The socket 7 takes nothing.
abbrev sockets : Net
sockets = record {
  dial = λ address. some 3;
  sets_deadline = λ c. true;
  takes_length = λ c. c == 3;
  takes_data = λ c. true;
}

abbrev transport : P2p
transport = record {
  node_id = "a";
  address = "x";
  peers = Dict.put (Dict.put Dict.empty "b" "y") "c" "z";
  connections = Dict.put Dict.empty "c" 7;
  stopped = false;
  version = "1.0.0";
}

abbrev range_order : List String
range_order = "b" ∷ "c" ∷ []

broadcast_prefix_example :
    let r = broadcast sockets plain range_order (5 ∷ []) transport in
    (left : List String) × (range_order ≡ addressees r.2 ++ left) × ((r.0 ≡ none) ↔ (left ≡ []))
broadcast_prefix_example = broadcast_prefix sockets plain range_order (5 ∷ []) transport

fails_at_c : WriteFailed (send sockets plain "c" (5 ∷ []) transport).0
unfolding send send_on Dict.get Dict.put Dict.empty
fails_at_c = inl refl

fresh_transport : IsRegistered (new_p2p "a" "x" [])
unfolding IsRegistered new_p2p
fresh_transport = record { known = λ id conn e. absurd (cc (get-empty {V = ℕ} id)) }

perform-IsRegistered_example : IsRegistered (perform (registers "b" "y") (new_p2p "a" "x" []))
perform-IsRegistered_example =
    perform-IsRegistered (registers "b" "y") (new_p2p "a" "x" []) fresh_transport

abbrev known_peer : String → ℕ → PeerInfo
known_peer id seen = record { node_id = id; address = "x"; last_seen = seen; version = "1.0.0" }

abbrev discovery : PeerDiscovery
discovery = record {
  known_peers = Dict.put Dict.empty "c" (known_peer "c" 0);
  stopped = false;
  version = "1.0.0";
}

-- Two new peers, and the sender
abbrev introduction : DiscoveryMessage
introduction = record {
  kind = "discovery";
  peers = known_peer "d" 3 ∷ known_peer "e" 4 ∷ [];
  node_id = "b";
  address = "y";
}

handle_discovery_message-aliases_example :
    let known = (handle_discovery_message 9 introduction discovery transport).0.known_peers in
    (Dict.get known "d" ≡ Dict.get (with_sender 9 introduction discovery) "d")
    ⊎ (Dict.get known "d"
        ≡ some (last_peer (sender_info 9 introduction discovery) introduction.peers))
handle_discovery_message-aliases_example =
    handle_discovery_message-aliases 9 introduction discovery transport "d"

peer_d_is_e :
    Dict.get (handle_discovery_message 9 introduction discovery transport).0.known_peers "d"
    ≡ some (known_peer "e" 4)
unfolding handle_discovery_message receive_peers receive_peer is_news with_sender last_peer pointed
    Dict.get Dict.put Dict.empty Dict.map_values Transport.register_peer
peer_d_is_e = refl

-- The connection 7 of the peer c ends, when a failed write has removed it and it has been replaced.
handle_connection-ends_example :
    let later = record transport { connections = Dict.put Dict.empty "c" 9 } in
    Dict.get (handle_connection sockets plain 7 [] transport later).1.connections "c" ≡ some 3
unfolding Dict.put Dict.empty Dict.get items find_peer
handle_connection-ends_example =
    handle_connection-ends sockets plain 7 [] transport
      (record transport { connections = Dict.put Dict.empty "c" 9 }) (some "c") "c" (λ e. cc) refl

-- c fails twice after a success, with a failure of b between.
abbrev pings : List (String × Ping)
pings =
    ("c", record { started = 0; ended = 1; failed = false })
    ∷ ("c", record { started = 2; ended = 3; failed = true })
    ∷ ("b", record { started = 2; ended = 3; failed = true })
    ∷ ("c", record { started = 4; ended = 5; failed = true })
    ∷ []

check_all-outage_example :
    (failures_at (check_all pings Dict.empty) "c"
      ≡ outage (failures_at Dict.empty "c") (pings_of "c" pings))
    × (healthy_at (check_all pings Dict.empty) "c"
        ≡ last_succeeded (healthy_at Dict.empty "c") (pings_of "c" pings))
check_all-outage_example = check_all-outage pings Dict.empty "c"
