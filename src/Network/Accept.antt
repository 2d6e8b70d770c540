-- ===== src/Network/Accept.antt =====
-- oracle/pkg/network/p2p.go: Start, handleConnection, isConnectionClosed, and the transport's own ReadMessage,
-- which has no caller. strings.Contains is a parameter.
use evm_oracle.Base.{
  String, List, Bool, Option, some, none, [], ◌∷◌, ℕ, Bytes, true, false, ◌==◌, ◌||◌, if◌then◌else◌,
  ◌++◌, nat_eq, string_eq, ltb, ◌+◌, ◌*◌, length, take, drop,
}
use evm_oracle.Base.Dict.{items}
use evm_oracle.Network.Framing.{Codec, Message, max_message_size}
use evm_oracle.Network.Transport.{P2p, Net, end_connection, receive}

-- The search for the ID of a connection among the entries of the map
unfoldable pub find_peer : ℕ → List (String × ℕ) → Option String
find_peer conn [] = none
find_peer conn ((id, c) ∷ rest) = if c == conn then some id else find_peer conn rest

-- `peerID != ""`
abbrev pub unless_empty : Option String → Option String
unless_empty none = none
unless_empty (some id) = if id == "" then none else some id

-- The bytes are those that come in on the connection until it ends. The first transport is that at the start, the
-- second that after the loop, with what others have made of it meanwhile.
unfoldable pub handle_connection : Net → Codec → ℕ → Bytes → P2p → P2p → List Message × P2p
handle_connection net c conn bytes t later =
    let id = unless_empty (find_peer conn (items t.connections)) in
    (if t.stopped then [] else receive c bytes, end_connection net id later)

-- A connection that the listener has accepted: its number, what comes in on it, and what others make of the
-- transport until it ends
pub record Inbound : Type 0 where
  pub conn : ℕ
  pub bytes : Bytes
  pub meanwhile : P2p → P2p

-- What the channel gets from the connections that the listener accepts, in the order in which they end
unfoldable pub accept_all : Net → Codec → List Inbound → P2p → List Message × P2p
accept_all net c [] t = ([], t)
accept_all net c (a ∷ rest) t =
    let (messages, t') = handle_connection net c a.conn a.bytes t (a.meanwhile t) in
    let (more, t'') = accept_all net c rest t' in (messages ++ more, t'')

-- Start, by whether net.Listen returns no error; `false` is an error. The loop that accepts ends with the
-- transport.
unfoldable pub start_listening : Net → Codec → Bool → List Inbound → P2p → Bool × List Message × P2p
start_listening net c false accepted t = (false, [], t)
start_listening net c true accepted t =
    if t.stopped
    then (true, [], t)
    else (let (messages, t') = accept_all net c accepted t in (true, messages, t'))

-- An error is nil or has a text; the first argument is strings.Contains.
unfoldable pub is_connection_closed : (String → String → Bool) → Option String → Bool
is_connection_closed has none = false
is_connection_closed has (some text) =
    has text "use of closed network connection"
    || has text "connection reset by peer"
    || has text "broken pipe"
    || has text "connection refused"

pub data MethodRead : Type 0 where
  parsed : Message → Bytes → MethodRead
  no_deadline no_length over_limit no_data no_message : MethodRead

abbrev parse : Option Message → Bytes → MethodRead
parse none rest = no_message
parse (some m) rest = parsed m rest

-- What the method does with the length and the bytes behind it
unfoldable pub parse_frame : Codec → ℕ → Bytes → MethodRead
parse_frame c n bytes =
    if ltb max_message_size n
    then over_limit
    else if ltb (length bytes) n
    then no_data
    else parse (c.decode (take n bytes)) (drop n bytes)

-- P2PTransport.ReadMessage, by whether the deadline can be set
unfoldable pub read_with_deadline : Codec → Bool → Bytes → MethodRead
unfolding parse_frame
read_with_deadline c false bytes = no_deadline
read_with_deadline c true (a ∷ b ∷ d ∷ e ∷ rest) =
    parse_frame c (((a * 256 + b) * 256 + d) * 256 + e) rest
read_with_deadline c true _ = no_length
