-- ===== src/Network/Connections.antt =====
-- Which connections a transport can hold.
use evm_oracle.Base.Dict.{get-put, get-delete, get-empty}
use evm_oracle.Network.Framing.{Codec}
use evm_oracle.Base.{
  String, ℕ, arith, Option, Option-cases, true, Bytes, ◌≡◌, ◌≢◌, List, inl, some, none, ◌∷◌, inr,
  eq_iff, string_eq, [], if_cases,
}
use evm_oracle.Base.Dict
use evm_oracle.Network.Transport.{
  broadcast, P2p, register_peer, dial_peer, connect, connect_with_retry, close_connection, send_on,
  send_connected, send, Net, stop, reconnect, SendError, end_connection, connection_failure,
}

-- What is done to a transport: its methods and the end of a connection, each with what the sockets do
pub data Operation : Type 0 where
  registers : String → String → Operation
  connects reconnects : Net → String → Operation
  sends : Net → Codec → String → Bytes → Operation
  broadcasts : Net → Codec → List String → Bytes → Operation
  closes : String → Operation
  ends : Net → Option String → Operation
  stops : Operation

unfoldable pub perform : Operation → P2p → P2p
perform (registers id address) t = register_peer id address t
perform (connects net id) t = (connect net id t).1
perform (reconnects net id) t = (reconnect net id t).1
perform (sends net c id payload) t = (send net c id payload t).1
perform (broadcasts net c ids payload) t = (broadcast net c ids payload t).1
perform (closes id) t = close_connection id t
perform (ends net peer) t = end_connection net peer t
perform stops t = stop t

-- Every connection is one to a registered peer.
pub record Registration (t : P2p) : Type 0 where
  pub known :
      (id : String) (conn : ℕ) → Dict.get t.connections id ≡ some conn → Dict.get t.peers id ≢ none

-- Shut, so that the tactics pass it on whole.
unfoldable pub IsRegistered : P2p → Type 0
IsRegistered t = Registration t

register-IsRegistered :
    (id address : String) (t : P2p) → IsRegistered t → IsRegistered (register_peer id address t)
unfolding IsRegistered register_peer
register-IsRegistered id address t w = record {
  known = λ j c e. ground (arith, get-put t.peers id j address, w.known j c);
}

dial-IsRegistered :
    (net : Net) (id : String) (dialled : Option ℕ) (t : P2p)
    → Dict.get t.peers id ≢ none
    → IsRegistered t
    → IsRegistered (dial_peer net id dialled t).1
unfolding IsRegistered dial_peer
dial-IsRegistered net id none t h w = w
dial-IsRegistered net id (some conn) t h w = record {
  known = λ j c e. ground (arith, get-put t.connections id j conn, w.known j c, eq_iff id j);
}

connect-IsRegistered :
    (net : Net) (id : String) (t : P2p) → IsRegistered t → IsRegistered (connect net id t).1
unfolding connect
connect-IsRegistered net id t w = elim (Option-cases (Dict.get t.peers id)) [
  | inl e ↦ rw (e, connect) w
  | inr (address, e) ↦ rw (e, connect) (dial-IsRegistered net id (net.dial address) t (λ z. cc) w)
]

connect_with_retry-IsRegistered :
    (net : Net) (id : String) (t : P2p)
    → IsRegistered t
    → IsRegistered (connect_with_retry net id t).1
unfolding connect_with_retry
connect_with_retry-IsRegistered net id t w = elim (Option-cases (Dict.get t.peers id)) [
  | inl e ↦ rw (e, connect_with_retry) w
  | inr (address, e) ↦
      let dialled = dial-IsRegistered net id (net.dial address) t (λ z. cc) w in
      rw (e, connect_with_retry) (ground (arith, w, dialled))
]

close-IsRegistered : (id : String) (t : P2p) → IsRegistered t → IsRegistered (close_connection id t)
unfolding IsRegistered close_connection
close-IsRegistered id t w = record {
  known = λ j c e. ground (arith, get-delete t.connections id j, w.known j c);
}

send_on-IsRegistered :
    (net : Net) (c : Codec) (id : String) (payload : Bytes) (conn : Option ℕ) (t : P2p)
    → IsRegistered t
    → IsRegistered (send_on net c id payload conn t).1
unfolding send_on
send_on-IsRegistered net c id payload none t w = w
send_on-IsRegistered net c id payload (some conn) t w = ground (arith, w, close-IsRegistered id t w)

send_connected-IsRegistered :
    (net : Net) (c : Codec) (id : String) (payload : Bytes) (r : Option SendError × P2p)
    → IsRegistered r.1
    → IsRegistered (send_connected net c id payload r).1
unfolding send_connected
send_connected-IsRegistered net c id payload (some e, t) w = w
send_connected-IsRegistered net c id payload (none, t) w =
    send_on-IsRegistered net c id payload (Dict.get t.connections id) t w

send-IsRegistered :
    (net : Net) (c : Codec) (id : String) (payload : Bytes) (t : P2p)
    → IsRegistered t
    → IsRegistered (send net c id payload t).1
unfolding send
send-IsRegistered net c id payload t w = elim (Option-cases (Dict.get t.connections id)) [
  | inl e ↦
      rw (e, send)
        (send_connected-IsRegistered net c id payload (connect_with_retry net id t)
          (connect_with_retry-IsRegistered net id t w))
  | inr (conn, e) ↦ rw (e, send) (send_on-IsRegistered net c id payload (some conn) t w)
]

broadcast-IsRegistered :
    (net : Net) (c : Codec) (ids : List String) (payload : Bytes) (t : P2p)
    → IsRegistered t
    → IsRegistered (broadcast net c ids payload t).1
unfolding broadcast
broadcast-IsRegistered net c [] payload t w = w
broadcast-IsRegistered net c (id ∷ ids) payload t w =
    let sent = send-IsRegistered net c id payload t w in
    ground (arith, sent, broadcast-IsRegistered net c ids payload (send net c id payload t).1 sent)

stop-IsRegistered : (t : P2p) → IsRegistered t → IsRegistered (stop t)
unfolding stop
stop-IsRegistered t w = ground (arith, w, none_left)
  where
    none_left : IsRegistered (record t { stopped = true; connections = Dict.empty })
    none_left = unfold IsRegistered in record { known = λ j c e. absurd (cc (get-empty {V = ℕ} j)) }

end-IsRegistered :
    (net : Net) (peer : Option String) (t : P2p)
    → IsRegistered t
    → IsRegistered (end_connection net peer t)
unfolding end_connection connection_failure
end-IsRegistered net none t w = w
end-IsRegistered net (some id) t w =
    let closed = close-IsRegistered id t w in
    if_cases IsRegistered (close_connection id t).stopped _ _ (λ _. closed)
      (λ _. connect_with_retry-IsRegistered net id (close_connection id t) closed)

-- Where every connection is one to a registered peer, it is so after every method of the transport,
-- whatever the sockets do.
pub perform-IsRegistered : (op : Operation) (t : P2p) → IsRegistered t → IsRegistered (perform op t)
unfolding perform
perform-IsRegistered (registers id address) t w = register-IsRegistered id address t w
perform-IsRegistered (connects net id) t w = connect-IsRegistered net id t w
perform-IsRegistered (reconnects net id) t w =
    unfold reconnect in connect-IsRegistered net id _ (close-IsRegistered id t w)
perform-IsRegistered (sends net c id payload) t w = send-IsRegistered net c id payload t w
perform-IsRegistered (broadcasts net c ids payload) t w =
    broadcast-IsRegistered net c ids payload t w
perform-IsRegistered (closes id) t w = close-IsRegistered id t w
perform-IsRegistered (ends net peer) t w = end-IsRegistered net peer t w
perform-IsRegistered stops t w = stop-IsRegistered t w
