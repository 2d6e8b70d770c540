-- ===== src/Network/Failures.antt =====
-- What a Send that fails in a write leaves.
use evm_oracle.Base.Dict.{get-put, get-delete, get-empty}
use evm_oracle.Network.Framing.{Codec}
use evm_oracle.Base.{
  String, ℕ, arith, Option, Option-cases, Bytes, ◌≡◌, inl, some, none, inr, string_eq, ◌⊎◌, ==_refl,
}
use evm_oracle.Base.Dict
use evm_oracle.Network.Transport.{
  P2p, connect_with_retry, close_connection, send_on, send_connected, send, Net, SendError,
  length_failed, data_failed,
}

abbrev pub WriteFailed : Option SendError → Type 0
WriteFailed r = (r ≡ some length_failed) ⊎ (r ≡ some data_failed)

send_on-disconnects :
    (net : Net) (c : Codec) (id : String) (payload : Bytes) (conn : Option ℕ) (t : P2p)
    → WriteFailed (send_on net c id payload conn t).0
    → Dict.get (send_on net c id payload conn t).1.connections id ≡ none
unfolding send_on close_connection
send_on-disconnects net c id payload none t h = ground arith
send_on-disconnects net c id payload (some conn) t h =
    ground (arith, get-delete t.connections id id, ==_refl id)

connect-no_write :
    (net : Net) (id : String) (t : P2p) → ¬ WriteFailed (connect_with_retry net id t).0
unfolding connect_with_retry
connect-no_write net id t (inl e) = ground arith
connect-no_write net id t (inr e) = ground arith

send_connected-disconnects :
    (net : Net) (c : Codec) (id : String) (payload : Bytes) (r : Option SendError × P2p)
    → ¬ WriteFailed r.0
    → WriteFailed (send_connected net c id payload r).0
    → Dict.get (send_connected net c id payload r).1.connections id ≡ none
unfolding send_connected
send_connected-disconnects net c id payload (some e, t) other h = absurd (other h)
send_connected-disconnects net c id payload (none, t) other h =
    send_on-disconnects net c id payload (Dict.get t.connections id) t h

-- A Send that fails in the write of the length or of the data leaves no connection to the peer, so that
-- the next one dials again.
failed_write-disconnects :
    (net : Net) (c : Codec) (id : String) (payload : Bytes) (t : P2p)
    → WriteFailed (send net c id payload t).0
    → Dict.get (send net c id payload t).1.connections id ≡ none
unfolding send
failed_write-disconnects net c id payload t = elim (Option-cases (Dict.get t.connections id)) [
  | inl e ↦
      rw (e, send)
        (send_connected-disconnects net c id payload (connect_with_retry net id t)
          (connect-no_write net id t))
  | inr (conn, e) ↦ rw (e, send) (send_on-disconnects net c id payload (some conn) t)
]
