-- ===== src/Network/Delivery.antt =====
-- What Send and Broadcast deliver, and which connections they leave.
use evm_oracle.Network.Framing.{Codec}
use evm_oracle.Network.Transport.{
  P2p, send_on, send, Net, send_connected, SendError, connect_with_retry,
}
use evm_oracle.Base.{
  [], ◌∷◌, List, String, ℕ, Bytes, ◌≡◌, Option, some, none, ◌++◌, ◌≢◌, ◌⊎◌, ◌↔◌, inr, string_eq,
  arith, refl, Option-cases, ap, inl,
}
use evm_oracle.Base.Dict
use evm_oracle.Network.Transport.{broadcast}

abbrev pub addressees : List (String × Bytes) → List String
addressees [] = []
addressees ((id, bytes) ∷ rest) = id ∷ addressees rest

send_on-cases :
    (net : Net) (c : Codec) (id : String) (payload : Bytes) (conn : Option ℕ) (t : P2p)
    → let r = send_on net c id payload conn t in
      ((r.0 ≡ none) × (addressees r.2 ≡ id ∷ [])) ⊎ ((r.0 ≢ none) × (r.2 ≡ []))
unfolding send_on
send_on-cases net c id payload none t = inr ((λ e. cc), refl)
send_on-cases net c id payload (some conn) t = ground arith

send_connected-cases :
    (net : Net) (c : Codec) (id : String) (payload : Bytes) (r : Option SendError × P2p)
    → let r = send_connected net c id payload r in
      ((r.0 ≡ none) × (addressees r.2 ≡ id ∷ [])) ⊎ ((r.0 ≢ none) × (r.2 ≡ []))
unfolding send_connected
send_connected-cases net c id payload (some e, t) = inr ((λ z. cc), refl)
send_connected-cases net c id payload (none, t) =
    send_on-cases net c id payload (Dict.get t.connections id) t

-- A Send that returns no error has put one frame on a connection to the peer, and one that returns an
-- error none.
send-cases :
    (net : Net) (c : Codec) (id : String) (payload : Bytes) (t : P2p)
    → let r = send net c id payload t in
      ((r.0 ≡ none) × (addressees r.2 ≡ id ∷ [])) ⊎ ((r.0 ≢ none) × (r.2 ≡ []))
unfolding send
send-cases net c id payload t = elim (Option-cases (Dict.get t.connections id)) [
  | inl e ↦ rw (e, send) (send_connected-cases net c id payload (connect_with_retry net id t))
  | inr (conn, e) ↦ rw (e, send) (send_on-cases net c id payload (some conn) t)
]

addressees-append :
    (xs ys : List (String × Bytes)) → addressees (xs ++ ys) ≡ addressees xs ++ addressees ys
addressees-append [] ys = refl
addressees-append ((id, bytes) ∷ xs) ys = ap (◌∷◌ id) (addressees-append xs ys)

-- Broadcast serves the peers in the order of its range up to the first Send that fails: those served are
-- the first ones of the range, and no error is returned exactly if none is left.
pub broadcast_prefix :
    (net : Net) (c : Codec) (ids : List String) (payload : Bytes) (t : P2p)
    → let r = broadcast net c ids payload t in
      (left : List String) × (ids ≡ addressees r.2 ++ left) × ((r.0 ≡ none) ↔ (left ≡ []))
unfolding broadcast
broadcast_prefix net c [] payload t = ([], refl, ((λ _. refl), (λ _. refl)))
broadcast_prefix net c (id ∷ ids) payload t = elim (send-cases net c id payload t) [
  | inl (done, one) ↦
      let (left, split, over) = broadcast_prefix net c ids payload (send net c id payload t).1 in
      (
        left,
        rw (done, broadcast, addressees-append, one) (ap (◌∷◌ id) split),
        rw (done, broadcast) over,
      )
  | inr (failed, out) ↦ elim (Option-cases (send net c id payload t).0) [
    | inl fine ↦ absurd (failed fine)
    | inr (e, why) ↦
        (id ∷ ids, rw (why, broadcast, out), rw (why, broadcast) ((λ z. cc), (λ z. cc)))
  ]
]
