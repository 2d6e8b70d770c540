-- ===== src/Network/Endings.antt =====
-- What the end of a connection leaves behind.
use evm_oracle.Network.Accept.{handle_connection, find_peer}
use evm_oracle.Network.Transport.{
  Net, P2p, dial_peer, connect_with_retry, close_connection, end_connection, connection_failure,
}
use evm_oracle.Base.{
  String, Bool, Option, some, none, ℕ, Bytes, true, false, ◌==◌, if◌then◌else◌, string_eq, nat_eq,
  ◌≡◌, refl, ◌≢◌, ap, sym, ==_sound, ◌∙◌, Bool-cases, inl, inr, ==_refl,
}
use evm_oracle.Base.Dict
use evm_oracle.Base.Dict.{items, get-put, get-delete}
use evm_oracle.Network.Framing.{Codec}

-- What a dial of a peer gives
abbrev pub redialled : Net → Option String → Option ℕ
redialled net none = none
redialled net (some address) = net.dial address

-- The connections after the end of a peer's connection: the peer's is dialled again, unless the transport has
-- been stopped, and there is none if the dial fails; those of other peers stay.
abbrev pub after_end : Net → P2p → String → String → Option ℕ
after_end net t id j =
    if id == j
    then (if t.stopped then none else redialled net (Dict.get t.peers id))
    else Dict.get t.connections j

free_at :
    (id j : String) (t : P2p) (e : Bool)
    → (id == j) ≡ e
    → Dict.get t.connections id ≡ none
    → Dict.get t.connections j ≡ (if e then none else Dict.get t.connections j)
free_at id j t true e free = ap (Dict.get t.connections) (sym (==_sound id j e)) ∙ free
free_at id j t false e free = refl

dialled :
    (net : Net) (id j : String) (t : P2p) (o : Option ℕ)
    → Dict.get t.connections id ≡ none
    → Dict.get (dial_peer net id o t).1.connections j
      ≡ (if id == j then o else Dict.get t.connections j)
unfolding dial_peer
dialled net id j t none free = free_at id j t (id == j) refl free
dialled net id j t (some conn) free = get-put t.connections id j conn

reconnected :
    (net : Net) (id j : String) (t : P2p) (address : Option String)
    → Dict.get t.peers id ≡ address
    → Dict.get t.connections id ≡ none
    → Dict.get (connect_with_retry net id t).1.connections j
      ≡ (if id == j then redialled net address else Dict.get t.connections j)
unfolding connect_with_retry
reconnected net id j t none e free = rw (e, connect_with_retry) (free_at id j t (id == j) refl free)
reconnected net id j t (some address) e free =
    rw (e, free, connect_with_retry) (dialled net id j t (net.dial address) free)

closed :
    (id j : String) (t : P2p)
    → Dict.get (close_connection id t).connections j
      ≡ (if id == j then none else Dict.get t.connections j)
unfolding close_connection
closed id j t = get-delete t.connections id j

without_it :
    (id j : String) (t : P2p) (o : Option ℕ)
    → (if id == j then o else Dict.get (close_connection id t).connections j)
      ≡ (if id == j then o else Dict.get t.connections j)
without_it id j t o = elim (Bool-cases (id == j)) [
  | inl e ↦ rw e refl
  | inr e ↦ rw (e, closed id j t) (rw e refl)
]

get-if :
    (b : Bool) (x y : P2p) (j : String)
    → Dict.get (if b then x else y).connections j
      ≡ (if b then Dict.get x.connections j else Dict.get y.connections j)
get-if true x y j = refl
get-if false x y j = refl

in_each {ℓ} :
    {A : Type ℓ} (b e : Bool) (x y p q r : A)
    → x ≡ (if e then p else r)
    → y ≡ (if e then q else r)
    → (if b then x else y) ≡ (if e then (if b then p else q) else r)
in_each true e x y p q r hx hy = hx
in_each false e x y p q r hx hy = hy

ended :
    (net : Net) (id j : String) (t : P2p)
    → Dict.get (end_connection net (some id) t).connections j ≡ after_end net t id j
unfolding end_connection connection_failure close_connection
ended net id j t =
    get-if t.stopped (close_connection id t) (connect_with_retry net id (close_connection id t)).1 j
    ∙ in_each t.stopped (id == j) _ _ none (redialled net (Dict.get t.peers id)) _ (closed id j t) (
        reconnected net id j (close_connection id t) (Dict.get t.peers id) refl
          (closed id id t ∙ rw (==_refl id) refl)
        ∙ without_it id j t (redialled net (Dict.get t.peers id)))

not_empty : (id : String) → some id ≢ some "" → (id == "") ≡ false
not_empty id h = elim (Bool-cases (id == "")) [
  | inl e ↦ absurd (h (ap some (==_sound id "" e)))
  | inr e ↦ e
]

-- What the end of a connection leaves of a transport, by the peer that has the connection
abbrev pub Leaves : Net → P2p → Option String → String → P2p → Type 0
Leaves net t none j t' = t' ≡ t
Leaves net t (some id) j t' = Dict.get t'.connections j ≡ after_end net t id j

-- The end of a connection that the transport had for a peer with a non-empty ID when the connection began: what
-- the transport has for this peer by then is closed, even if it is another connection, and the peer's address is
-- dialled again, unless the transport has been stopped; the peer has the new connection, or none where there is
-- no address or the dial fails, and the connections of all other peers stay. The end of a connection that the
-- transport had for no peer, as those that it has accepted, changes nothing, even if the connection has been
-- stored for a peer since.
pub handle_connection-ends :
    (net : Net) (c : Codec) (conn : ℕ) (bytes : Bytes) (t later : P2p) (peer : Option String)
    (j : String)
    → peer ≢ some ""
    → find_peer conn (items t.connections) ≡ peer
    → Leaves net later peer j (handle_connection net c conn bytes t later).1
unfolding handle_connection end_connection
handle_connection-ends net c conn bytes t later none j named e = rw e refl
handle_connection-ends net c conn bytes t later (some id) j named e =
    rw (e, not_empty id named) (ended net id j later)
