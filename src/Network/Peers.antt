-- ===== src/Network/Peers.antt =====
-- What discovery knows of the peers.
use mathlib.Core.Option.{map as option_map}
use evm_oracle.Base.Dict
use evm_oracle.Network.Transport.{P2p}
use evm_oracle.Base.{
  String, List, ℕ, arith, inl, ◌≡◌, ◌∷◌, ◌⊎◌, [], some, eq_iff, none, string_eq, refl, inr, Option,
  ◌∙◌, ap,
}
use evm_oracle.Network.Discovery.{
  receive_peer, receive_peers, handle_discovery_message, PeerInfo, Pointer, DiscoveryMessage,
  PeerDiscovery, loop_variable, with_sender, last_peer, sender_info, pointed, own,
}
use evm_oracle.Base.Dict.{Dict, get-put}

-- What a message changes under an ID
abbrev Kept : Dict String Pointer → Dict String Pointer → String → Type 0
Kept before after id =
    (Dict.get after id ≡ Dict.get before id) ⊎ (Dict.get after id ≡ some loop_variable)

receive_peer-Kept :
    (peer : PeerInfo) (s : Dict String Pointer × P2p) (id : String)
    → Kept s.0 (receive_peer peer s).0 id
unfolding receive_peer
receive_peer-Kept peer (known, t) id =
    ground (arith, get-put known peer.node_id id loop_variable, eq_iff peer.node_id id)

receive_peers-Kept :
    (peers : List PeerInfo) (s : Dict String Pointer × P2p) (id : String)
    → Kept s.0 (receive_peers peers s).0 id
unfolding receive_peers
receive_peers-Kept [] s id = inl refl
receive_peers-Kept (peer ∷ rest) s id =
    ground (arith, receive_peers-Kept rest (receive_peer peer s) id, receive_peer-Kept peer s id)

pointed-own :
    (variable : PeerInfo) (o : Option PeerInfo)
    → option_map (pointed variable) (option_map own o) ≡ o
unfolding pointed
pointed-own variable none = refl
pointed-own variable (some p) = refl

pointed-Kept :
    (variable : PeerInfo) (before : Dict String PeerInfo) (after : Dict String Pointer)
    (id : String)
    → Kept (Dict.map_values own before) after id
    → (Dict.get (Dict.map_values (pointed variable) after) id ≡ Dict.get before id)
      ⊎ (Dict.get (Dict.map_values (pointed variable) after) id ≡ some variable)
unfolding pointed
pointed-Kept variable before after id (inl same) = inl (
    Dict.get-map_values (pointed variable) after id
    ∙ ap (option_map (pointed variable)) (same ∙ Dict.get-map_values own before id)
    ∙ pointed-own variable (Dict.get before id))
pointed-Kept variable before after id (inr new) =
    inr (Dict.get-map_values (pointed variable) after id ∙ ap (option_map (pointed variable)) new)

-- A discovery message with peers leaves under each ID what was there, with the sender's record added, or
-- else the last peer of the message: every peer that the message adds or renews is recorded as the last
-- one, since all of them are pointers to the variable of one loop.
pub handle_discovery_message-aliases :
    (now : ℕ) (m : DiscoveryMessage) (pd : PeerDiscovery) (t : P2p) (id : String)
    → let known = (handle_discovery_message now m pd t).0.known_peers in
      (Dict.get known id ≡ Dict.get (with_sender now m pd) id)
      ⊎ (Dict.get known id ≡ some (last_peer (sender_info now m pd) m.peers))
unfolding handle_discovery_message
handle_discovery_message-aliases now m pd t id =
    let variable = last_peer (sender_info now m pd) m.peers in
    let before = with_sender now m pd in
    let start : Dict String Pointer × P2p = (Dict.map_values own before, t) in
    pointed-Kept variable before (receive_peers m.peers start).0 id
      (receive_peers-Kept m.peers start id)
