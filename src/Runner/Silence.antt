-- ===== src/Runner/Silence.antt =====
-- Whom the engine of a node of run_node.go reaches.
use evm_oracle.Storage.Pinata.{new_pinata_client}
use evm_oracle.Llm.Client.{new_openai_client}
use evm_oracle.Config.Loader.{ConfigTools, GlobalConfig, load_config, fresh_package}
use mathlib.Core.Option.{some-injective}
use evm_oracle.Node.Wiring.{peered}
use evm_oracle.Network.Framing.{Codec}
use evm_oracle.Base.Dict.{keys, keys-put, keys-empty, get-put}
use evm_oracle.Node.Wiring.{
  Transports, manager_transport, node_transport, new_transport, wire_peer, wire_node, Wired,
  set_transport, wire_consensus,
}
use evm_oracle.Runner.Setup.{Formats, peers_of, id_ok}
use evm_oracle.Runner.Start.{
  wire_peers, wire_runner, start_runner, Runner, bad_id, config_failed, nil_config_panic,
  client_failed, client_config, storage_failed,
}
use evm_oracle.Network.Transport.{P2p, new_p2p, Net}
use evm_oracle.Base.Dict
use evm_oracle.Network.Transport
use evm_oracle.Base.{
  String, ℕ, Option, some, none, ◌+◌, Bytes, List, ◌∷◌, [], All, contains, true, false, ◌≡◌, ◌==◌,
  arith, refl, nat_eq, string_eq, ◌∙◌, ==_refl, subst, sym, ap, not,
}
use evm_oracle.Base.Results.{ok, bind_ok, then_ok, ok_same, or_fail, or_error}

-- The peers that the addresses of a list make of those of a transport
abbrev with_peers : List (String × String) → P2p → P2p
with_peers [] t = t
with_peers ((id, address) ∷ rest) t = with_peers rest (Transport.register_peer id address t)

peered-other :
    (network j : ℕ) (id address : String) (o : Option P2p) (s : Transports)
    → (network == j) ≡ false
    → Dict.get (peered network id address o s).objects j ≡ Dict.get s.objects j
peered-other network j id address none s h = refl
peered-other network j id address (some t) s h = rw (get-put, h) refl

peered-own :
    (network : ℕ) (id address : String) (o : Option P2p) (s : Transports) (t : P2p)
    → o ≡ some t
    → Dict.get (peered network id address o s).objects network
      ≡ some (Transport.register_peer id address t)
peered-own network id address none s t e = cc
peered-own network id address (some u) s t e =
    rw (get-put, ==_refl network)
      (ap (λ v. some (Transport.register_peer id address v)) (some-injective _ _ e))

manager_stays :
    (ps : List (String × String)) (n : Wired) (s : Transports) (i : ℕ)
    → n.manager ≡ some i
    → (n.network == i) ≡ false
    → manager_transport (wire_peers ps (n, s)) ≡ Dict.get s.objects i
unfolding wire_peers manager_transport wire_peer
manager_stays [] n s i e h = rw e refl
manager_stays ((id, address) ∷ ps) n s i e h =
    manager_stays ps _ _ i e h
    ∙ peered-other n.network i id address (Dict.get s.objects n.network) s h

node_knows :
    (ps : List (String × String)) (n : Wired) (s : Transports) (t : P2p)
    → Dict.get s.objects n.network ≡ some t
    → node_transport (wire_peers ps (n, s)) ≡ some (with_peers ps t)
unfolding wire_peers node_transport wire_peer
node_knows [] n s t e = e
node_knows ((id, address) ∷ ps) n s t e =
    node_knows ps _ _ (Transport.register_peer id address t)
      (peered-own n.network id address _ s t e)

keeps-known :
    (ps : List (String × String)) (t : P2p) (j : String)
    → contains (keys t.peers) j ≡ true
    → contains (keys (with_peers ps t).peers) j ≡ true
unfolding Transport.register_peer
keeps-known [] t j h = h
keeps-known ((id, address) ∷ ps) t j h =
    keeps-known ps _ j (ground (arith, keys-put t.peers id j address))

-- A transport that has an address for each peer of a list
abbrev pub Knows : List (String × String) → Option P2p → Type 0
Knows ps none = ⊥
Knows ps (some t) = All (λ p. contains (keys t.peers) p.0 ≡ true) ps

all-known :
    (ps : List (String × String)) (t : P2p)
    → All (λ p. contains (keys (with_peers ps t).peers) p.0 ≡ true) ps
unfolding Transport.register_peer
all-known [] t = tt
all-known ((id, address) ∷ ps) t = (
  keeps-known ps _ id (ground (arith, keys-put t.peers id id address, ==_refl id)),
  all-known ps _,
)

-- The transport that NewOracleNode makes
abbrev pub first_transport : Formats → ℕ → ℕ → P2p
first_transport fmt node_id base_port =
    new_p2p (fmt.node_name node_id) (fmt.address (base_port + node_id)) []

silent :
    (fmt : Formats) (node_id base_port : ℕ)
    → manager_transport (wire_runner fmt node_id base_port)
      ≡ some (first_transport fmt node_id base_port)
unfolding wire_runner new_transport wire_node set_transport wire_consensus
silent fmt node_id base_port =
    manager_stays (peers_of fmt node_id base_port) _ _ 1 refl refl ∙ rw get-put refl

knowing :
    (fmt : Formats) (node_id base_port : ℕ)
    → Knows (peers_of fmt node_id base_port) (node_transport (wire_runner fmt node_id base_port))
unfolding wire_runner new_transport wire_node set_transport wire_consensus
knowing fmt node_id base_port =
    let peers = peers_of fmt node_id base_port in
    let t = first_transport fmt node_id base_port in
    subst (Knows peers) (sym (node_knows peers _ _ t (rw (get-put, get-put) refl)))
      (all-known peers t)

broadcasts_nothing :
    (net : Net) (c : Codec) (id address : String) (payload : Bytes)
    → let t = new_p2p id address [] in
      Transport.broadcast net c (keys t.peers) payload t ≡ (none, t, [])
unfolding new_p2p Transport.broadcast
broadcasts_nothing net c id address payload = rw (keys-empty String String) refl

made_wiring :
    (F : Type 0) (fmt : Formats) (tools : ConfigTools F) (zero_config : GlobalConfig F)
    (node_id base_port : ℕ) (r : Runner F)
    → start_runner F fmt tools zero_config node_id base_port ≡ ok r
    → (id_ok node_id ≡ true) × (r.wiring ≡ wire_runner fmt node_id base_port)
unfolding start_runner
made_wiring F fmt tools zero_config node_id base_port r h =
    let (fine, h1) = then_ok (not (id_ok node_id)) bad_id _ r h in
    let (loaded, e1, h2) =
      bind_ok
        (or_error config_failed
          (load_config F tools zero_config "../config/config.json" (fresh_package F)).0)
        _ r h1 in
    let (cfg, e2, h3) = bind_ok (or_fail nil_config_panic loaded) _ r h2 in
    let (client, e3, h4) =
      bind_ok
        (or_error client_failed
          (new_openai_client F cfg.openai.api_key (some (client_config F cfg))))
        _ r h3 in
    let (storage, e4, h5) =
      bind_ok
        (or_error storage_failed (
          new_pinata_client cfg.oracle.pinata.api_key cfg.oracle.pinata.api_secret
            cfg.oracle.pinata.jwt))
        _ r h4 in
    (ground arith, ap (λ (q : Runner F). q.wiring) (sym (ok_same _ refl h5)))

-- Where run_node.go gets through its set-up, its ID is at most 3, the transport that the node starts has an
-- address for each of the three peers, but the engine's messages go to the transport that NewOracleNode has
-- made: that has no peer, and a broadcast over it sends nothing and reports no error.
pub start_runner-silent :
    (F : Type 0) (fmt : Formats) (tools : ConfigTools F) (zero_config : GlobalConfig F)
    (node_id base_port : ℕ) (r : Runner F) (net : Net) (c : Codec) (payload : Bytes)
    → start_runner F fmt tools zero_config node_id base_port ≡ ok r
    → let t = first_transport fmt node_id base_port in
      (id_ok node_id ≡ true)
      × Knows (peers_of fmt node_id base_port) (node_transport r.wiring)
      × (manager_transport r.wiring ≡ some t)
      × (Transport.broadcast net c (keys t.peers) payload t ≡ (none, t, []))
start_runner-silent F fmt tools zero_config node_id base_port r net c payload h =
    let (fine, made) = made_wiring F fmt tools zero_config node_id base_port r h in
    (
      fine,
      rw made (knowing fmt node_id base_port),
      rw made (silent fmt node_id base_port),
      broadcasts_nothing net c (fmt.node_name node_id) (fmt.address (base_port + node_id)) payload,
    )
