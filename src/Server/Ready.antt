-- ===== src/Server/Ready.antt =====
-- What the network of the server is like when it starts.
use mathlib.Core.Bool.{false≢true}
use mathlib.Core.Option.{some-injective}
use evm_oracle.Consensus.Engine.{
  init_consensus, new_pbft, set_network_manager, set_result_callback, Pbft,
}
use evm_oracle.Base.Dict
use evm_oracle.Server.Setup.{
  register_others, node_ids, start_node, Surroundings, create_nodes, start_nodes, setup_network,
  started, llm_client_failed, storage_client_failed, no_members, register_all,
}
use evm_oracle.Node.Requests.{OracleNode, new_oracle_node, NodeError}
use evm_oracle.Similarity.Floats.{Float32}
use evm_oracle.Base.{
  Option, String, List, Bool, ◌≡◌, ◌∷◌, if◌then◌else◌, ℕ, false, ◌==◌, true, ◌||◌, [], contains,
  ◌&&◌, some, string_eq, not, none, arith, if_cases, ◌+◌, eq_iff, ◌∙◌, ap, refl, sym, nat_eq, subst,
  All,
}
use evm_oracle.Node.Requests
use evm_oracle.Base.Results.{ok, bind_ok, then_ok, ok_same, or_fail, or_fail_ok}

abbrev is_known : Option String → Bool
is_known none = false
is_known (some address) = true

module _ {fl : Float32} where
  unfoldable pub knows : OracleNode fl → String → Bool
  knows n j = is_known (Dict.get n.peers j)

  -- A node of seven that tolerates two faults; the first one leads.
  record IsMade (n : OracleNode fl) : Type 0 where
    pub faults : n.engine.f ≡ 2
    pub leads : n.engine.is_leader ≡ (n.node_id == "leader")

  unfoldable pub ids_of : List (OracleNode fl) → List String
  ids_of [] = []
  ids_of (n ∷ nodes) = n.node_id ∷ ids_of nodes

  -- A running node that knows all the others
  pub record IsReady (n : OracleNode fl) : Type 0 where
    pub running : n.is_running ≡ true
    pub faults : n.engine.f ≡ 2
    pub leads : n.engine.is_leader ≡ (n.node_id == "leader")
    pub peers : (j : String) → knows n j ≡ (contains node_ids j && not (j == n.node_id))

  register_one :
      (id address : String) (n : OracleNode fl) (j : String)
      → knows (if id == n.node_id then n else Requests.register_peer fl id address n) j
        ≡ (knows n j || (id == j && not (j == n.node_id)))
  unfolding knows Requests.register_peer
  register_one id address n j =
      if_cases (λ (m : OracleNode fl). knows m j ≡ (knows n j || (id == j && not (j == n.node_id))))
        (id == n.node_id) _ _
        (λ own. ground (arith, eq_iff id j, eq_iff j n.node_id, eq_iff id n.node_id))
        (λ other. ground (
          arith,
          Dict.get-put n.peers id j address,
          eq_iff id j,
          eq_iff id n.node_id,
          eq_iff j n.node_id,
        ))

  -- What registering peers leaves as it is
  abbrev SameNode : OracleNode fl → OracleNode fl → Type 0
  SameNode n m = (m.node_id ≡ n.node_id) × (m.engine ≡ n.engine) × (m.is_running ≡ n.is_running)

  register_one-SameNode :
      (id address : String) (n : OracleNode fl)
      → SameNode n (if id == n.node_id then n else Requests.register_peer fl id address n)
  unfolding Requests.register_peer
  register_one-SameNode id address n =
      if_cases (λ (m : OracleNode fl). SameNode n m) (id == n.node_id) _ _
        (λ own. (refl, refl, refl)) (λ other. (refl, refl, refl))

  register_others-SameNode :
      (address : ℕ → String) (i : ℕ) (ids : List String) (n : OracleNode fl)
      → SameNode n (register_others fl address i ids n)
  unfolding register_others
  register_others-SameNode address i [] n = (refl, refl, refl)
  register_others-SameNode address i (id ∷ ids) n =
      let (a, b, c) = register_one-SameNode id (address i) n in
      let (a', b', c') = register_others-SameNode address (i + 1) ids _ in (a' ∙ a, b' ∙ b, c' ∙ c)

  register_others-knows :
      (address : ℕ → String) (i : ℕ) (ids : List String) (n : OracleNode fl) (j : String)
      → knows (register_others fl address i ids n) j
        ≡ (knows n j || (contains ids j && not (j == n.node_id)))
  unfolding register_others
  register_others-knows address i [] n j = ground arith
  register_others-knows address i (id ∷ ids) n j =
      let m = if id == n.node_id then n else Requests.register_peer fl id (address i) n in
      let rest = register_others-knows address (i + 1) ids m j in
      let one = register_one id (address i) n j in
      let same = ap (λ own. j == own) (register_one-SameNode id (address i) n).0 in
      ground (arith, rest, one, same)

  new-IsMade :
      (e : Surroundings) (i : ℕ) (id : String) (n : OracleNode fl)
      → new_oracle_node fl id (e.address i) true (i == 0) (i == 0) node_ids ≡ some n
      → IsMade n × (n.node_id ≡ id) × ((j : String) → knows n j ≡ false) × (n.is_running ≡ false)
  unfolding new_oracle_node init_consensus new_pbft set_network_manager set_result_callback knows
  new-IsMade e i id n made =
      let same = some-injective _ _ made in
      (
        record {
          faults = sym (ap (λ (m : OracleNode fl). m.engine.f) same);
          leads =
              subst (λ (m : OracleNode fl). m.engine.is_leader ≡ (m.node_id == "leader")) same refl;
        },
        sym (ap (λ (m : OracleNode fl). m.node_id) same),
        (λ j.
            subst (λ (m : OracleNode fl). is_known (Dict.get m.peers j) ≡ false) same
              (ap is_known (Dict.get-empty j))),
        sym (ap (λ (m : OracleNode fl). m.is_running) same),
      )

  start_same :
      (listens : Bool) (n m : OracleNode fl)
      → n.is_running ≡ false
      → start_node fl listens n ≡ ok m
      → record n { is_running = true } ≡ m
  unfolding start_node Requests.start
  start_same true n m stopped =
      if_cases
        (λ (r : Option NodeError × OracleNode fl).
          started fl r ≡ ok m → record n { is_running = true } ≡ m)
        n.is_running _ _ (λ t. absurd (false≢true (sym stopped ∙ t))) (λ f h. ok_same _ refl h)
  start_same false n m stopped =
      if_cases
        (λ (r : Option NodeError × OracleNode fl).
          started fl r ≡ ok m → record n { is_running = true } ≡ m)
        n.is_running _ _ (λ t. absurd (false≢true (sym stopped ∙ t))) (λ f h. cc)

  start-IsReady :
      (e : Surroundings) (listens : Bool) (n m : OracleNode fl)
      → IsMade n
      → ((j : String) → knows n j ≡ false)
      → n.is_running ≡ false
      → start_node fl listens (register_others fl e.address 0 node_ids n) ≡ ok m
      → IsReady m × (m.node_id ≡ n.node_id)
  unfolding knows
  start-IsReady e listens n m made fresh stopped done =
      let r = register_others fl e.address 0 node_ids n in
      let (id, engine, running) = register_others-SameNode e.address 0 node_ids n in
      let same = start_same listens r m (running ∙ stopped) done in
      let name = ap (λ (k : OracleNode fl). k.node_id) (sym same) ∙ id in
      let made_of = ap (λ (k : OracleNode fl). k.engine) (sym same) ∙ engine in
      (
        record {
          running = ap (λ (k : OracleNode fl). k.is_running) (sym same);
          faults = ap (λ (q : Pbft). q.f) made_of ∙ made.faults;
          leads =
              ap (λ (q : Pbft). q.is_leader) made_of
              ∙ made.leads
              ∙ ap (λ own. own == "leader") (sym name);
          peers = λ j.
              let known = register_others-knows e.address 0 node_ids n j in
              ap (λ (k : OracleNode fl). knows k j) (sym same)
              ∙ known
              ∙ ap (λ b. b || (contains node_ids j && not (j == n.node_id))) (fresh j)
              ∙ ap (λ own. contains node_ids j && not (j == own)) (sym name);
        },
        name,
      )

  -- What the nodes are like between the loops
  abbrev IsFresh : OracleNode fl → Type 0
  IsFresh n = IsMade n × ((j : String) → knows n j ≡ false) × (n.is_running ≡ false)

  create-IsFresh :
      (e : Surroundings) (i : ℕ) (ids : List String) (nodes : List (OracleNode fl))
      → create_nodes fl e node_ids i ids ≡ ok nodes
      → All IsFresh nodes × (ids_of nodes ≡ ids)
  unfolding create_nodes ids_of
  create-IsFresh e i [] nodes h =
      subst (λ ns. All IsFresh ns × (ids_of ns ≡ [])) (ok_same _ refl h) (tt, refl)
  create-IsFresh e i (id ∷ ids) nodes h =
      let (_, h1) = then_ok (not e.llm_fine) llm_client_failed _ nodes h in
      let (_, h2) = then_ok (i == 0 && not e.storage_fine) storage_client_failed _ nodes h1 in
      let node = new_oracle_node fl id (e.address i) true (i == 0) (i == 0) node_ids in
      let (n, made, h3) = bind_ok (or_fail no_members node) _ nodes h2 in
      let (rest, created, h4) = bind_ok (create_nodes fl e node_ids (i + 1) ids) _ nodes h3 in
      let (seven, name, unknown, stopped) =
        new-IsMade e i id n (or_fail_ok no_members node n made) in
      let (fresh, names) = create-IsFresh e (i + 1) ids rest created in
      subst (λ ns. All IsFresh ns × (ids_of ns ≡ id ∷ ids)) (ok_same _ refl h4)
        (((seven, unknown, stopped), fresh), λ k. name k ∷ names k)

  start-All :
      (e : Surroundings) (before after : List (OracleNode fl))
      → All IsFresh before
      → start_nodes fl e (register_all fl e node_ids before) ≡ ok after
      → All IsReady after × (ids_of after ≡ ids_of before)
  unfolding start_nodes register_all ids_of
  start-All e [] after fresh h =
      subst (λ ns. All IsReady ns × (ids_of ns ≡ [])) (ok_same _ refl h) (tt, refl)
  start-All e (n ∷ before) after ((made, unknown, stopped), fresh) h =
      let registered = register_others fl e.address 0 node_ids n in
      let (m, started_m, h1) =
        bind_ok (start_node fl (e.listens registered.node_id) registered) _ after h in
      let (rest, started_rest, h2) =
        bind_ok (start_nodes fl e (register_all fl e node_ids before)) _ after h1 in
      let (ready, name) =
        start-IsReady e (e.listens registered.node_id) n m made unknown stopped started_m in
      let (others, names) = start-All e before rest fresh started_rest in
      subst (λ ns. All IsReady ns × (ids_of ns ≡ ids_of (n ∷ before))) (ok_same _ refl h2)
        ((ready, others), λ k. name k ∷ names k)

  -- If the server comes to listen, its nodes are the seven of the list in that order; each runs, tolerates
  -- two faults, knows exactly the other six as its peers, and leads exactly if it is the leader.
  pub setup_network-IsReady :
      (e : Surroundings) (nodes : List (OracleNode fl))
      → setup_network fl e ≡ ok nodes
      → All IsReady nodes × (ids_of nodes ≡ node_ids)
  unfolding setup_network
  setup_network-IsReady e nodes h =
      let (created, made, started_all) =
        bind_ok (create_nodes fl e node_ids 0 node_ids) _ nodes h in
      let (fresh, same) = create-IsFresh e 0 node_ids created made in
      let (ready, names) = start-All e created nodes fresh started_all in (ready, names ∙ same)
