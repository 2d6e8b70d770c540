-- ===== src/Server/Setup.antt =====
-- oracle/cmd/server/main.go, main: the nodes of the server. A failure ends the program.
use evm_oracle.Similarity.Floats.{Float32}
use evm_oracle.Node.Requests.{NodeError, OracleNode, new_oracle_node}
use evm_oracle.Base.{
  List, Bool, String, ℕ, Option, ◌∷◌, some, [], not, ◌+◌, none, ◌==◌, if◌then◌else◌, ◌&&◌,
  string_eq, true, nat_eq,
}
use evm_oracle.Node.Requests
use evm_oracle.Base.Results.{Result, ok, err, ◌>>=◌, ◌>>◌, or_fail, refuse_if}

abbrev pub node_ids : List String
node_ids = "leader" ∷ "peer1" ∷ "peer2" ∷ "peer3" ∷ "peer4" ∷ "peer5" ∷ "peer6" ∷ []

pub data SetupError : Type 0 where
  llm_client_failed storage_client_failed no_members : SetupError
  start_failed_with : NodeError → SetupError

-- Whether NewOpenAIClient and NewPinataClient return no error, the address of an index, and whether the
-- transport of an ID starts
pub record Surroundings : Type 0 where
  pub llm_fine : Bool
  pub storage_fine : Bool
  pub address : ℕ → String
  pub listens : String → Bool

module _ (fl : Float32) where
  -- The loop that makes the nodes, from an index on; only node 0 gets a storage client and a scorer.
  unfoldable pub create_nodes :
      Surroundings → List String → ℕ → List String → Result SetupError (List (OracleNode fl))
  create_nodes e all i [] = ok []
  create_nodes e all i (id ∷ ids) = do
    refuse_if (not e.llm_fine) llm_client_failed
    refuse_if (i == 0 && not e.storage_fine) storage_client_failed
    node ← or_fail no_members (new_oracle_node fl id (e.address i) true (i == 0) (i == 0) all)
    rest ← create_nodes e all (i + 1) ids
    ok (node ∷ rest)

  -- "Register peers with each other"
  unfoldable pub register_others : (ℕ → String) → ℕ → List String → OracleNode fl → OracleNode fl
  register_others address i [] n = n
  register_others address i (id ∷ ids) n =
      register_others address (i + 1) ids
        (if id == n.node_id then n else Requests.register_peer fl id (address i) n)

  abbrev pub started : Option NodeError × OracleNode fl → Result SetupError (OracleNode fl)
  started (none, n) = ok n
  started (some e, n) = err (start_failed_with e)

  unfoldable pub start_node : Bool → OracleNode fl → Result SetupError (OracleNode fl)
  start_node listens n = started (Requests.start fl listens n)

  unfoldable pub register_all :
      Surroundings → List String → List (OracleNode fl) → List (OracleNode fl)
  unfolding register_others
  register_all e all [] = []
  register_all e all (n ∷ nodes) = register_others e.address 0 all n ∷ register_all e all nodes

  -- "Start network transport for each node"
  unfoldable pub start_nodes :
      Surroundings → List (OracleNode fl) → Result SetupError (List (OracleNode fl))
  unfolding start_node
  start_nodes e [] = ok []
  start_nodes e (n ∷ nodes) = do
    node ← start_node (e.listens n.node_id) n
    rest ← start_nodes e nodes
    ok (node ∷ rest)

  unfoldable pub setup_network : Surroundings → Result SetupError (List (OracleNode fl))
  unfolding create_nodes register_all start_nodes
  setup_network e = do
    nodes ← create_nodes e node_ids 0 node_ids
    start_nodes e (register_all e node_ids nodes)
