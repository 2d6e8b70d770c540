-- ===== src/Runner/Followers.antt =====
-- With what engine the nodes of the script start.
use Prim.Native.Nat.{zero}
use evm_oracle.Consensus.Engine.{
  init_consensus, Pbft, new_pbft, set_network_manager, set_result_callback,
}
use evm_oracle.Base.{
  Option, ℕ, ◌≤◌, ◌≡◌, some, ◌≢◌, false, ◌==◌, String, Bool-cases, List, true, length, arith, inr,
  ◌∷◌, inl, suc, eq_iff, string_eq, refl,
}
use evm_oracle.Runner.Setup.{Formats, id_ok, runner_engine, logged_threshold, peers_of, peers_from}

-- The names of the four nodes differ.
abbrev pub Distinguishes : Formats → Type 0
Distinguishes fmt = (i j : ℕ) → i ≤ 3 → j ≤ 3 → fmt.node_name i ≡ fmt.node_name j → i ≡ j

-- How an engine starts that leads nothing and tolerates no fault
abbrev pub Follows : Option Pbft → Type 0
Follows o = (p : Pbft) × (o ≡ some p) × (p.is_leader ≡ false) × (p.f ≡ 0)

other_name :
    (fmt : Formats) (i j : ℕ)
    → Distinguishes fmt
    → i ≤ 3
    → j ≤ 3
    → i ≢ j
    → (fmt.node_name i == fmt.node_name j) ≡ false
other_name fmt i j d hi hj h = elim (Bool-cases (fmt.node_name i == fmt.node_name j)) [
  | inr e ↦ e
  | inl e ↦ absurd (h (d i j hi hj ((eq_iff _ _).0 e)))
]

follows :
    (id first : String) (rest : List String)
    → (id == first) ≡ false
    → length rest ≡ 2
    → Follows (init_consensus id (first ∷ rest))
unfolding init_consensus new_pbft set_network_manager set_result_callback
follows id first rest h k = (_, refl, h, rw k refl)

-- Where the names of the nodes differ, no node of the script makes an engine that leads, and each makes one
-- with f = 0, whose quorum is one message, while the progress is logged with a threshold of three: the list
-- of peers that it gets does not hold the node itself.
pub runner_engine-Follows :
    (fmt : Formats) (node_id base_port : ℕ)
    → Distinguishes fmt
    → id_ok node_id ≡ true
    → Follows (runner_engine fmt node_id base_port) × (logged_threshold fmt node_id base_port ≡ 3)
unfolding id_ok runner_engine logged_threshold peers_of peers_from
runner_engine-Follows fmt zero base_port d h =
    (follows _ _ _ (other_name fmt 0 1 d (omega arith) (omega arith) (omega arith)) refl, refl)
runner_engine-Follows fmt (suc zero) base_port d h =
    (follows _ _ _ (other_name fmt 1 0 d (omega arith) (omega arith) (omega arith)) refl, refl)
runner_engine-Follows fmt (suc (suc zero)) base_port d h =
    (follows _ _ _ (other_name fmt 2 0 d (omega arith) (omega arith) (omega arith)) refl, refl)
runner_engine-Follows fmt (suc (suc (suc zero))) base_port d h =
    (follows _ _ _ (other_name fmt 3 0 d (omega arith) (omega arith) (omega arith)) refl, refl)
runner_engine-Follows fmt (suc (suc (suc (suc n)))) base_port d h = ground arith
