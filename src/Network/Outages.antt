-- ===== src/Network/Outages.antt =====
-- What a peer's health says about its pings.
use evm_oracle.Network.Health.{check_all, PeerHealth, Ping, health_of, check_peer, record_ping}
use evm_oracle.Base.Dict.{Dict, get-put}
use evm_oracle.Base.{
  [], ◌∷◌, String, ℕ, Bool, List, if◌then◌else◌, not, ◌≡◌, string_eq, ◌==◌, ◌+◌, refl, arith,
  eq_iff,
}
use evm_oracle.Base.Dict

-- The pings of one peer among those of all
abbrev pub pings_of : String → List (String × Ping) → List Ping
pings_of id [] = []
pings_of id ((j, ping) ∷ rest) = if j == id then ping ∷ pings_of id rest else pings_of id rest

-- The number of failures since the last success, and whether the last ping succeeded; `n` and `b` are
-- those from before.
abbrev pub outage : ℕ → List Ping → ℕ
outage n [] = n
outage n (ping ∷ rest) = outage (if ping.failed then n + 1 else 0) rest

abbrev pub last_succeeded : Bool → List Ping → Bool
last_succeeded b [] = b
last_succeeded b (ping ∷ rest) = last_succeeded (not ping.failed) rest

abbrev pub failures_at : Dict String PeerHealth → String → ℕ
failures_at health id = (health_of (Dict.get health id)).failures

abbrev pub healthy_at : Dict String PeerHealth → String → Bool
healthy_at health id = (health_of (Dict.get health id)).is_healthy

check_peer-at :
    (j id : String) (ping : Ping) (health : Dict String PeerHealth)
    → health_of (Dict.get (check_peer j ping health) id) ≡ (
        if j == id
        then record_ping ping (health_of (Dict.get health id))
        else health_of (Dict.get health id))
unfolding check_peer health_of
check_peer-at j id ping health = rw get-put (ground (arith, eq_iff j id))

-- After any pings of any peers, the record of each peer counts that peer's failures since its last
-- success, and calls it healthy exactly if its last ping succeeded; a peer with no ping keeps its record.
pub check_all-outage :
    (pings : List (String × Ping)) (health : Dict String PeerHealth) (id : String)
    → (failures_at (check_all pings health) id ≡ outage (failures_at health id) (pings_of id pings))
      × (healthy_at (check_all pings health) id
          ≡ last_succeeded (healthy_at health id) (pings_of id pings))
unfolding check_all record_ping
check_all-outage [] health id = (refl, refl)
check_all-outage ((j, ping) ∷ rest) health id =
    let (count, well) = check_all-outage rest (check_peer j ping health) id in
    ground (arith, check_peer-at j id ping health, count, well)
