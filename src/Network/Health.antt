-- ===== src/Network/Health.antt =====
-- oracle/pkg/network/health.go: checkPeer, by the outcome of its ping. Times are numbers.
use evm_oracle.Base.Dict.{Dict}
use evm_oracle.Base.{
  [], ◌∷◌, ℕ, false, Option, if◌then◌else◌, String, List, Bool, ◌+◌, some, ◌-◌, none, string_eq,
  true,
}
use evm_oracle.Base.Dict

pub record PeerHealth : Type 0 where
  pub last_seen : ℕ
  pub latency : ℕ
  pub failures : ℕ
  pub is_healthy : Bool

abbrev unseen : PeerHealth
unseen = record { last_seen = 0; latency = 0; failures = 0; is_healthy = false }

-- A ping that was sent at one time and came to its end at another, with or without an error
pub record Ping : Type 0 where
  pub started : ℕ
  pub ended : ℕ
  pub failed : Bool

unfoldable pub health_of : Option PeerHealth → PeerHealth
health_of none = unseen
health_of (some h) = h

unfoldable pub record_ping : Ping → PeerHealth → PeerHealth
record_ping ping h =
    if ping.failed then record h { failures = h.failures + 1; is_healthy = false } else record h {
      latency = ping.ended - ping.started;
      last_seen = ping.ended;
      failures = 0;
      is_healthy = true;
    }

unfoldable pub check_peer : String → Ping → Dict String PeerHealth → Dict String PeerHealth
unfolding health_of record_ping
check_peer id ping health = Dict.put health id (record_ping ping (health_of (Dict.get health id)))

-- checkAllPeers, over the pings in the order in which they end
unfoldable pub check_all : List (String × Ping) → Dict String PeerHealth → Dict String PeerHealth
check_all [] health = health
check_all ((id, ping) ∷ rest) health = check_all rest (check_peer id ping health)
