-- ===== src/Network/Rounds.antt =====
-- What a round of pings leaves in the records of a health manager.
use mathlib.Core.Bool.{false≢true}
use evm_oracle.Network.Health.{check_peer}
use evm_oracle.Network.Dispatch.{PayloadCodec}
use evm_oracle.Network.Framing.{Codec}
use evm_oracle.Network.Manager.{HealthManager, Probe, check_over, check_each, check_round}
use evm_oracle.Base.{
  String, List, [], ◌∷◌, ◌≡◌, ◌≢◌, true, contains, none, ◌⊎◌, inl, inr, arith, ◌==◌, string_eq,
  Bool-cases,
}
use evm_oracle.Base.Dict
use evm_oracle.Base.Dict.{keys, get-put}

abbrev IsRecorded : HealthManager → String → Type 0
IsRecorded hm id = Dict.get hm.peer_health id ≢ none

module _ (c : Codec) (j : PayloadCodec) (probes : String → Probe) where
  recorded :
      (k id : String) (hm : HealthManager)
      → ((k == id) ≡ true) ⊎ IsRecorded hm id
      → IsRecorded (check_over c j k (probes k) hm) id
  unfolding check_over check_peer
  recorded k id hm (inl e) = rw (get-put, e) (λ z. cc)
  recorded k id hm (inr h) = elim (Bool-cases (k == id)) [
    | inl e ↦ rw (get-put, e) (λ z. cc)
    | inr e ↦ rw (get-put, e) h
  ]

  check_each-IsRecorded :
      (ids : List String) (id : String) (hm : HealthManager)
      → (contains ids id ≡ true) ⊎ IsRecorded hm id
      → IsRecorded (check_each c j probes ids hm) id
  unfolding check_each
  check_each-IsRecorded [] id hm (inl h) = absurd (false≢true h)
  check_each-IsRecorded [] id hm (inr h) = h
  check_each-IsRecorded (k ∷ ids) id hm (inr h) =
      check_each-IsRecorded ids id _ (inr (recorded k id hm (inr h)))
  check_each-IsRecorded (k ∷ ids) id hm (inl h) = elim (Bool-cases (k == id)) [
    | inl e ↦ check_each-IsRecorded ids id _ (inr (recorded k id hm (inl e)))
    | inr e ↦ check_each-IsRecorded ids id _ (inl (ground arith))
  ]

  -- After a round, each peer of the transport has a record.
  check_round-IsRecorded :
      (hm : HealthManager) (id : String)
      → contains (keys hm.transport.peers) id ≡ true
      → IsRecorded (check_round c j probes hm) id
  unfolding check_round
  check_round-IsRecorded hm id h = check_each-IsRecorded (keys hm.transport.peers) id hm (inl h)
