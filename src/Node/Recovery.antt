-- ===== src/Node/Recovery.antt =====
-- SaveState and Recover of oracle/pkg/node/recovery.go, on the node's engine.
use Prim.Native.Nat.{zero}
use evm_oracle.Consensus.Engine.{Pbft, restore_state}
use evm_oracle.Consensus.Message.{
  PbftState, normal, unknown_state, view_changing, state_transferring,
}
use evm_oracle.Base.Dict.{Dict}
use evm_oracle.Base.{ℕ, Bytes, Option, String, Bool, some, ◌+◌, suc, none, string_eq, if◌then◌else◌}
use evm_oracle.Base.Dict

-- A value of a decoded JSON object: a number, as the conversions of its float64 to an integer give it, or
-- anything else
pub data Value : Type 0 where
  number : ℕ → Value
  not_number : Value

-- encoding/json on the object of the state
pub record StateCodec : Type 0 where
  pub encode : Dict String ℕ → Option Bytes
  pub decode : Bytes → Option (Dict String Value)

-- os.ReadFile on the state's path
pub data StateFile : Type 0 where
  absent unreadable : StateFile
  content : Bytes → StateFile

pub data RecoveryError : Type 0 where
  state_marshal_failed state_write_failed state_read_failed state_unmarshal_failed : RecoveryError

unfoldable pub state_number : PbftState → ℕ
state_number normal = 0
state_number view_changing = 1
state_number state_transferring = 2
state_number (unknown_state n) = n + 3

unfoldable pub state_of : ℕ → PbftState
state_of zero = normal
state_of (suc zero) = view_changing
state_of (suc (suc zero)) = state_transferring
state_of (suc (suc (suc n))) = unknown_state n

unfoldable pub state_object : Pbft → Dict String ℕ
unfolding state_number
state_object p =
    Dict.put (Dict.put (Dict.put Dict.empty "sequence" p.sequence) "view" p.view) "state"
      (state_number p.state)

-- The error, if any, and the file after the call. The first argument is os.WriteFile: whether it
-- succeeds, and what it leaves of the file.
unfoldable pub save_state :
    (Bytes → Bool × StateFile) → StateCodec → Pbft → StateFile → Option RecoveryError × StateFile
save_state write c p file = elim (c.encode (state_object p)) [
  | none ↦ (some state_marshal_failed, file)
  | some bytes ↦
      let (done, file') = write bytes in (if done then none else some state_write_failed, file')
]

-- The type assertion on a missing key or another value panics.
pub data Recovered : Type 0 where
  recovered : Pbft → Recovered
  not_recovered : RecoveryError → Recovered
  panicked : Recovered

unfoldable pub assert_number : Option Value → (ℕ → Recovered) → Recovered
assert_number none next = panicked
assert_number (some not_number) next = panicked
assert_number (some (number n)) next = next n

unfoldable pub restore_from : Dict String Value → Pbft → Recovered
unfolding assert_number
restore_from object p = assert_number (Dict.get object "sequence") (λ sequence.
    assert_number (Dict.get object "view") (λ view.
      assert_number (Dict.get object "state")
        (λ state. recovered (restore_state sequence view (state_of state) p))))

unfoldable pub recover : StateCodec → StateFile → Pbft → Recovered
recover c absent p = recovered p
recover c unreadable p = not_recovered state_read_failed
recover c (content bytes) p = elim (c.decode bytes) [
  | none ↦ not_recovered state_unmarshal_failed
  | some object ↦ restore_from object p
]
