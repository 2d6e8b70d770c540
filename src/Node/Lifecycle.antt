-- ===== src/Node/Lifecycle.antt =====
-- oracle/pkg/types/node.go: the life cycle of a node. The context is whether it has been cancelled.
use evm_oracle.Base.{String, Option, Bool, false, none, some, true}

pub data NodeState : Type 0 where
  initial running stopped : NodeState

pub record Node : Type 0 where
  pub id : String
  pub state : NodeState
  pub cancelled : Bool

pub data LifecycleError : Type 0 where
  already_started not_running : LifecycleError

unfoldable pub new_node : String → Node
new_node id = record { id = id; state = initial; cancelled = false }

unfoldable pub start_from : NodeState → Node → Option LifecycleError × Node
start_from initial n = (none, record n { state = running })
start_from _ n = (some already_started, n)

unfoldable pub start : Node → Option LifecycleError × Node
unfolding start_from
start n = start_from n.state n

unfoldable pub stop_from : NodeState → Node → Option LifecycleError × Node
stop_from running n = (none, record n { cancelled = true; state = stopped })
stop_from _ n = (some not_running, n)

unfoldable pub stop : Node → Option LifecycleError × Node
unfolding stop_from
stop n = stop_from n.state n
