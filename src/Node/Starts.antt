-- ===== src/Node/Starts.antt =====
-- The life cycle of a node over time.
use evm_oracle.Base.{
  Option, List, ℕ, ◌≡◌, ◌∷◌, ◌+◌, [], refl, some, ◌∙◌, String, none, ap, ◌≤◌, arith, true,
}
use evm_oracle.Node.Lifecycle.{
  Node, start, LifecycleError, stopped, start, stop, start_from, stop_from, new_node, running,
  initial,
}

pub data Call : Type 0 where
  starts stops : Call

abbrev pub after_call : Node → Call → Option LifecycleError × Node
after_call n starts = start n
after_call n stops = stop n

-- The number of calls of a kind that return no error
abbrev count_if : Option LifecycleError → Call → Call → ℕ
count_if (some e) k c = 0
count_if none starts starts = 1
count_if none stops stops = 1
count_if none _ _ = 0

unfoldable pub successes : Call → Node → List Call → ℕ
successes k n [] = 0
successes k n (c ∷ cs) =
    let (failure, n') = after_call n c in count_if failure k c + successes k n' cs

start_lem : (n : Node) → start n ≡ start_from n.state n
unfolding start
start_lem n = refl

stop_lem : (n : Node) → stop n ≡ stop_from n.state n
unfolding stop
stop_lem n = refl

from_stopped : (k : Call) (n : Node) (cs : List Call) → n.state ≡ stopped → successes k n cs ≡ 0
unfolding successes start_from stop_from
from_stopped k n [] h = refl
from_stopped k n (starts ∷ cs) h =
    rw (start_lem n ∙ ap (λ s. start_from s n) h) (omega (arith, from_stopped k n cs h))
from_stopped k n (stops ∷ cs) h =
    rw (stop_lem n ∙ ap (λ s. stop_from s n) h) (omega (arith, from_stopped k n cs h))

from_running :
    (n : Node) (cs : List Call)
    → n.state ≡ running
    → (successes starts n cs ≡ 0) × (successes stops n cs ≤ 1)
unfolding successes start_from stop_from
from_running n [] h = (refl, omega arith)
from_running n (starts ∷ cs) h =
    rw (start_lem n ∙ ap (λ s. start_from s n) h)
      (omega (arith, from_running n cs h), omega (arith, from_running n cs h))
from_running n (stops ∷ cs) h =
    let n' = record n { cancelled = true; state = stopped } in
    rw (stop_lem n ∙ ap (λ s. stop_from s n) h)
      (omega (arith, from_stopped starts n' cs refl), omega (arith, from_stopped stops n' cs refl))

from_initial :
    (n : Node) (cs : List Call)
    → n.state ≡ initial
    → (successes starts n cs ≤ 1) × (successes stops n cs ≤ successes starts n cs)
unfolding successes start_from stop_from
from_initial n [] h = (omega arith, omega arith)
from_initial n (starts ∷ cs) h =
    let after = from_running (record n { state = running }) cs refl in
    rw (start_lem n ∙ ap (λ s. start_from s n) h) (omega (arith, after), omega (arith, after))
from_initial n (stops ∷ cs) h =
    rw (stop_lem n ∙ ap (λ s. stop_from s n) h)
      (omega (arith, from_initial n cs h), omega (arith, from_initial n cs h))

-- Whatever the calls of Start and Stop on a new node and their order, at most one Start succeeds, and no
-- more calls of Stop than of Start.
starts_once :
    (id : String) (cs : List Call)
    → (successes starts (new_node id) cs ≤ 1)
      × (successes stops (new_node id) cs ≤ successes starts (new_node id) cs)
unfolding new_node
starts_once id cs = from_initial (new_node id) cs refl
