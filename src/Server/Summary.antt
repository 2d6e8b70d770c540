-- ===== src/Server/Summary.antt =====
-- oracle/cmd/server/main.go, handlePrompt: "Message Summary", the messages of each node by type.
use mathlib.Core.Bool.{false≢true}
use evm_oracle.Server.Tracker.{or_new}
use evm_oracle.Consensus.Message.{
  MessageType, unknown, pre_prepare, prepare, commit, view_change, new_view, state_transfer,
}
use evm_oracle.Base.{
  String, ℕ, List, [], ◌∷◌, ◌+◌, ◌≡◌, length, contains, IsDistinct, ◌==◌, tally, true, false, arith,
  refl, Bool-cases, ◌∙◌, ==_refl, subst, inl, sym, ==_sound, inr, string_eq,
}
use evm_oracle.Base.Dict
use evm_oracle.Base.Dict.{Dict, keys, put-IsDistinct, keys-empty}
use evm_oracle.Consensus.Kinds.{
  kind_eq, count_of, count_kinds, count_kind, keys-count_kinds, count_of-fresh,
}

-- The name that the summary prints for a type
unfoldable pub summary_name : MessageType → String
summary_name pre_prepare = "PrePrepare"
summary_name prepare = "Prepare"
summary_name commit = "Commit"
summary_name view_change = "ViewChange"
summary_name new_view = "NewView"
summary_name state_transfer = "StateTransfer"
summary_name (unknown n) = "Unknown"

-- The lines of a node's counts, one for each key of the map
unfoldable pub lines_of : Dict MessageType ℕ → List MessageType → List (String × ℕ)
lines_of counts [] = []
lines_of counts (k ∷ ks) = (summary_name k, count_of counts k) ∷ lines_of counts ks

unfoldable pub node_summary : List MessageType → List (String × ℕ)
unfolding lines_of
node_summary messages =
    let counts = count_kinds messages Dict.empty in lines_of counts (keys counts)

unfoldable pub message_summary :
    List String → Dict String (List MessageType) → List (String × List (String × ℕ))
unfolding node_summary
message_summary [] by_node = []
message_summary (id ∷ ids) by_node =
    (id, node_summary (or_new [] (Dict.get by_node id))) ∷ message_summary ids by_node

-- The sum of the printed counts
abbrev pub total : List (String × ℕ) → ℕ
total [] = 0
total ((name, n) ∷ rest) = n + total rest

-- The numbers of the messages of some types, added up
sum_over : List MessageType → List MessageType → ℕ
sum_over ks [] = 0
sum_over ks (k ∷ rest) = tally ks (λ j. j == k) + sum_over ks rest

sum_over-absent :
    (j : MessageType) (ks xs : List MessageType)
    → contains xs j ≡ false
    → sum_over (j ∷ ks) xs ≡ sum_over ks xs
unfolding sum_over tally
sum_over-absent j ks [] h = refl
sum_over-absent j ks (x ∷ xs) h =
    ground
      (arith, kind_eq.same_iff j x, kind_eq.same_iff x j, sum_over-absent j ks xs (ground arith))

sum_over-cons :
    (j : MessageType) (ks xs : List MessageType)
    → IsDistinct xs
    → contains xs j ≡ true
    → sum_over (j ∷ ks) xs ≡ sum_over ks xs + 1
unfolding sum_over tally
sum_over-cons j ks [] d h = absurd (cc)
sum_over-cons j ks (x ∷ xs) d h = elim (Bool-cases (j == x)) [
  | inl e ↦
      let fresh : contains xs j ≡ false =
        subst (λ k. contains xs k ≡ false) (sym (==_sound j x e)) d.0 in
      ground (arith, sum_over-absent j ks xs fresh)
  | inr e ↦ ground (
    arith,
    kind_eq.same_iff j x,
    kind_eq.same_iff x j,
    sum_over-cons j ks xs d.1 (ground (arith, kind_eq.same_iff j x, kind_eq.same_iff x j)),
  )
]

sum_over-all :
    (ks xs : List MessageType)
    → IsDistinct xs
    → ((k : MessageType) → contains ks k ≡ true → contains xs k ≡ true)
    → sum_over ks xs ≡ length ks
unfolding sum_over tally
sum_over-all [] [] d h = refl
sum_over-all [] (x ∷ xs) d h = omega (arith, sum_over-all [] xs d.1 (λ k e. absurd (false≢true e)))
sum_over-all (j ∷ ks) xs d h = omega (
  arith,
  sum_over-cons j ks xs d (h j (ground (arith, ==_refl j))),
  sum_over-all ks xs d (λ k e. h k (ground arith)),
)

total-lines_of :
    (ks xs : List MessageType) → total (lines_of (count_kinds ks Dict.empty) xs) ≡ sum_over ks xs
unfolding lines_of sum_over
total-lines_of ks [] = refl
total-lines_of ks (x ∷ xs) = omega (arith, count_of-fresh ks x, total-lines_of ks xs)

keys-IsDistinct :
    (ks : List MessageType) (counts : Dict MessageType ℕ)
    → IsDistinct (keys counts)
    → IsDistinct (keys (count_kinds ks counts))
unfolding count_kinds count_kind
keys-IsDistinct [] counts d = d
keys-IsDistinct (k ∷ ks) counts d =
    keys-IsDistinct ks _ (put-IsDistinct counts k (count_of counts k + 1) d)

-- The counts that the summary prints for a node add up to the number of messages that it has handled.
node_summary-total : (messages : List MessageType) → total (node_summary messages) ≡ length messages
unfolding node_summary
node_summary-total messages =
    let counts = count_kinds messages Dict.empty in
    total-lines_of messages (keys counts)
    ∙ sum_over-all messages (keys counts)
        (keys-IsDistinct messages Dict.empty (subst IsDistinct (sym (keys-empty MessageType ℕ)) tt))
        (λ k e. keys-count_kinds messages Dict.empty k ∙ rw e refl)
