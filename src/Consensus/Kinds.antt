-- ===== src/Consensus/Kinds.antt =====
-- Message types as keys of a map, `map[consensus.MessageType]int`, and the counts of messages that
-- scripts/run_node.go and oracle/cmd/server/main.go keep by type.
use evm_oracle.Consensus.Message.{
  MessageType, pre_prepare, unknown, prepare, commit, view_change, new_view, state_transfer,
}
use Prim.Native.Nat.{zero}
use evm_oracle.Base.{
  List, [], ◌∷◌, ℕ, true, ◌≡◌, ◌↔◌, suc, ◌+◌, Option, some, none, nat_eq, ap, refl, sym, ◌∙◌, ◌==◌,
  ◌||◌, contains, tally, if◌then◌else◌, arith, Comparable, ==_sound, Bool-cases, inl, inr,
}
use evm_oracle.Base.Dict
use evm_oracle.Base.Dict.{Dict, keys, keys-put, get-put, get-empty}

-- A number for each type, the value of Go's int where that is not negative
unfoldable pub code : MessageType → ℕ
code pre_prepare = 0
code prepare = 1
code commit = 2
code view_change = 3
code new_view = 4
code state_transfer = 5
code (unknown n) = suc (suc (suc (suc (suc (suc n)))))

kind_of : ℕ → MessageType
kind_of zero = pre_prepare
kind_of (suc zero) = prepare
kind_of (suc (suc zero)) = commit
kind_of (suc (suc (suc zero))) = view_change
kind_of (suc (suc (suc (suc zero)))) = new_view
kind_of (suc (suc (suc (suc (suc zero))))) = state_transfer
kind_of (suc (suc (suc (suc (suc (suc n)))))) = unknown n

kind_of-code : (k : MessageType) → kind_of (code k) ≡ k
unfolding kind_of code
kind_of-code pre_prepare = refl
kind_of-code prepare = refl
kind_of-code commit = refl
kind_of-code view_change = refl
kind_of-code new_view = refl
kind_of-code state_transfer = refl
kind_of-code (unknown n) = refl

code-injective : (j k : MessageType) → code j ≡ code k → j ≡ k
code-injective j k e = sym (kind_of-code j) ∙ ap kind_of e ∙ kind_of-code k

pub same_kind_iff : (j k : MessageType) → ((code j == code k) ≡ true) ↔ (j ≡ k)
same_kind_iff j k =
    (λ e. code-injective j k (==_sound (code j) (code k) e), λ e. ground (arith, ap code e))

instance abbrev pub kind_eq : Comparable MessageType
kind_eq = record { same = λ j k. code j == code k; same_iff = same_kind_iff }

abbrev or_zero : Option ℕ → ℕ
or_zero none = 0
or_zero (some n) = n

-- msgCounts[k]
unfoldable pub count_of : Dict MessageType ℕ → MessageType → ℕ
count_of counts k = or_zero (Dict.get counts k)

-- msgCounts[k]++
unfoldable pub count_kind : MessageType → Dict MessageType ℕ → Dict MessageType ℕ
count_kind k counts = Dict.put counts k (count_of counts k + 1)

unfoldable pub count_kinds : List MessageType → Dict MessageType ℕ → Dict MessageType ℕ
count_kinds [] counts = counts
count_kinds (k ∷ ks) counts = count_kinds ks (count_kind k counts)

count_of-count_kind :
    (j k : MessageType) (counts : Dict MessageType ℕ)
    → count_of (count_kind j counts) k ≡ (if j == k then 1 else 0) + count_of counts k
unfolding count_of count_kind
count_of-count_kind j k counts = elim (Bool-cases (j == k)) [
  | inl e ↦ rw (get-put, e, ==_sound j k e) (omega arith)
  | inr e ↦ rw (get-put, e) (omega arith)
]

-- The count of a type is the number of its messages.
pub count_of-count_kinds :
    (ks : List MessageType) (counts : Dict MessageType ℕ) (k : MessageType)
    → count_of (count_kinds ks counts) k ≡ tally ks (λ j. j == k) + count_of counts k
unfolding count_kinds tally
count_of-count_kinds [] counts k = omega arith
count_of-count_kinds (j ∷ ks) counts k =
    ground (arith, count_of-count_kinds ks (count_kind j counts) k, count_of-count_kind j k counts)

pub keys-count_kinds :
    (ks : List MessageType) (counts : Dict MessageType ℕ) (k : MessageType)
    → contains (keys (count_kinds ks counts)) k ≡ (contains ks k || contains (keys counts) k)
unfolding count_kinds count_kind
keys-count_kinds [] counts k = refl
keys-count_kinds (j ∷ ks) counts k = ground (
  arith,
  keys-count_kinds ks (count_kind j counts) k,
  keys-put counts j k (count_of counts j + 1),
)

-- The same for a map that is empty at first
pub count_of-fresh :
    (ks : List MessageType) (k : MessageType)
    → count_of (count_kinds ks Dict.empty) k ≡ tally ks (λ j. j == k)
unfolding count_of
count_of-fresh ks k = count_of-count_kinds ks Dict.empty k ∙ rw (get-empty {V = ℕ} k) (omega arith)
