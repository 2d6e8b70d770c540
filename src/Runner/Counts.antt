-- ===== src/Runner/Counts.antt =====
-- scripts/run_node.go: the messages that a node counts by type, and the statistics it logs of them.
use mathlib.Core.Bool.{false≢true}
use evm_oracle.Consensus.Kinds.{kind_eq, count_kinds, keys-count_kinds, count_of-fresh}
use evm_oracle.Consensus.Kinds.{count_kind, count_of, code}
use evm_oracle.Runner.Setup.{type_name}
use evm_oracle.Consensus.Message.{
  ConsensusMessage, MessageType, commit, unknown, prepare, state_transfer, pre_prepare, view_change,
  new_view,
}
use evm_oracle.Base.Dict
use evm_oracle.Base.Dict.{Dict, keys, get-put, keys-empty, get-empty}
use evm_oracle.Base.{
  String, List, ℕ, [], ◌∷◌, Option, some, none, ◌≡◌, if◌then◌else◌, contains, ◌==◌, tally, refl,
  string_eq, ltb, ◌<◌, arith, Bool-cases, ◌∙◌, ap, inl, eq_iff, inr, sym, ==_sound,
}

abbrev kinds_of : List ConsensusMessage → List MessageType
kinds_of [] = []
kinds_of (m ∷ ms) = m.kind ∷ kinds_of ms

-- The message callback, as far as it counts
unfoldable pub track_message : ConsensusMessage → Dict MessageType ℕ → Dict MessageType ℕ
track_message m counts = count_kind m.kind counts

unfoldable pub track_messages : List ConsensusMessage → Dict MessageType ℕ → Dict MessageType ℕ
track_messages [] counts = counts
track_messages (m ∷ ms) counts = track_messages ms (track_message m counts)

-- "Consensus progress", logged at a commit: the prepares, the commits and the threshold
unfoldable pub progress : ConsensusMessage → ℕ → Dict MessageType ℕ → Option (ℕ × ℕ × ℕ)
progress m threshold counts =
    if m.kind == commit
    then some (count_of counts prepare, count_of counts commit, threshold)
    else none

-- The loop of the ticker over the map, whose keys come in some order
unfoldable pub stats_from : Dict MessageType ℕ → List MessageType → Dict String ℕ → Dict String ℕ
stats_from counts [] stats = stats
stats_from counts (k ∷ ks) stats =
    stats_from counts ks (Dict.put stats (type_name k) (count_of counts k))

unfoldable pub statistics : Dict MessageType ℕ → Dict String ℕ
unfolding stats_from
statistics counts = stats_from counts (keys counts) Dict.empty

-- The types that the script has a name for
abbrev pub IsNamed : MessageType → Type 0
IsNamed state_transfer = ⊥
IsNamed (unknown n) = ⊥
IsNamed _ = Unit

-- The number of a name
label : String → ℕ
label s =
    if s == "PrePrepare"
    then 0
    else if s == "Prepare"
    then 1
    else if s == "Commit"
    then 2
    else if s == "ViewChange"
    then 3
    else if s == "NewView"
    then 4
    else 5

label-type_name : (k : MessageType) → label (type_name k) ≡ (if ltb (code k) 5 then code k else 5)
unfolding label type_name code
label-type_name pre_prepare = refl
label-type_name prepare = refl
label-type_name commit = refl
label-type_name view_change = refl
label-type_name new_view = refl
label-type_name state_transfer = refl
label-type_name (unknown n) = ground arith

IsNamed-code : (k : MessageType) → IsNamed k → code k < 5
unfolding code
IsNamed-code pre_prepare h = omega arith
IsNamed-code prepare h = omega arith
IsNamed-code commit h = omega arith
IsNamed-code view_change h = omega arith
IsNamed-code new_view h = omega arith
IsNamed-code state_transfer h = absurd h
IsNamed-code (unknown n) h = absurd h

same_label : (j k : MessageType) → IsNamed k → type_name j ≡ type_name k → code j ≡ code k
same_label j k h e =
    ground (arith, label-type_name j, label-type_name k, ap label e, IsNamed-code k h)

named_apart : (k j : MessageType) → IsNamed k → (type_name j == type_name k) ≡ (j == k)
named_apart k j h = elim (Bool-cases (type_name j == type_name k)) [
  | inl e ↦ ground (arith, same_label j k h ((eq_iff (type_name j) (type_name k)).0 e))
  | inr e ↦ elim (Bool-cases (j == k)) [
    | inl same ↦ absurd (
        false≢true
          (sym e ∙ (eq_iff (type_name j) (type_name k)).1 (ap type_name (==_sound j k same))))
    | inr other ↦ e ∙ sym other
  ]
]

stats_from-named :
    (counts : Dict MessageType ℕ) (ks : List MessageType) (stats : Dict String ℕ) (k : MessageType)
    → IsNamed k
    → Dict.get (stats_from counts ks stats) (type_name k)
      ≡ (if contains ks k then some (count_of counts k) else Dict.get stats (type_name k))
unfolding stats_from
stats_from-named counts [] stats k h = refl
stats_from-named counts (j ∷ ks) stats k h =
    stats_from-named counts ks _ k h ∙ elim (Bool-cases (contains ks k)) [
      | inl e ↦ ground (arith)
      | inr e ↦ elim (Bool-cases (j == k)) [
        | inl same ↦ rw (e, get-put, named_apart k j h, same, ==_sound j k same) refl
        | inr other ↦ rw (e, get-put, named_apart k j h, other) refl
      ]
    ]

count_kinds-messages :
    (ms : List ConsensusMessage) (counts : Dict MessageType ℕ)
    → track_messages ms counts ≡ count_kinds (kinds_of ms) counts
unfolding track_messages track_message count_kinds
count_kinds-messages [] counts = refl
count_kinds-messages (m ∷ ms) counts = count_kinds-messages ms (count_kind m.kind counts)

-- The statistics that a node logs hold, for each of the five types that the script has a name for, the
-- number of messages of that type that the callback has got, if there are any, and else no entry.
statistics-named :
    (ms : List ConsensusMessage) (k : MessageType)
    → IsNamed k
    → Dict.get (statistics (track_messages ms Dict.empty)) (type_name k)
      ≡ (if contains (kinds_of ms) k then some (tally (kinds_of ms) (λ j. j == k)) else none)
unfolding statistics
statistics-named ms k h =
    let ks = kinds_of ms in
    let counts = count_kinds ks Dict.empty in
    let known : contains (keys counts) k ≡ contains ks k =
      keys-count_kinds ks Dict.empty k ∙ rw (keys-empty MessageType ℕ) (ground arith) in
    let number : count_of counts k ≡ tally ks (λ j. j == k) = count_of-fresh ks k in
    rw
      (
        count_kinds-messages ms Dict.empty,
        stats_from-named counts (keys counts) Dict.empty k h,
        known,
        number,
        get-empty {V = ℕ} (type_name k),
      )
      refl
