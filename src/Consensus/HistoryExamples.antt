-- ===== src/Consensus/HistoryExamples.antt =====
-- The theorems on histories of commits at four members: three commits at 3, one of them twice, and one below.
use evm_oracle.Consensus.Slots.{Implements, commit_slot, slot_of, handle_commit-Implements}
use evm_oracle.Consensus.Normal.{IsBlank, normal_messages, normal_case}
use evm_oracle.Consensus.Divergence.{handle_all-first_of_two}
use evm_oracle.Consensus.Progress.{handle_all, commit_of}
use evm_oracle.Base.Dict
use evm_oracle.Consensus.Votes.{box}
use evm_oracle.Consensus.Handlers.{reached, handle_commit}
use evm_oracle.Consensus.Examples.{commit_from, members, wires, engine_a, well_a, engine_b, result}
use evm_oracle.Consensus.Orders.{is_quorum, handle_all-quorum, handle_all-any_order}
use evm_oracle.Consensus.Histories.{
  IsReady, IsCommit, Tracks, handle_all-run_slot, results_at, result_of,
}
use evm_oracle.Consensus.Message.{ConsensusMessage}
use evm_oracle.Base.{
  List, ◌∷◌, [], refl, ◌≡◌, arith, true, All, length, tally, ◌++◌, ◌≢◌, All-append,
}

abbrev commits : List ConsensusMessage
commits =
    commit_from "b"
    ∷ record (commit_from "d") { sequence = 2 }
    ∷ commit_from "c"
    ∷ commit_from "b"
    ∷ commit_from "d"
    ∷ []

abbrev reordered : List ConsensusMessage
reordered = commit_from "d" ∷ commit_from "c" ∷ commit_from "b" ∷ []

prepared_a : IsReady members 1 engine_a
prepared_a = record {
  nodes = refl;
  faults = refl;
  well = well_a;
  distinct = (refl, (refl, (refl, (refl, tt))));
  own = refl;
  callback = refl;
}

all_commits : All (IsCommit members 3) commits
all_commits = (
  record { kind = refl; member = refl; low = omega arith },
  (
    record { kind = refl; member = refl; low = omega arith },
    (
      record { kind = refl; member = refl; low = omega arith },
      (
        record { kind = refl; member = refl; low = omega arith },
        (record { kind = refl; member = refl; low = omega arith }, tt),
      ),
    ),
  ),
)

all_reordered : All (IsCommit members 3) reordered
all_reordered = (
  record { kind = refl; member = refl; low = omega arith },
  (
    record { kind = refl; member = refl; low = omega arith },
    (record { kind = refl; member = refl; low = omega arith }, tt),
  ),
)

handle_all-run_slot_example : Tracks wires members 1 3 commits engine_a
handle_all-run_slot_example =
    handle_all-run_slot wires members 1 3 commits engine_a prepared_a all_commits

handle_all-quorum_example :
    (reached (handle_all wires commits engine_a).0 3 ≡ true)
    × (length (results_at 3 (handle_all wires commits engine_a).1) ≡ 1)
unfolding is_quorum reached box Dict.get Dict.empty Dict.keys tally
handle_all-quorum_example =
    handle_all-quorum wires members 1 3 commits engine_a prepared_a all_commits refl refl

handle_all-any_order_example :
    (reached (handle_all wires commits engine_a).0 3
      ≡ reached (handle_all wires reordered engine_a).0 3)
    × (length (results_at 3 (handle_all wires commits engine_a).1)
        ≡ length (results_at 3 (handle_all wires reordered engine_a).1))
unfolding is_quorum reached box Dict.get Dict.empty Dict.keys tally
handle_all-any_order_example =
    handle_all-any_order wires members 1 3 commits reordered engine_a prepared_a all_commits
      all_reordered (λ id. ground arith) refl refl

-- The commits of b and c agree, those of d and a do not.
abbrev before_quorum : List ConsensusMessage
before_quorum = commit_from "b" ∷ commit_from "c" ∷ []

abbrev odd_commit : ConsensusMessage
odd_commit = record (commit_from "a") { payload = 9 ∷ [] }

sound_before : All (IsCommit members 3) before_quorum
sound_before = (
  record { kind = refl; member = refl; low = omega arith },
  (record { kind = refl; member = refl; low = omega arith }, tt),
)

all_then :
    (one other : ConsensusMessage)
    → IsCommit members 3 one
    → IsCommit members 3 other
    → All (IsCommit members 3) (before_quorum ++ one ∷ other ∷ [])
all_then one other h k =
    All-append (IsCommit members 3) before_quorum (one ∷ other ∷ []) sound_before (h, (k, tt))

sound_d : IsCommit members 3 (commit_from "d")
sound_d = record { kind = refl; member = refl; low = omega arith }

sound_odd : IsCommit members 3 odd_commit
sound_odd = record { kind = refl; member = refl; low = omega arith }

handle_all-first_of_two_example :
    let one =
      results_at 3
        (handle_all wires (before_quorum ++ commit_from "d" ∷ odd_commit ∷ []) engine_a).1 in
    let other =
      results_at 3
        (handle_all wires (before_quorum ++ odd_commit ∷ commit_from "d" ∷ []) engine_a).1 in
    (one ≡ result_of wires (commit_from "d") ∷ [])
    × (other ≡ result_of wires odd_commit ∷ [])
    × (one ≢ other)
unfolding is_quorum reached box Dict.get Dict.empty Dict.keys tally
handle_all-first_of_two_example =
    handle_all-first_of_two wires members 1 3 before_quorum (commit_from "d") odd_commit engine_a
      prepared_a (all_then (commit_from "d") odd_commit sound_d sound_odd)
      (all_then odd_commit (commit_from "d") sound_odd sound_d) refl refl refl refl refl refl
      (λ e. cc)

empty-IsBlank : IsBlank 3 Dict.empty
unfolding box Dict.get Dict.empty Dict.keys
empty-IsBlank j = refl

normal_case_example :
    results_at 3
      (handle_all wires
        (normal_messages wires 3 0 (7 ∷ []) "a" ("c" ∷ "d" ∷ []) ("a" ∷ "c" ∷ "d" ∷ []))
        engine_b).1
    ≡ result ∷ []
unfolding reached commit_of Dict.get Dict.empty
normal_case_example =
    normal_case wires 3 0 (7 ∷ []) "a" ("c" ∷ "d" ∷ []) ("a" ∷ "c" ∷ "d" ∷ []) engine_b refl
      (omega arith) refl refl empty-IsBlank empty-IsBlank (refl, (refl, (refl, tt))) (omega arith)
      (refl, (refl, (refl, (refl, tt)))) (omega arith)

handle_commit-Implements_example :
    Implements 3
      (result_of wires (commit_from "b"))
      (handle_commit wires (commit_from "b") engine_a)
      (commit_slot members 1 "b" (slot_of engine_a 3))
handle_commit-Implements_example =
    handle_commit-Implements wires (commit_from "b") engine_a well_a
      (refl, (refl, (refl, (refl, tt)))) refl refl refl
