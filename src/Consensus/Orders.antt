-- ===== src/Consensus/Orders.antt =====
-- The order of the commits of a sequence number does not matter to whether it is executed.
use evm_oracle.Consensus.Progress.{handle_all}
use evm_oracle.Consensus.Handlers.{reached}
use evm_oracle.Consensus.Votes.{box}
use evm_oracle.Base.Dict.{keys}
use evm_oracle.Consensus.Engine.{Pbft}
use mathlib.Core.Path.{fun_ext}
use evm_oracle.Consensus.Slots.{commit_slot, Slot, slot_of}
use evm_oracle.Consensus.Histories.{
  run_slot, commit_at, result_of, IsReady, IsCommit, results_at, handle_all-run_slot,
}
use evm_oracle.Base.Counting.{tally_mono}
use evm_oracle.Consensus.Message.{ConsensusMessage, Env, ConsensusResult}
use evm_oracle.Base.{
  String, List, ℕ, Bool, contains, if◌then◌else◌, ◌≡◌, false, true, ◌==◌, ◌∷◌, [], arith, nat_eq,
  string_eq, inl, inr, refl, All, Bool-cases, tally, leb, ◌*◌, ◌+◌, ◌||◌, length, subst, sym, ◌∙◌,
  ap,
}

-- Who commits at `s` in a history
abbrev pub senders : ℕ → List ConsensusMessage → List String
senders s [] = []
senders s (m ∷ ms) = if m.sequence == s then m.node_id ∷ senders s ms else senders s ms

-- Whether 2f+1 members are among those of a test
unfoldable pub is_quorum : List String → ℕ → (String → Bool) → Bool
is_quorum members f voted = leb (2 * f + 1) (tally members voted)

-- The votes of a slot with those of a history
abbrev pub voted : ℕ → List ConsensusMessage → (String → Bool) → String → Bool
voted s ms before j = before j || contains (senders s ms) j

pub quorum_mono :
    (members : List String) (f : ℕ) (p q : String → Bool)
    → ((j : String) → p j ≡ true → q j ≡ true)
    → is_quorum members f p ≡ true
    → is_quorum members f q ≡ true
unfolding is_quorum
quorum_mono members f p q h e = ground (arith, tally_mono members p q h)

-- What a slot has executed stays, and nothing more is executed.
pub stays :
    (env : Env) (members : List String) (f s : ℕ) (ms : List ConsensusMessage) (a : Slot)
    → a.executed ≡ true
    → run_slot env members f s ms a ≡ (a, [])
unfolding run_slot commit_at commit_slot
stays env members f s [] a h = refl
stays env members f s (m ∷ ms) a h = ground (arith, stays env members f s ms a h)

module _ (members : List String) (f s : ℕ) (m : ConsensusMessage) (a : Slot) where
  abbrev pub counted : String → Bool
  counted j = m.node_id == j || a.committed j

  pub at_other : (m.sequence == s) ≡ false → commit_at members f s m a ≡ (a, false)
  unfolding commit_at
  at_other e = rw e refl

  pub at_own :
      (m.sequence == s) ≡ true
      → a.executed ≡ false
      → let enough = is_quorum members f counted in
        commit_at members f s m a ≡ (record { committed = counted; executed = enough }, enough)
  unfolding commit_at commit_slot is_quorum
  at_own e h = rw (e, h) refl

  pub voted-own :
      (ms : List ConsensusMessage)
      → (m.sequence == s) ≡ true
      → voted s ms counted ≡ voted s (m ∷ ms) a.committed
  voted-own ms e = fun_ext (λ j. ground arith)

  pub voted-other :
      (ms : List ConsensusMessage)
      → (m.sequence == s) ≡ false
      → voted s ms a.committed ≡ voted s (m ∷ ms) a.committed
  voted-other ms e = fun_ext (λ j. ground arith)

-- A slot that executes exactly if there is a quorum of votes, and then once
abbrev Ends : List String → ℕ → (String → Bool) → Slot × List ConsensusResult → Type 0
Ends members f votes (a, results) =
    let enough = is_quorum members f votes in
    (a.executed ≡ enough) × (length results ≡ (if enough then 1 else 0))

Ends-executed :
    (members : List String) (f : ℕ) (votes : String → Bool) (a : Slot) (r : ConsensusResult)
    → a.executed ≡ true
    → is_quorum members f votes ≡ true
    → Ends members f votes (a, r ∷ [])
Ends-executed members f votes a r h e = rw (h, e) (refl, refl)

Ends-silent :
    (members : List String) (f : ℕ) (votes : String → Bool) (a : Slot)
    → a.executed ≡ false
    → is_quorum members f votes ≡ false
    → Ends members f votes (a, [])
Ends-silent members f votes a h e = rw (h, e) (refl, refl)

run_slot-Ends :
    (env : Env) (members : List String) (f s : ℕ) (ms : List ConsensusMessage) (a : Slot)
    → a.executed ≡ false
    → is_quorum members f a.committed ≡ false
    → Ends members f (voted s ms a.committed) (run_slot env members f s ms a)
unfolding run_slot
run_slot-Ends env members f s [] a h few =
    Ends-silent members f _ a h
      (subst (λ v. is_quorum members f v ≡ false) (fun_ext (λ j. ground arith)) few)
run_slot-Ends env members f s (m ∷ ms) a h few = elim (Bool-cases (m.sequence == s)) [
  | inr e ↦
      rw (at_other members f s m a e, sym (voted-other members f s m a ms e))
        (run_slot-Ends env members f s ms a h few)
  | inl e ↦ elim (Bool-cases (is_quorum members f (counted members f s m a))) [
    | inl enough ↦
        let b : Slot = record { committed = counted members f s m a; executed = true } in
        rw
          (
            at_own members f s m a e h,
            enough,
            stays env members f s ms b refl,
            sym (voted-own members f s m a ms e),
          )
          (Ends-executed members f _ b (result_of env m) refl
            (quorum_mono members f (counted members f s m a) _ (λ j k. ground arith) enough))
    | inr less ↦
        rw (at_own members f s m a e h, less, sym (voted-own members f s m a ms e))
          (run_slot-Ends env members f s ms
            (record { committed = counted members f s m a; executed = false }) refl less)
  ]
]

-- The votes that an engine has for a sequence number, with those of a history
abbrev pub votes_after : ℕ → List ConsensusMessage → Pbft → String → Bool
votes_after s ms p j = contains (keys (box p.commit_messages s)) j || contains (senders s ms) j

-- An engine that the machine describes, and that has neither executed `s` nor a quorum for it, handles commits
-- of members for `s` and for sequence numbers below `s`: it has executed `s` at the end exactly if 2f+1 members
-- are among those whose commits for `s` it had and those that have sent one, and it has reported one result for
-- `s` then, and none otherwise.
pub handle_all-quorum :
    (env : Env) (members : List String) (f s : ℕ) (ms : List ConsensusMessage) (p : Pbft)
    → IsReady members f p
    → All (IsCommit members s) ms
    → reached p s ≡ false
    → is_quorum members f (votes_after s [] p) ≡ false
    → let enough = is_quorum members f (votes_after s ms p) in
      (reached (handle_all env ms p).0 s ≡ enough)
      × (length (results_at s (handle_all env ms p).1) ≡ (if enough then 1 else 0))
unfolding slot_of
handle_all-quorum env members f s ms p ready commits fresh few =
    let (slot, results) = handle_all-run_slot env members f s ms p ready commits in
    let ends =
      run_slot-Ends env members f s ms (slot_of p s) fresh
        (subst (λ v. is_quorum members f v ≡ false) (fun_ext (λ j. ground arith)) few) in
    (ap (λ (a : Slot). a.executed) slot ∙ ends.0, ap length results ∙ ends.1)

-- Two histories in which the same members commit at `s`, in whatever order and however often, and with whatever
-- commits for lower sequence numbers between, leave such an engine with `s` executed or not alike, and with
-- equally many results reported for it.
pub handle_all-any_order :
    (env : Env) (members : List String) (f s : ℕ) (ms ns : List ConsensusMessage) (p : Pbft)
    → IsReady members f p
    → All (IsCommit members s) ms
    → All (IsCommit members s) ns
    → ((id : String) → contains (senders s ms) id ≡ contains (senders s ns) id)
    → reached p s ≡ false
    → is_quorum members f (votes_after s [] p) ≡ false
    → (reached (handle_all env ms p).0 s ≡ reached (handle_all env ns p).0 s)
      × (length (results_at s (handle_all env ms p).1)
          ≡ length (results_at s (handle_all env ns p).1))
handle_all-any_order env members f s ms ns p ready commits commits' same fresh few =
    let one = handle_all-quorum env members f s ms p ready commits fresh few in
    let two = handle_all-quorum env members f s ns p ready commits' fresh few in
    let votes : votes_after s ms p ≡ votes_after s ns p = fun_ext (λ j. rw (same j) refl) in
    (
      one.0 ∙ ap (is_quorum members f) votes ∙ sym two.0,
      one.1 ∙ ap (λ v. if is_quorum members f v then 1 else 0) votes ∙ sym two.1,
    )
