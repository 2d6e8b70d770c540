-- ===== src/Consensus/Divergence.antt =====
-- Commits are counted whatever they carry: the one that completes the quorum decides on the payload.
use evm_oracle.Consensus.Progress.{handle_all}
use evm_oracle.Consensus.Handlers.{reached}
use evm_oracle.Consensus.Engine.{Pbft}
use evm_oracle.Consensus.Slots.{Slot, slot_of}
use mathlib.Core.Bool.{false≢true}
use evm_oracle.Consensus.Message.{ConsensusResult, Env, ConsensusMessage}
use evm_oracle.Consensus.Histories.{
  run_slot, commit_at, same_slot, result_of, IsReady, IsCommit, results_at, handle_all-run_slot,
}
use evm_oracle.Consensus.Orders.{
  is_quorum, quorum_mono, voted, counted, voted-other, at_own, at_other, stays, voted-own,
  votes_after,
}
use evm_oracle.Base.{
  String, List, ℕ, Bool, ◌≡◌, false, true, ◌==◌, ◌∷◌, [], ◌++◌, arith, nat_eq, string_eq, inl, inr,
  refl, Bool-cases, sym, subst, ap, ◌∙◌, if◌then◌else◌, Bytes, All, ◌||◌, ◌≢◌,
}

-- Fewer votes than some that are no quorum are none either.
quorum_anti :
    (members : List String) (f : ℕ) (p q : String → Bool)
    → ((j : String) → p j ≡ true → q j ≡ true)
    → is_quorum members f q ≡ false
    → is_quorum members f p ≡ false
quorum_anti members f p q h e = elim (Bool-cases (is_quorum members f p)) [
  | inl k ↦ absurd (false≢true (sym e ∙ quorum_mono members f p q h k))
  | inr k ↦ k
]

-- Votes that are no quorum together only add up.
run_slot-waits :
    (env : Env) (members : List String) (f s : ℕ) (ms : List ConsensusMessage) (a : Slot)
    → a.executed ≡ false
    → is_quorum members f (voted s ms a.committed) ≡ false
    → run_slot env members f s ms a
      ≡ (record { committed = voted s ms a.committed; executed = false }, [])
unfolding run_slot
run_slot-waits env members f s [] a h few = ap (λ b. (b, [])) (same_slot _ _ (λ j. ground arith) h)
run_slot-waits env members f s (m ∷ ms) a h few = elim (Bool-cases (m.sequence == s)) [
  | inr e ↦
      let same = voted-other members f s m a ms e in
      rw (at_other members f s m a e, sym same)
        (run_slot-waits env members f s ms a h
          (subst (λ v. is_quorum members f v ≡ false) (sym same) few))
  | inl e ↦
      let same = voted-own members f s m a ms e in
      let few' : is_quorum members f (voted s ms (counted members f s m a)) ≡ false =
        subst (λ v. is_quorum members f v ≡ false) (sym same) few in
      let less : is_quorum members f (counted members f s m a) ≡ false =
        quorum_anti members f (counted members f s m a) (voted s ms (counted members f s m a))
          (λ j k. ground arith) few' in
      rw (at_own members f s m a e h, less, sym same)
        (run_slot-waits env members f s ms
          (record { committed = counted members f s m a; executed = false }) refl few')
]

pushed :
    (b : Bool) (r : ConsensusResult) (xs ys : List ConsensusResult)
    → (if b then r ∷ xs else xs) ++ ys ≡ (if b then r ∷ xs ++ ys else xs ++ ys)
pushed true r xs ys = refl
pushed false r xs ys = refl

run_slot-append :
    (env : Env) (members : List String) (f s : ℕ) (ms ns : List ConsensusMessage) (a : Slot)
    → (run_slot env members f s (ms ++ ns) a).1
      ≡ (run_slot env members f s ms a).1
        ++ (run_slot env members f s ns (run_slot env members f s ms a).0).1
unfolding run_slot
run_slot-append env members f s [] ns a = refl
run_slot-append env members f s (m ∷ ms) ns a =
    let (b, executes) = commit_at members f s m a in
    rw (run_slot-append env members f s ms ns b) (sym (pushed executes (result_of env m) _ _))

-- A slot that waits for one vote more
completes :
    (env : Env) (members : List String) (f s : ℕ) (m : ConsensusMessage)
    (ns : List ConsensusMessage) (a : Slot)
    → a.executed ≡ false
    → (m.sequence == s) ≡ true
    → is_quorum members f (counted members f s m a) ≡ true
    → (run_slot env members f s (m ∷ ns) a).1 ≡ result_of env m ∷ []
unfolding run_slot
completes env members f s m ns a h e enough =
    rw
      (
        at_own members f s m a e h,
        enough,
        stays env members f s ns (record { committed = counted members f s m a; executed = true })
            refl,
      )
      refl

-- A commit for `s` that completes the quorum decides, whatever the payloads of the commits before it.
last_decides :
    (env : Env) (members : List String) (f s : ℕ) (ms ns : List ConsensusMessage)
    (m : ConsensusMessage) (p : Pbft)
    → IsReady members f p
    → All (IsCommit members s) (ms ++ m ∷ ns)
    → reached p s ≡ false
    → is_quorum members f (votes_after s ms p) ≡ false
    → (m.sequence == s) ≡ true
    → is_quorum members f (λ j. m.node_id == j || votes_after s ms p j) ≡ true
    → results_at s (handle_all env (ms ++ m ∷ ns) p).1 ≡ result_of env m ∷ []
unfolding slot_of
last_decides env members f s ms ns m p ready commits fresh few own enough =
    let a = slot_of p s in
    (handle_all-run_slot env members f s (ms ++ m ∷ ns) p ready commits).1
    ∙ run_slot-append env members f s ms (m ∷ ns) a
    ∙ rw (run_slot-waits env members f s ms a fresh few) (
        completes env members f s m ns
          (record { committed = voted s ms a.committed; executed = false }) refl own enough)

first_payload : List ConsensusResult → Bytes
first_payload [] = []
first_payload (r ∷ rs) = r.payload

same_payload :
    (env : Env) (m n : ConsensusMessage)
    → result_of env m ∷ [] ≡ result_of env n ∷ []
    → m.payload ≡ n.payload
unfolding first_payload
same_payload env m n e = ap first_payload e

-- The engine does not compare what commits carry. Where some commits for `s` and below leave an engine that the
-- machine describes, and that has not executed `s`, short of a quorum for `s`, and each of two further commits
-- for `s` completes it, the engine reports the payload of the one that comes first: so the same commits lead to
-- two results in two orders, if the two carry different payloads.
pub handle_all-first_of_two :
    (env : Env) (members : List String) (f s : ℕ) (ms : List ConsensusMessage)
    (m n : ConsensusMessage) (p : Pbft)
    → IsReady members f p
    → All (IsCommit members s) (ms ++ m ∷ n ∷ [])
    → All (IsCommit members s) (ms ++ n ∷ m ∷ [])
    → reached p s ≡ false
    → is_quorum members f (votes_after s ms p) ≡ false
    → (m.sequence == s) ≡ true
    → (n.sequence == s) ≡ true
    → is_quorum members f (λ j. m.node_id == j || votes_after s ms p j) ≡ true
    → is_quorum members f (λ j. n.node_id == j || votes_after s ms p j) ≡ true
    → m.payload ≢ n.payload
    → let one = results_at s (handle_all env (ms ++ m ∷ n ∷ []) p).1 in
      let other = results_at s (handle_all env (ms ++ n ∷ m ∷ []) p).1 in
      (one ≡ result_of env m ∷ []) × (other ≡ result_of env n ∷ []) × (one ≢ other)
handle_all-first_of_two env members f s ms m n p ready commits commits' fresh few own own' enough
      enough' apart =
    let one = last_decides env members f s ms (n ∷ []) m p ready commits fresh few own enough in
    let other =
      last_decides env members f s ms (m ∷ []) n p ready commits' fresh few own' enough' in
    (one, other, λ e. apart (same_payload env m n (sym one ∙ e ∙ other)))
