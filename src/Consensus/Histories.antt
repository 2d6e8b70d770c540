-- ===== src/Consensus/Histories.antt =====
-- A history of commits, as a run of the abstract machine of one sequence number.
use evm_oracle.Consensus.Progress.{handle_all}
use mathlib.Core.Path.{fun_ext}
use evm_oracle.Base.Dict.{get-put}
use evm_oracle.Base.Dict
use evm_oracle.Consensus.Preservation.{handle_message-IsWellFormed}
use evm_oracle.Consensus.Votes.{box-keep_from, file, get-keep_from, box-file}
use evm_oracle.Consensus.Identity.{identity, dispatch-identity}
use evm_oracle.Consensus.Execute.{
  execute_consensus, cleanup, make_checkpoint, take_checkpoint, announce,
}
use evm_oracle.Consensus.Handlers.{handle_commit, handle_message, dispatch, reached}
use evm_oracle.Consensus.Invariant.{IsWellFormed}
use evm_oracle.Consensus.Slots.{Slot, commit_slot, slot_of, Implements, handle_commit-Implements}
use evm_oracle.Consensus.Engine.{Pbft}
use evm_oracle.Consensus.Message.{
  ConsensusMessage, Env, Output, ConsensusResult, commit, sent, decided,
}
use evm_oracle.Base.{
  String, List, ℕ, Bool, contains, IsDistinct, if◌then◌else◌, ◌≡◌, false, true, ◌==◌, ◌∷◌, [], ◌++◌,
  arith, nat_eq, refl, ◌≤◌, string_eq, ap, subst, sym, ◌∙◌, ==_refl, Bool-cases, All, inl, ==_sound,
  inr,
}

-- The commit as far as it is one of the sequence number `s`
unfoldable pub commit_at : List String → ℕ → ℕ → ConsensusMessage → Slot → Slot × Bool
commit_at members f s m a =
    if m.sequence == s then commit_slot members f m.node_id a else (a, false)

-- What the callback gets for a commit
abbrev pub result_of : Env → ConsensusMessage → ConsensusResult
result_of env m = record {
  sequence = m.sequence;
  payload = m.payload;
  digest = env.sha256 m.payload;
}

-- The machine on the commits of a history, with the results of those that execute
unfoldable pub run_slot :
    Env → List String → ℕ → ℕ → List ConsensusMessage → Slot → Slot × List ConsensusResult
run_slot env members f s [] a = (a, [])
run_slot env members f s (m ∷ ms) a =
    let (b, executes) = commit_at members f s m a in
    let (c, results) = run_slot env members f s ms b in
    (c, if executes then result_of env m ∷ results else results)

-- The results that an engine reports for a sequence number
unfoldable pub results_at : ℕ → List Output → List ConsensusResult
results_at s [] = []
results_at s ((sent m) ∷ outs) = results_at s outs
results_at s ((decided r) ∷ outs) =
    let rest = results_at s outs in if r.sequence == s then r ∷ rest else rest

pub results_at-append :
    (s : ℕ) (front back : List Output)
    → results_at s (front ++ back) ≡ results_at s front ++ results_at s back
unfolding results_at
results_at-append s [] back = refl
results_at-append s ((sent m) ∷ front) back = results_at-append s front back
results_at-append s ((decided r) ∷ front) back = ground (arith, results_at-append s front back)

-- A commit of a member at `s` or below
pub record IsCommit (members : List String) (s : ℕ) (m : ConsensusMessage) : Type 0 where
  pub kind : m.kind ≡ commit
  pub member : contains members m.node_id ≡ true
  pub low : m.sequence ≤ s

-- An engine of these members and this f that the machine describes
pub record IsReady (members : List String) (f : ℕ) (p : Pbft) : Type 0 where
  pub nodes : p.nodes ≡ members
  pub faults : p.f ≡ f
  pub well : IsWellFormed p
  pub distinct : IsDistinct members
  pub own : contains members p.node_id ≡ true
  pub callback : p.has_callback ≡ true

pub same_slot :
    (a b : Slot)
    → ((id : String) → a.committed id ≡ b.committed id)
    → a.executed ≡ b.executed
    → a ≡ b
same_slot a b h e = λ i. record { committed = fun_ext h i; executed = e i }

module _ (env : Env) (s : ℕ) (m : ConsensusMessage) where
  commit-callback : (p : Pbft) → (handle_commit env m p).0.has_callback ≡ p.has_callback
  unfolding handle_commit execute_consensus cleanup make_checkpoint take_checkpoint
  commit-callback p = ground arith

  handled : (p : Pbft) → m.kind ≡ commit → handle_message env m p ≡ handle_commit env m p
  unfolding handle_message dispatch
  handled p e = rw e refl

  commit-identity : (p : Pbft) → identity (handle_commit env m p).0 ≡ identity p
  unfolding dispatch
  commit-identity p = dispatch-identity env commit m p

  commit-IsReady :
      (members : List String) (f : ℕ) (p : Pbft)
      → IsReady members f p
      → IsCommit members s m
      → IsReady members f (handle_commit env m p).0
  commit-IsReady members f p ready is = record {
    nodes = ap (λ (i : String × List String × ℕ). i.1) (commit-identity p) ∙ ready.nodes;
    faults = ap (λ (i : String × List String × ℕ). i.2) (commit-identity p) ∙ ready.faults;
    well =
        subst IsWellFormed (ap (λ (r : Pbft × List Output). r.0) (handled p is.kind))
          (handle_message-IsWellFormed env p m (ground (arith, is.member, ready.nodes)) ready.well);
    distinct = ready.distinct;
    own = rw (ap (λ (i : String × List String × ℕ). i.0) (commit-identity p)) ready.own;
    callback = commit-callback p ∙ ready.callback;
  }

  -- A commit below `s` leaves the votes and the result of `s` alone.
  other-committed :
      (p : Pbft) (j : String)
      → m.sequence ≤ s
      → (m.sequence == s) ≡ false
      → (slot_of (handle_commit env m p).0 s).committed j ≡ (slot_of p s).committed j
  unfolding slot_of handle_commit execute_consensus cleanup make_checkpoint take_checkpoint
  other-committed p j low other = ground (
    arith,
    box-keep_from (file p.commit_messages m.sequence m.node_id m) m.sequence s,
    box-file p.commit_messages m.sequence s m.node_id m,
  )

  other-executed :
      (p : Pbft)
      → m.sequence ≤ s
      → (m.sequence == s) ≡ false
      → (slot_of (handle_commit env m p).0 s).executed ≡ (slot_of p s).executed
  unfolding slot_of reached handle_commit execute_consensus cleanup make_checkpoint take_checkpoint
  other-executed p low other = ground (
    arith,
    get-keep_from m.sequence s (Dict.put p.consensus_reached m.sequence true),
    get-put p.consensus_reached m.sequence s true,
  )

  other-results :
      (p : Pbft) → (m.sequence == s) ≡ false → results_at s (handle_commit env m p).1 ≡ []
  unfolding results_at handle_commit execute_consensus announce
  other-results p other = ground arith

-- What a commit does to the machine's view of an engine, and what is reported for `s`
abbrev Follows : Env → List String → ℕ → ℕ → ConsensusMessage → Pbft → Type 0
Follows env members f s m p =
    let (a, executes) = commit_at members f s m (slot_of p s) in
    (slot_of (handle_commit env m p).0 s ≡ a)
    × (results_at s (handle_commit env m p).1 ≡ (if executes then result_of env m ∷ [] else []))

pub results_of_one :
    (b : Bool) (r : ConsensusResult)
    → results_at r.sequence (if b then decided r ∷ [] else []) ≡ (if b then r ∷ [] else [])
unfolding results_at
results_of_one true r = rw (==_refl r.sequence) refl
results_of_one false r = refl

commit-Follows_own :
    (env : Env) (members : List String) (f : ℕ) (m : ConsensusMessage) (p : Pbft)
    → IsReady members f p
    → contains members m.node_id ≡ true
    → Follows env members f m.sequence m p
unfolding commit_at
commit-Follows_own env members f m p ready member = rw (==_refl m.sequence) (
  same_slot _ _ (λ id. done.committed id) done.executed,
  ap (results_at m.sequence) done.reports ∙ results_of_one executes (result_of env m),
)
  where
    executes : Bool
    executes = (commit_slot members f m.node_id (slot_of p m.sequence)).1

    done :
        Implements m.sequence
          (result_of env m)
          (handle_commit env m p)
          (commit_slot members f m.node_id (slot_of p m.sequence))
    done =
        rw (sym ready.nodes, sym ready.faults)
          (handle_commit-Implements env m p ready.well
            (subst IsDistinct (sym ready.nodes) ready.distinct) (rw ready.nodes ready.own)
            (rw ready.nodes member) ready.callback)

commit-Follows :
    (env : Env) (members : List String) (f s : ℕ) (m : ConsensusMessage) (p : Pbft)
    → IsReady members f p
    → IsCommit members s m
    → Follows env members f s m p
unfolding commit_at
commit-Follows env members f s m p ready is = elim (Bool-cases (m.sequence == s)) [
  | inl e ↦
      subst (λ t. Follows env members f t m p) (==_sound m.sequence s e)
        (commit-Follows_own env members f m p ready is.member)
  | inr e ↦ rw e (
    same_slot _ _ (λ id. other-committed env s m p id is.low e) (other-executed env s m p is.low e),
    other-results env s m p e,
  )
]

pub joined :
    (b : Bool) (r : ConsensusResult) (rest : List ConsensusResult)
    → (if b then r ∷ [] else []) ++ rest ≡ (if b then r ∷ rest else rest)
joined true r rest = refl
joined false r rest = refl

abbrev pub Tracks : Env → List String → ℕ → ℕ → List ConsensusMessage → Pbft → Type 0
Tracks env members f s ms p =
    let (a, results) = run_slot env members f s ms (slot_of p s) in
    (slot_of (handle_all env ms p).0 s ≡ a) × (results_at s (handle_all env ms p).1 ≡ results)

Tracks-cons :
    (env : Env) (members : List String) (f s : ℕ) (m : ConsensusMessage)
    (ms : List ConsensusMessage) (p : Pbft)
    → m.kind ≡ commit
    → Follows env members f s m p
    → Tracks env members f s ms (handle_commit env m p).0
    → Tracks env members f s (m ∷ ms) p
unfolding handle_all run_slot
Tracks-cons env members f s m ms p kind first rest = rw (handled env s m p kind) (
  rest.0 ∙ ap (λ b. (run_slot env members f s ms b).0) first.0,
  results_at-append s (handle_commit env m p).1 (handle_all env ms (handle_commit env m p).0).1
      ∙ rw (first.1, rest.1, first.0)
          (joined (commit_at members f s m (slot_of p s)).1 (result_of env m) _),
)

-- An engine of distinct members that hold itself, with a callback, handles commits of members for `s` and for
-- sequence numbers below `s`, in any order: for `s` it ends with the votes of the abstract machine that has run
-- on the commits for `s`, and the results it has reported for `s` are the machine's.
pub handle_all-run_slot :
    (env : Env) (members : List String) (f s : ℕ) (ms : List ConsensusMessage) (p : Pbft)
    → IsReady members f p
    → All (IsCommit members s) ms
    → Tracks env members f s ms p
unfolding handle_all run_slot results_at
handle_all-run_slot env members f s [] p ready h = (refl, refl)
handle_all-run_slot env members f s (m ∷ ms) p ready h =
    Tracks-cons env members f s m ms p h.0.kind (commit-Follows env members f s m p ready h.0) (
      handle_all-run_slot env members f s ms (handle_commit env m p).0
        (commit-IsReady env s m members f p ready h.0) h.1)
