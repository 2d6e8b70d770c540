-- ===== src/Consensus/Agreement.antt =====
-- What the engines of one member list can have agreed on when they report results.
use evm_oracle.Consensus.Decisions.{step-IsSound}
use evm_oracle.Consensus.Votes.{count, box}
use evm_oracle.Consensus.Quorum.{f-init_consensus, shared, boxes_overlap}
use evm_oracle.Consensus.Ballots.{IsBallot}
use evm_oracle.Consensus.Preservation.{run-IsWellFormed}
use evm_oracle.Consensus.Identity.{identity, run-identity}
use evm_oracle.Consensus.Invariant.{IsWellFormed, init_consensus-IsWellFormed, voters}
use evm_oracle.Consensus.Run.{Event, step, run}
use evm_oracle.Consensus.Engine.{Pbft, init_consensus}
use evm_oracle.Consensus.Message.{ConsensusResult, Output, Env, sent, decided}
use evm_oracle.Base.{
  [], ◌∷◌, List, String, All, contains, ◌≡◌, inl, ◌⊎◌, subst, some, true, ◌∙◌, inr, arith, eq_iff,
  string_eq, ◌++◌, ℕ, length, refl, ◌*◌, ◌+◌, ◌≤◌, ap,
}

-- The result `r` stands among the reports.
abbrev pub Reported : ConsensusResult → List Output → Type 0
Reported r [] = ⊥
Reported r (sent m ∷ outs) = Reported r outs
Reported r (decided d ∷ outs) = (d ≡ r) ⊎ Reported r outs

pub All-Reported :
    (P : Output → Type 0) (r : ConsensusResult) (outs : List Output)
    → All P outs
    → Reported r outs
    → P (decided r)
All-Reported P r [] h k = elim k [ ]
All-Reported P r (sent m ∷ outs) h k = All-Reported P r outs h.1 k
All-Reported P r (decided d ∷ outs) h (inl e) = subst (λ x. P (decided x)) e h.0
All-Reported P r (decided d ∷ outs) h (inr k) = All-Reported P r outs h.1 k

-- An engine of a member list, after some history
pub record Ran (env : Env) (id : String) (nodes : List String) (p : Pbft) : Type 0 where
  pub start : Pbft
  pub history : List Event
  pub created : init_consensus id nodes ≡ some start
  pub here : p ≡ (run env start history).0

module _ {env : Env} {id : String} {nodes : List String} {p : Pbft} (ran : Ran env id nodes p) where
  -- An engine that InitConsensus makes is well-formed after any history.
  Ran-IsWellFormed : IsWellFormed p
  Ran-IsWellFormed = rw ran.here (
      run-IsWellFormed env ran.start ran.history
        (init_consensus-IsWellFormed id nodes ran.start ran.created))

  pub Ran-identity : identity p ≡ (id, nodes, ran.start.f)
  Ran-identity =
      rw ran.here (
        run-identity env ran.start ran.history
        ∙ (f-init_consensus id nodes ran.start ran.created).2)

  -- An engine that is itself a member holds votes of members alone.
  pub Ran-commits : contains nodes id ≡ true → IsBallot nodes p.commit_messages
  Ran-commits h = record {
    distinct = ballot.distinct;
    known = λ s j k. ground (arith, ballot.known s j k, Ran-identity, eq_iff id j);
  }
    where
      ballot : IsBallot (voters p) p.commit_messages
      ballot = unfold IsWellFormed in Ran-IsWellFormed.commits

run-append :
    (env : Env) (p : Pbft) (es : List Event) (e : Event)
    → (step env (run env p es).0 e).0 ≡ (run env p (es ++ e ∷ [])).0
unfolding run
run-append env p [] e = refl
run-append env p (d ∷ es) e = run-append env (step env p d).0 es e

module _ {env : Env} {id : String} {nodes : List String} {p : Pbft} (ran : Ran env id nodes p) where
  pub Ran-step : (e : Event) → Ran env id nodes (step env p e).0
  Ran-step e = record {
    start = ran.start;
    history = ran.history ++ e ∷ [];
    created = ran.created;
    here = rw ran.here (run-append env ran.start ran.history e);
  }

  -- Where the number of nodes is 3f+1, the step at which an engine that InitConsensus has made reports a
  -- result, after any history, leaves at least 2f+1 commits for the result's sequence number in its store.
  decided-quorum :
      (e : Event) (r : ConsensusResult) (f : ℕ)
      → length nodes ≡ 3 * f + 1
      → Reported r (step env p e).1
      → 2 * f + 1 ≤ count (step env p e).0.commit_messages r.sequence
  decided-quorum e r f n h =
      let sound = All-Reported _ r _ (step-IsSound env p e) h in
      let same = Ran-identity (Ran-step e) in
      omega (
        arith,
        sound.0,
        f-init_consensus id nodes (Ran-step e).start (Ran-step e).created,
        ap (λ (i : String × List String × ℕ). i.2) same,
      )

-- Let n = 3f+1 be the number of nodes, and let two members of the list, each after any history of its
-- own, report a result in their next step, r at the one and r' at the other. When the steps have ended,
-- at least f+1 members have a commit both in the first engine's store for the sequence number of r and
-- in the second's for that of r'.
pub decisions_overlap :
    {env env' : Env} {id id' : String} {nodes : List String} {p p' : Pbft}
    (ran : Ran env id nodes p) (ran' : Ran env' id' nodes p') (e e' : Event)
    (r r' : ConsensusResult) (f : ℕ)
    → length nodes ≡ 3 * f + 1
    → contains nodes id ≡ true
    → contains nodes id' ≡ true
    → Reported r (step env p e).1
    → Reported r' (step env' p' e').1
    → f + 1
      ≤ shared nodes
          (box (step env p e).0.commit_messages r.sequence)
          (box (step env' p' e').0.commit_messages r'.sequence)
decisions_overlap {nodes} ran ran' e e' r r' f n h h' d d' = omega (
  arith,
  boxes_overlap nodes _ _ r.sequence r'.sequence (Ran-commits (Ran-step ran e) h)
      (Ran-commits (Ran-step ran' e') h'),
  decided-quorum ran e r f n d,
  decided-quorum ran' e' r' f n d',
)
