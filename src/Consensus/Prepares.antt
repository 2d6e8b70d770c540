-- ===== src/Consensus/Prepares.antt =====
-- Prepares at one engine: each is stored, and from the 2f-th on the engine commits.
use mathlib.Core.Bool.{false≢true}
use evm_oracle.Consensus.Progress.{commit_of, handle_all, count-file}
use evm_oracle.Consensus.Histories.{results_at, results_at-append}
use evm_oracle.Consensus.Handlers.{handle_message, vote, handle_prepare, cast_commit}
use evm_oracle.Base.Dict.{keys, keys-put, size-put, length-keys}
use evm_oracle.Consensus.Message.{Env, ConsensusMessage, prepare, commit, Output}
use evm_oracle.Consensus.Execute.{broadcast, manager_broadcast}
use evm_oracle.Consensus.Votes.{Votes, count, box, file, box-file}
use evm_oracle.Consensus.Engine.{Pbft}
use evm_oracle.Base.Dict
use evm_oracle.Base.{
  [], ◌∷◌, List, ℕ, String, Bytes, contains, ◌≡◌, ◌++◌, false, true, ◌+◌, ◌*◌, map, arith, ==_refl,
  ◌==◌, string_eq, nat_eq, refl, ◌<◌, ◌≤◌, IsDistinct, eq_iff, length, inl, inr, ◌⊎◌, leb,
  Bool-cases, sym, ◌∙◌,
}

-- The two stores of an engine replaced
abbrev pub with_votes : Pbft → Votes → Votes → Pbft
with_votes p v w = record p { prepare_messages = v; commit_messages = w }

-- At `s` a store of commits has no vote, or that of the engine alone.
pub record IsOwn (own : String) (s : ℕ) (w : Votes) : Type 0 where
  pub few : (count w s ≡ 0) ⊎ ((count w s ≡ 1) × (contains (keys (box w s)) own ≡ true))
  pub others : (j : String) → (own == j) ≡ false → contains (keys (box w s)) j ≡ false

pub contains-pos : (xs : List String) (a : String) → contains xs a ≡ true → 0 < length xs
contains-pos [] a h = absurd (false≢true h)
contains-pos (x ∷ xs) a h = omega arith

count-own :
    (own : String) (s : ℕ) (w : Votes) (m : ConsensusMessage)
    → IsOwn own s w
    → count (file w s own m) s ≡ 1
unfolding count
count-own own s w m is = rw (box-file w s s own m, ==_refl s) (grown is.few)
  where
    grown :
        ((count w s ≡ 0) ⊎ ((count w s ≡ 1) × (contains (keys (box w s)) own ≡ true)))
        → Dict.size (Dict.put (box w s) own m) ≡ 1
    grown (inl e) = ground (
      arith,
      size-put (box w s) own m,
      e,
      length-keys (box w s),
      contains-pos (keys (box w s)) own,
    )
    grown (inr (e, h)) = ground (arith, size-put (box w s) own m, e, h)

holds-own :
    (own : String) (s : ℕ) (w : Votes) (m : ConsensusMessage)
    → contains (keys (box (file w s own m) s)) own ≡ true
holds-own own s w m =
    rw (box-file w s s own m, ==_refl s) (ground (arith, keys-put (box w s) own own m, ==_refl own))

IsOwn-file :
    (own : String) (s : ℕ) (w : Votes) (m : ConsensusMessage)
    → IsOwn own s w
    → IsOwn own s (file w s own m)
IsOwn-file own s w m is = record {
  few = inr (count-own own s w m is, holds-own own s w m);
  others = λ j h.
      rw (box-file w s s own m, ==_refl s)
        (ground (arith, keys-put (box w s) own j m, is.others j h));
}

pub none_in_both :
    (s : ℕ) (front back : List Output)
    → results_at s front ≡ []
    → results_at s back ≡ []
    → results_at s (front ++ back) ≡ []
none_in_both s front back h k = results_at-append s front back ∙ rw (h, k) refl

pub results_at-broadcast :
    (env : Env) (s : ℕ) (p : Pbft) (m : ConsensusMessage) → results_at s (broadcast env p m).1 ≡ []
unfolding broadcast manager_broadcast results_at
results_at-broadcast env s p m = ground arith

pub fresh-file :
    (s : ℕ) (id : String) (m : ConsensusMessage) (ids : List String) (x : Votes)
    → contains ids id ≡ false
    → ((j : String) → contains (id ∷ ids) j ≡ true → contains (keys (box x s)) j ≡ false)
    → (j : String) → contains ids j ≡ true
    → contains (keys (box (file x s id m) s)) j ≡ false
fresh-file s id m ids x new fresh j h =
    rw (box-file x s s id m, ==_refl s)
      (ground (arith, keys-put (box x s) id j m, fresh j, eq_iff id j))

module _ (env : Env) (s v : ℕ) (digest payload : Bytes) where
  abbrev pub prepare_of : String → ConsensusMessage
  prepare_of id = record (commit_of env s v digest payload id) { kind = prepare }

  own_commit : Pbft → ConsensusMessage
  own_commit p = vote commit p (prepare_of "") digest

  module _ (p : Pbft) (positive : 1 ≤ p.f) where
    prepare_waits :
        (id : String) (x w : Votes)
        → leb (2 * p.f) (count (file x s id (prepare_of id)) s) ≡ false
        → handle_message env (prepare_of id) (with_votes p x w)
          ≡ (with_votes p (file x s id (prepare_of id)) w, [])
    unfolding handle_message handle_prepare commit_of
    prepare_waits id x w few = rw few refl

    prepare_casts :
        (id : String) (x w : Votes)
        → IsOwn p.node_id s w
        → leb (2 * p.f) (count (file x s id (prepare_of id)) s) ≡ true
        → handle_message env (prepare_of id) (with_votes p x w) ≡ (
          with_votes p (file x s id (prepare_of id)) (file w s p.node_id (own_commit p)),
          (broadcast env p (own_commit p)).1,
        )
    unfolding handle_message handle_prepare commit_of cast_commit own_commit vote broadcast
    prepare_casts id x w own enough =
        let short : leb (2 * p.f + 1) (count (file w s p.node_id (own_commit p)) s) ≡ false =
          ground (arith, count-own p.node_id s w (own_commit p) own) in
        rw (enough, short) refl

    -- A prepare handled
    record Step (id : String) (x w : Votes) : Type 0 where
      pub after : Votes
      pub outs : List Output
      pub done :
          handle_message env (prepare_of id) (with_votes p x w)
          ≡ (with_votes p (file x s id (prepare_of id)) after, outs)
      pub own : IsOwn p.node_id s after
      pub quiet : results_at s outs ≡ []
      pub cast :
          leb (2 * p.f) (count (file x s id (prepare_of id)) s) ≡ true
          → contains (keys (box after s)) p.node_id ≡ true

    prepare-Step : (id : String) (x w : Votes) → IsOwn p.node_id s w → Step id x w
    prepare-Step id x w own =
        elim (Bool-cases (leb (2 * p.f) (count (file x s id (prepare_of id)) s))) [
          | inl e ↦ record {
            after = file w s p.node_id (own_commit p);
            outs = (broadcast env p (own_commit p)).1;
            done = prepare_casts id x w own e;
            own = IsOwn-file p.node_id s w (own_commit p) own;
            quiet = results_at-broadcast env s p (own_commit p);
            cast = λ _. holds-own p.node_id s w (own_commit p);
          }
          | inr e ↦ record {
            after = w;
            outs = [];
            done = prepare_waits id x w e;
            own = own;
            quiet = unfold results_at in refl;
            cast = λ enough. absurd (false≢true (sym e ∙ enough));
          }
        ]

    -- What prepares have left: two stores, the second with the engine's own commit, and no result
    pub record Prepared (r : Pbft × List Output) : Type 0 where
      pub prepares : Votes
      pub commits : Votes
      pub state : r.0 ≡ with_votes p prepares commits
      pub own : IsOwn p.node_id s commits
      pub cast : contains (keys (box commits s)) p.node_id ≡ true
      pub quiet : results_at s r.1 ≡ []

    Prepared-cons :
        (outs : List Output) (r : Pbft × List Output)
        → results_at s outs ≡ []
        → Prepared r
        → Prepared (r.0, outs ++ r.1)
    Prepared-cons outs r h q = record {
      prepares = q.prepares;
      commits = q.commits;
      state = q.state;
      own = q.own;
      cast = q.cast;
      quiet = none_in_both s outs r.1 h q.quiet;
    }

    pub prepares-Prepared :
        (id : String) (ids : List String) (x w : Votes)
        → IsDistinct (id ∷ ids)
        → ((j : String) → contains (id ∷ ids) j ≡ true → contains (keys (box x s)) j ≡ false)
        → IsOwn p.node_id s w
        → 2 * p.f ≤ count x s + length (id ∷ ids)
        → Prepared (handle_all env (map prepare_of (id ∷ ids)) (with_votes p x w))
    unfolding handle_all
    prepares-Prepared id [] x w d fresh own enough =
        let st = prepare-Step id x w own in
        let grown = count-file x s id (prepare_of id) (fresh id (ground (arith, ==_refl id))) in
        rw st.done (record {
          prepares = file x s id (prepare_of id);
          commits = st.after;
          state = refl;
          own = st.own;
          cast = st.cast (ground (arith, grown));
          quiet = none_in_both s st.outs [] st.quiet (unfold results_at in refl);
        })
    prepares-Prepared id (next ∷ ids) x w d fresh own enough =
        let st = prepare-Step id x w own in
        let m = prepare_of id in
        let grown = count-file x s id m (fresh id (ground (arith, ==_refl id))) in
        rw st.done (
          Prepared-cons st.outs _ st.quiet (
            prepares-Prepared next ids (file x s id m) st.after d.1
              (fresh-file s id m (next ∷ ids) x d.0 fresh) st.own (omega (arith, grown))))
