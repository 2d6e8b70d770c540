-- ===== src/Consensus/Normal.antt =====
-- The three phases of the normal case together.
use evm_oracle.Consensus.Histories.{result_of, results_at, results_at-append, results_of_one}
use evm_oracle.Consensus.Prepares.{
  IsOwn, fresh-file, contains-pos, Prepared, with_votes, prepare_of, prepares-Prepared,
  results_at-broadcast,
}
use evm_oracle.Consensus.Execute.{compute_digest, broadcast}
use mathlib.Core.List.{append_assoc}
use evm_oracle.Consensus.Handlers.{handle_message, vote, handle_pre_prepare, reached}
use evm_oracle.Consensus.Engine.{Pbft}
use evm_oracle.Base.Dict.{keys, length-keys}
use evm_oracle.Consensus.Message.{Env, ConsensusMessage, pre_prepare, prepare, Output, decided}
use evm_oracle.Consensus.Votes.{Votes, count, box, file}
use mathlib.Core.Bool.{false≢true}
use evm_oracle.Consensus.Progress.{handle_all, commit_of, count-file, commits_decide}
use evm_oracle.Base.{
  [], ◌∷◌, List, ℕ, String, Bytes, contains, ◌≡◌, ◌++◌, false, true, ◌+◌, ◌*◌, map, arith, ==_refl,
  ◌==◌, string_eq, nat_eq, refl, ◌≤◌, IsDistinct, eq_iff, length, inl, inr, sym, ap, ◌∙◌,
  bytes_equal_iff, ltb, bytes_equal,
}

handle_all-append :
    (env : Env) (ms ns : List ConsensusMessage) (p : Pbft)
    → let r = handle_all env ms p in
      let rest = handle_all env ns r.0 in handle_all env (ms ++ ns) p ≡ (rest.0, r.1 ++ rest.1)
unfolding handle_all
handle_all-append env [] ns p = refl
handle_all-append env (m ∷ ms) ns p =
    let (q, outs) = handle_message env m p in
    let mid = handle_all env ms q in
    let rest = handle_all env ns mid.0 in
    rw (handle_all-append env ms ns q)
      (ap (λ (o : List Output). (rest.0, o)) (sym (append_assoc outs mid.1 rest.1)))

results-append :
    (env : Env) (s : ℕ) (ms ns : List ConsensusMessage) (p : Pbft)
    → results_at s (handle_all env (ms ++ ns) p).1
      ≡ results_at s (handle_all env ms p).1
        ++ results_at s (handle_all env ns (handle_all env ms p).0).1
results-append env s ms ns p =
    ap (λ (r : Pbft × List Output). results_at s r.1) (handle_all-append env ms ns p)
    ∙ results_at-append s (handle_all env ms p).1 (handle_all env ns (handle_all env ms p).0).1

results-cons :
    (env : Env) (s : ℕ) (m : ConsensusMessage) (ms : List ConsensusMessage) (p : Pbft)
    → results_at s (handle_all env (m ∷ ms) p).1
      ≡ results_at s (handle_message env m p).1
        ++ results_at s (handle_all env ms (handle_message env m p).0).1
unfolding handle_all
results-cons env s m ms p =
    results_at-append s (handle_message env m p).1 (handle_all env ms (handle_message env m p).0).1

no_members : (xs : List String) → ((j : String) → contains xs j ≡ false) → length xs ≡ 0
no_members [] h = refl
no_members (x ∷ xs) h = absurd (false≢true (sym (h x) ∙ ground (arith, ==_refl x)))

-- No vote at `s`
abbrev pub IsBlank : ℕ → Votes → Type 0
IsBlank s v = (j : String) → contains (keys (box v s)) j ≡ false

count-blank : (s : ℕ) (v : Votes) → IsBlank s v → count v s ≡ 0
unfolding count
count-blank s v h = sym (length-keys (box v s)) ∙ no_members (keys (box v s)) h

IsOwn-blank : (own : String) (s : ℕ) (v : Votes) → IsBlank s v → IsOwn own s v
IsOwn-blank own s v h = record { few = inl (count-blank s v h); others = λ j e. h j }

count-cast :
    (own : String) (s : ℕ) (w : Votes)
    → IsOwn own s w
    → contains (keys (box w s)) own ≡ true
    → count w s ≡ 1
unfolding count
count-cast own s w is cast = elim is.few [
  | inl none_yet ↦
      absurd
        (omega (arith, contains-pos (keys (box w s)) own cast, length-keys (box w s), none_yet))
  | inr (one, has) ↦ one
]

apart :
    (a j : String) (ids : List String)
    → contains ids a ≡ false
    → contains ids j ≡ true
    → (a == j) ≡ false
apart a j ids new h = ground (arith, eq_iff a j)

module _ (env : Env) (s v : ℕ) (payload : Bytes) where
  abbrev digest_of : Bytes
  digest_of = env.sha256 payload

  abbrev pub pre_prepare_of : String → ConsensusMessage
  pre_prepare_of id = record (commit_of env s v digest_of payload id) { kind = pre_prepare }

  own_prepare : Pbft → ConsensusMessage
  own_prepare p = vote prepare p (pre_prepare_of "") digest_of

  accepts_proposal :
      (leader : String) (p : Pbft)
      → ltb s p.sequence ≡ false
      → handle_message env (pre_prepare_of leader) p ≡ (
        record p { prepare_messages = file p.prepare_messages s p.node_id (own_prepare p) },
        (broadcast env p (own_prepare p)).1,
      )
  unfolding handle_message handle_pre_prepare commit_of vote own_prepare compute_digest
  accepts_proposal leader p late =
      let same : bytes_equal digest_of digest_of ≡ true =
        (bytes_equal_iff digest_of digest_of).1 refl in
      rw (late, same) refl

  -- The engine with its own prepare stored
  abbrev proposed : Pbft → Pbft
  proposed p = record p { prepare_messages = file p.prepare_messages s p.node_id (own_prepare p) }

  -- The stored prepare is the only one.
  count-proposed :
      (p : Pbft) → IsBlank s p.prepare_messages → count (proposed p).prepare_messages s ≡ 1
  count-proposed p blank = omega (
    arith,
    count-file p.prepare_messages s p.node_id (own_prepare p) (blank p.node_id),
    count-blank s p.prepare_messages blank,
  )

  fresh-proposed :
      (p : Pbft) (ids : List String)
      → IsBlank s p.prepare_messages
      → contains ids p.node_id ≡ false
      → (j : String) → contains ids j ≡ true
      → contains (keys (box (proposed p).prepare_messages s)) j ≡ false
  fresh-proposed p ids blank new =
      fresh-file s p.node_id (own_prepare p) ids p.prepare_messages new (λ j h. blank j)

  -- The commits, after prepares that have made the engine commit
  committing :
      (ids : List String) (p : Pbft) (r : Pbft × List Output) (positive : 1 ≤ p.f)
      → Prepared env s v digest_of payload p positive r
      → p.has_callback ≡ true
      → reached p s ≡ false
      → IsDistinct (p.node_id ∷ ids)
      → 2 * p.f ≤ length ids
      → (handle_all env (map (commit_of env s v digest_of payload) ids) r.0).1
        ≡ decided (result_of env (pre_prepare_of "")) ∷ []
  unfolding commit_of
  committing ids p r positive done c fresh d enough =
      let one = count-cast p.node_id s done.commits done.own done.cast in
      rw done.state (
        commits_decide env s v digest_of payload ids (with_votes p done.prepares done.commits) c
          (unfold reached in fresh) d.1 (λ j h. done.own.others j (apart p.node_id j ids d.0 h))
          (omega (arith, one)) (omega (arith, one)))

  -- The prepares, after the proposal
  preparing :
      (id : String) (ids : List String) (p : Pbft) (positive : 1 ≤ p.f)
      → IsBlank s p.prepare_messages
      → IsBlank s p.commit_messages
      → IsDistinct (p.node_id ∷ id ∷ ids)
      → 2 * p.f ≤ 1 + length (id ∷ ids)
      → Prepared env s v digest_of payload
          (proposed p)
          positive
          (handle_all env (map (prepare_of env s v digest_of payload) (id ∷ ids)) (proposed p))
  preparing id ids p positive prepares commits d enough =
      prepares-Prepared env s v digest_of payload (proposed p) positive id ids
        (proposed p).prepare_messages p.commit_messages d.1
        (fresh-proposed p (id ∷ ids) prepares d.0)
        (IsOwn-blank p.node_id s p.commit_messages commits)
        (omega (arith, count-proposed p prepares))

  -- The messages of the normal case
  abbrev pub normal_messages : String → List String → List String → List ConsensusMessage
  normal_messages leader preparers committers =
      pre_prepare_of leader ∷ map (prepare_of env s v digest_of payload) preparers
      ++ map (commit_of env s v digest_of payload) committers

  -- An engine with a callback and f of at least 1, whose sequence number is at most `s`, and that holds no
  -- prepare and no commit for `s` and has not executed it, handles a PrePrepare for `s` with the digest of its
  -- payload, then prepares for it from distinct others, which are at least 2f with its own, then commits from 2f or more
  -- distinct others: it reports one result for `s`, with the payload and its digest.
  pub normal_case :
      (leader : String) (preparers committers : List String) (p : Pbft)
      → p.has_callback ≡ true
      → 1 ≤ p.f
      → ltb s p.sequence ≡ false
      → reached p s ≡ false
      → IsBlank s p.prepare_messages
      → IsBlank s p.commit_messages
      → IsDistinct (p.node_id ∷ preparers)
      → 2 * p.f ≤ 1 + length preparers
      → IsDistinct (p.node_id ∷ committers)
      → 2 * p.f ≤ length committers
      → results_at s (handle_all env (normal_messages leader preparers committers) p).1
        ≡ result_of env (pre_prepare_of leader) ∷ []
  unfolding commit_of
  normal_case leader [] committers p c positive late fresh prepares commits d enough d' enough' =
      absurd (omega arith)
  normal_case leader (id ∷ ids) committers p c positive late fresh prepares commits d enough d'
        enough' =
      let prep = map (prepare_of env s v digest_of payload) (id ∷ ids) in
      let comm = map (commit_of env s v digest_of payload) committers in
      let q = proposed p in
      let mid = handle_all env prep q in
      let done = preparing id ids p positive prepares commits d enough in
      results-cons env s (pre_prepare_of leader) (prep ++ comm) p
      ∙ rw (accepts_proposal leader p late, results_at-broadcast env s p (own_prepare p))
          (results-append env s prep comm q
            ∙ rw
                (
                  done.quiet,
                  committing committers q mid positive done c (unfold reached in fresh) d' enough',
                )
                (results_of_one true (result_of env (pre_prepare_of leader))))
