-- ===== src/Consensus/Progress.antt =====
-- A quorum of commits leads to one result, and what late prepares add to it.
use native.Mathlib.Decide.{dec_lt}
use evm_oracle.Consensus.Agreement.{Reported}
use evm_oracle.Base.Dict
use evm_oracle.Consensus.Reports.{quorum}
use evm_oracle.Consensus.Execute.{execute_consensus, cleanup, announce, make_checkpoint, broadcast}
use evm_oracle.Consensus.Handlers.{
  reached, handle_message, handle_commit, handle_prepare, cast_commit, vote,
}
use evm_oracle.Base.Dict.{keys, size-put, get-put, keys-put}
use evm_oracle.Consensus.Engine.{Pbft}
use evm_oracle.Consensus.Votes.{count, Votes, file, box, box-file, get-keep_from}
use evm_oracle.Consensus.Message.{
  Env, ConsensusMessage, commit, ConsensusResult, Output, decided, sent,
}
use evm_oracle.Base.{
  [], ◌∷◌, List, ℕ, String, Bytes, contains, ◌≡◌, ◌++◌, false, true, ◌+◌, map, arith, ==_refl,
  string_eq, nat_eq, refl, ◌<◌, ◌≤◌, IsDistinct, ◌*◌, eq_iff, length, nat_beq_iff, inl, le→leb, inr,
}

-- The messages of the channel, handled in their order
unfoldable pub handle_all : Env → List ConsensusMessage → Pbft → Pbft × List Output
handle_all env [] p = (p, [])
handle_all env (m ∷ ms) p =
    let (q, outs) = handle_message env m p in
    let (r, more) = handle_all env ms q in (r, outs ++ more)

pub count-file :
    (v : Votes) (s : ℕ) (id : String) (m : ConsensusMessage)
    → contains (keys (box v s)) id ≡ false
    → count (file v s id m) s ≡ count v s + 1
unfolding count
count-file v s id m h =
    rw (box-file v s s id m) (ground (arith, size-put (box v s) id m, ==_refl s))

-- The commits of distinct members `ids` for one payload at one sequence number
module _ (env : Env) (s v : ℕ) (digest payload : Bytes) where
  unfoldable pub commit_of : String → ConsensusMessage
  commit_of id = record {
    kind = commit;
    node_id = id;
    view = v;
    sequence = s;
    digest = digest;
    payload = payload;
  }

  abbrev the_result : ConsensusResult
  the_result = record { sequence = s; payload = payload; digest = env.sha256 payload }

  abbrev accepting : Pbft → String → Pbft
  accepting p id = record p { commit_messages = file p.commit_messages s id (commit_of id) }

  silent :
      (id : String) (p : Pbft) → reached p s ≡ true → handle_message env (commit_of id) p ≡ (p, [])
  unfolding handle_message handle_commit commit_of
  silent id p h = ground arith

  waits :
      (id : String) (p : Pbft)
      → reached p s ≡ false
      → contains (keys (box p.commit_messages s)) id ≡ false
      → count p.commit_messages s + 1 < quorum p
      → handle_message env (commit_of id) p ≡ (accepting p id, [])
  unfolding handle_message handle_commit commit_of
  waits id p h fresh few = ground (arith, count-file p.commit_messages s id (commit_of id) fresh)

  reached-execute :
      (d : Bytes) (p : Pbft)
      → reached
          (execute_consensus env s d
            (record p { consensus_reached = Dict.put p.consensus_reached s true })).0
          s
        ≡ true
  unfolding reached execute_consensus cleanup make_checkpoint
  reached-execute d p = ground (
    arith,
    get-keep_from s s (Dict.put p.consensus_reached s true),
    get-put p.consensus_reached s s true,
  )

  announced :
      (id : String) (p : Pbft)
      → p.has_callback ≡ true
      → (execute_consensus env s payload (record p {
        commit_messages = file p.commit_messages s id (commit_of id);
        consensus_reached = Dict.put p.consensus_reached s true;
      })).1
        ≡ decided the_result ∷ []
  unfolding execute_consensus announce
  announced id p c = ground arith

  decides :
      (id : String) (p : Pbft)
      → p.has_callback ≡ true
      → reached p s ≡ false
      → contains (keys (box p.commit_messages s)) id ≡ false
      → quorum p ≤ count p.commit_messages s + 1
      → ((handle_message env (commit_of id) p).1 ≡ decided the_result ∷ [])
        × (reached (handle_message env (commit_of id) p).0 s ≡ true)
  unfolding handle_message handle_commit commit_of
  decides id p c h fresh enough = ground (
    arith,
    count-file p.commit_messages s id (commit_of id) fresh,
    reached-execute payload (accepting p id),
    announced id p c,
  )

  all-silent :
      (ids : List String) (p : Pbft)
      → reached p s ≡ true
      → handle_all env (map commit_of ids) p ≡ (p, [])
  unfolding handle_all
  all-silent [] p h = refl
  all-silent (id ∷ ids) p h = rw (silent id p h) (all-silent ids p h)

  fresh-accepting :
      (id : String) (ids : List String) (p : Pbft)
      → contains ids id ≡ false
      → ((j : String)
          → contains (id ∷ ids) j ≡ true
          → contains (keys (box p.commit_messages s)) j ≡ false)
      → (j : String) → contains ids j ≡ true
      → contains (keys (box (accepting p id).commit_messages s)) j ≡ false
  fresh-accepting id ids p new fresh j h =
      rw (box-file p.commit_messages s s id (commit_of id), ==_refl s)
        (ground
          (arith, keys-put (box p.commit_messages s) id j (commit_of id), fresh j, eq_iff id j))

  -- An engine with a callback that has not decided at sequence number s, and holds fewer commits for it
  -- than a quorum of 2f+1, handles commits for one payload from distinct senders new to it. If these make
  -- up for the quorum, the engine reports one result, with that payload and its digest, and nothing else,
  -- however many more commits follow.
  pub commits_decide :
      (ids : List String) (p : Pbft)
      → p.has_callback ≡ true
      → reached p s ≡ false
      → IsDistinct ids
      → ((j : String) → contains ids j ≡ true → contains (keys (box p.commit_messages s)) j ≡ false)
      → count p.commit_messages s < quorum p
      → quorum p ≤ count p.commit_messages s + length ids
      → (handle_all env (map commit_of ids) p).1 ≡ decided the_result ∷ []
  unfolding handle_all
  commits_decide [] p c h distinct fresh few enough = absurd (omega arith)
  commits_decide (id ∷ ids) p c h distinct fresh few enough =
      let new = fresh id (ground (arith, ==_refl id)) in
      elim (dec_lt (count p.commit_messages s + 1) (quorum p)) [
        | yes short ↦ rw (waits id p h new short) (
            commits_decide ids (accepting p id) c (unfold reached in h) distinct.1
              (fresh-accepting id ids p distinct.0 fresh)
              (omega (arith, count-file p.commit_messages s id (commit_of id) new))
              (omega (arith, count-file p.commit_messages s id (commit_of id) new)))
        | no reaches ↦
            let (result, over) = decides id p c h new (omega arith) in
            rw (result, all-silent ids (handle_message env (commit_of id) p).0 over)
      ]

count-le-file :
    (v : Votes) (s t : ℕ) (id : String) (m : ConsensusMessage) → count v t ≤ count (file v s id m) t
unfolding count
count-le-file v s t id m =
    rw (box-file v s t id m) (ground (arith, size-put (box v s) id m, nat_beq_iff s t))

Reported-append :
    (r : ConsensusResult) (xs ys : List Output) → Reported r ys → Reported r (xs ++ ys)
Reported-append r [] ys h = h
Reported-append r (sent m ∷ xs) ys h = Reported-append r xs ys h
Reported-append r (decided d ∷ xs) ys h = inr (Reported-append r xs ys h)

module _ (env : Env) (m : ConsensusMessage) where
  abbrev of_message : ConsensusResult
  of_message = record { sequence = m.sequence; payload = m.payload; digest = env.sha256 m.payload }

  announced-Reported :
      (p : Pbft)
      → p.has_callback ≡ true
      → Reported of_message (execute_consensus env m.sequence m.payload p).1
  unfolding execute_consensus announce
  announced-Reported p c = rw c (inl refl)

  cast_commit-Reported :
      (p : Pbft)
      → p.has_callback ≡ true
      → quorum p ≤ count p.commit_messages m.sequence
      → Reported of_message (cast_commit env m p).1
  unfolding cast_commit
  cast_commit-Reported p c k =
      let own = vote commit p m m.digest in
      let p' = record p { commit_messages = file p.commit_messages m.sequence p.node_id own } in
      rw
        (le→leb (2 * p.f + 1) (count p'.commit_messages m.sequence)
          (omega (arith, count-le-file p.commit_messages m.sequence m.sequence p.node_id own)))
        (Reported-append of_message (broadcast env p own).1 _ (announced-Reported p' c))

  -- consensusReached does not stop handlePrepare: while the quorums of prepares and of commits for a
  -- sequence number are in the store, every further prepare for it makes an engine with a callback report
  -- a result, with the payload of that prepare, whether or not it has reported one.
  pub prepare-decides_again :
      (p : Pbft)
      → p.has_callback ≡ true
      → 2 * p.f ≤ count p.prepare_messages m.sequence
      → quorum p ≤ count p.commit_messages m.sequence
      → Reported of_message (handle_prepare env m p).1
  unfolding handle_prepare
  prepare-decides_again p c h k =
      let p' = record p { prepare_messages = file p.prepare_messages m.sequence m.node_id m } in
      rw
        (le→leb (2 * p.f) (count p'.prepare_messages m.sequence)
          (omega (arith, count-le-file p.prepare_messages m.sequence m.sequence m.node_id m)))
        (cast_commit-Reported p' c k)
