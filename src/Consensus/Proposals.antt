-- ===== src/Consensus/Proposals.antt =====
-- ProposeValue on its three ways out, and what a failed broadcast leads to.
use evm_oracle.Consensus.Votes.{file}
use evm_oracle.Consensus.Execute.{broadcast}
use evm_oracle.Consensus.Engine.{Pbft}
use evm_oracle.Consensus.Handlers.{propose_value, proposal}
use evm_oracle.Consensus.Message.{Env, Error, not_leader}
use evm_oracle.Base.{
  [], Bytes, ◌≡◌, true, false, some, arith, ◌⊎◌, none, ◌+◌, ◌%◌, u64_mod, ◌≢◌, Bool-cases, inr, inl,
  Option-cases,
}

stored : Env → Pbft → Bytes → Pbft
stored env p value = record p {
  prepare_messages = file p.prepare_messages p.sequence p.node_id (proposal env p value);
}

-- ProposeValue refuses on an engine that does not lead, which stays as it was and sends nothing. On one
-- that leads the proposal is stored and handed to the transport; the sequence number goes up by one,
-- modulo 2^64, if the broadcast succeeds, and stays if it fails with an error, which is returned.
propose_value-cases :
    (env : Env) (value : Bytes) (p : Pbft)
    → let m = proposal env p value in
      let (failure, outs) = broadcast env p m in
      let (result, q, sent) = propose_value env value p in
      ((p.is_leader ≡ false) × (result ≡ some not_leader) × (q ≡ p) × (sent ≡ []))
      ⊎ ((p.is_leader ≡ true)
          × (result ≡ failure)
          × (sent ≡ outs)
          × (q.prepare_messages ≡ file p.prepare_messages p.sequence p.node_id m)
          × (((failure ≡ none) × (q.sequence ≡ (p.sequence + 1) % u64_mod))
              ⊎ ((failure ≢ none) × (q.sequence ≡ p.sequence))))
unfolding propose_value broadcast
propose_value-cases env value p = elim (Bool-cases p.is_leader) [
  | inr e ↦ inl (e, ground arith, ground arith, ground arith)
  | inl e ↦ inr (
    e,
    ground arith,
    ground arith,
    ground arith,
    elim (Option-cases (broadcast env p (proposal env p value)).0) [
      | inl sent ↦ inl (sent, ground arith)
      | inr (x, failed) ↦ inr ((λ z. cc), ground arith)
    ],
  )
]

-- Two proposals after each other, the first of which fails: both go out for one sequence number.
failed_proposal-repeats :
    (env : Env) (v w : Bytes) (p : Pbft) (e : Error)
    → p.is_leader ≡ true
    → (propose_value env v p).0 ≡ some e
    → let q = (propose_value env v p).1 in
      ((propose_value env v p).2 ≡ (broadcast env p (proposal env p v)).1)
      × ((propose_value env w q).2 ≡ (broadcast env p (proposal env q w)).1)
      × ((proposal env q w).sequence ≡ (proposal env p v).sequence)
      × ((proposal env q w).view ≡ (proposal env p v).view)
unfolding propose_value broadcast proposal
failed_proposal-repeats env v w p e l h = ground arith
