-- ===== src/Consensus/Checkpoints.antt =====
-- What cleanup keeps.
use evm_oracle.Base.Dict.{get-retain}
use evm_oracle.Base.Dict
use evm_oracle.Consensus.Engine.{Pbft}
use evm_oracle.Consensus.Message.{Env}
use evm_oracle.Base.{
  ℕ, Bytes, ◌≤◌, ◌≡◌, ◌<◌, u64_mod, ◌-◌, none, nat_eq, if◌then◌else◌, ltb, arith, false,
}
use evm_oracle.Consensus.Votes.{keep_from, box, box-keep_from, get-keep_from}
use evm_oracle.Consensus.Handlers.{reached}
use evm_oracle.Consensus.Execute.{cleanup, execute_consensus, make_checkpoint}

-- cleanup drops the prepares, the commits and the flags of the sequence numbers below `s`, and keeps
-- those from `s` on.
cleanup_votes :
    (s t : ℕ) (p : Pbft)
    → (box (cleanup s p).prepare_messages t
        ≡ (if ltb t s then Dict.empty else box p.prepare_messages t))
      × (box (cleanup s p).commit_messages t
          ≡ (if ltb t s then Dict.empty else box p.commit_messages t))
      × (reached (cleanup s p) t ≡ (if ltb t s then false else reached p t))
unfolding cleanup reached
cleanup_votes s t p = (
  box-keep_from p.prepare_messages s t,
  box-keep_from p.commit_messages s t,
  ground (arith, get-keep_from s t p.consensus_reached),
)

-- From a full interval on, cleanup keeps the checkpoints of the last interval and drops the earlier.
cleanup-checkpoints :
    (s t : ℕ) (p : Pbft)
    → p.checkpoint_interval ≤ s
    → s < u64_mod
    → Dict.get (cleanup s p).checkpoints t
      ≡ (if ltb t (s - p.checkpoint_interval) then none else Dict.get p.checkpoints t)
unfolding cleanup keep_from
cleanup-checkpoints s t p h k = rw get-retain (ground arith)

-- Before a full interval the bound wraps around, and an execution leaves no checkpoint of a number that
-- an engine reaches: none below 2^64 - 100 with the interval of NewPBFT, not even the one just taken.
pub execute-loses_checkpoints :
    (env : Env) (s t : ℕ) (d : Bytes) (p : Pbft)
    → p.checkpoint_interval ≡ 100
    → s < 100
    → t < u64_mod - 100
    → Dict.get (execute_consensus env s d p).0.checkpoints t ≡ none
unfolding execute_consensus cleanup make_checkpoint keep_from
execute-loses_checkpoints env s t d p i h k = rw get-retain (ground arith)
