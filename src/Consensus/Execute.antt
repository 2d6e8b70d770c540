-- ===== src/Consensus/Execute.antt =====
-- broadcast, computeDigest, makeCheckpoint, cleanup and executeConsensus of pbft.go, and the network
-- manager's Broadcast and handleMessage of consensus/network.go.
use evm_oracle.Base.{
  ℕ, Bytes, Option, none, some, List, ◌∷◌, [], ◌==◌, ◌%◌, if◌then◌else◌, sub_u64, nat_eq,
}
use evm_oracle.Base.Dict
use evm_oracle.Consensus.Message.{
  ConsensusMessage, Error, no_network_manager, marshal_failed, unmarshal_failed, send_failed,
  Output, sent, decided, Env,
}
use evm_oracle.Consensus.Votes.{keep_from}
use evm_oracle.Consensus.Engine.{Pbft}
use evm_oracle.Consensus.Validate.{Accepted, refused, process_message}

-- An error, if any, and what was handed to the transport.
unfoldable pub manager_broadcast : Env → ConsensusMessage → Option Error × List Output
manager_broadcast env m = elim (env.encode_message m) [
  | none ↦ (some marshal_failed, [])
  | some bytes ↦ (if env.delivers bytes then none else some send_failed, sent m ∷ [])
]

-- NetworkManager.handleMessage, on the payload of a transport message
unfoldable pub manager_handle : Env → Pbft → Bytes → Accepted
manager_handle env p bytes = elim (env.decode_message bytes) [
  | none ↦ refused unmarshal_failed
  | some m ↦ process_message p m
]

unfoldable pub broadcast : Env → Pbft → ConsensusMessage → Option Error × List Output
unfolding manager_broadcast
broadcast env p m = if p.networked then manager_broadcast env m else (some no_network_manager, [])

unfoldable pub compute_digest : Env → Bytes → Bytes
compute_digest env payload = env.sha256 payload

unfoldable pub take_checkpoint : Env → Pbft → Pbft
take_checkpoint env p =
    if p.sequence % p.checkpoint_interval == 0
    then record p {
      checkpoints =
          Dict.put p.checkpoints p.sequence (env.encode_checkpoint p.sequence p.last_checkpoint);
      last_checkpoint_seq = p.sequence;
    }
    else p

unfoldable pub make_checkpoint : Env → Pbft → Pbft
unfolding take_checkpoint
make_checkpoint env p = take_checkpoint env (record p {
  checkpoint_interval = if p.checkpoint_interval == 0 then 100 else p.checkpoint_interval;
})

-- `seq < sequence-p.checkpointInterval` is a difference of `uint64`, which wraps.
unfoldable pub cleanup : ℕ → Pbft → Pbft
cleanup sequence p = record p {
  prepare_messages = keep_from sequence p.prepare_messages;
  commit_messages = keep_from sequence p.commit_messages;
  consensus_reached = keep_from sequence p.consensus_reached;
  checkpoints = keep_from (sub_u64 sequence p.checkpoint_interval) p.checkpoints;
}

-- The call of the callback, if one is set
unfoldable pub announce : Env → Pbft → ℕ → Bytes → List Output
unfolding compute_digest
announce env p sequence payload =
    if p.has_callback
    then decided
        (record { sequence = sequence; payload = payload; digest = compute_digest env payload })
      ∷ []
    else []

unfoldable pub execute_consensus : Env → ℕ → Bytes → Pbft → Pbft × List Output
execute_consensus env sequence payload p =
    (cleanup sequence (make_checkpoint env p), announce env p sequence payload)
