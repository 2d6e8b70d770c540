-- ===== src/Consensus.antt =====
-- oracle/pkg/consensus: the PBFT engine.
pub mod Message
pub mod Votes
pub mod Engine
pub mod Validate
pub mod Execute
pub mod ViewChange
pub mod Handlers
pub mod Run
pub mod Ballots
pub mod Invariant
pub mod Preservation
pub mod Identity
mod Reports
mod Decisions
pub mod Quorum
pub mod Agreement
pub mod Validation
pub mod Views
pub mod Checkpoints
pub mod Proposals
pub mod Progress
pub mod Slots
pub mod Histories
pub mod Orders
pub mod Kinds
pub mod Divergence
pub mod Prepares
pub mod Normal
mod Examples
mod HistoryExamples
