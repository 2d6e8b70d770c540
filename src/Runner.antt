-- ===== src/Runner.antt =====
-- scripts/run_node.go: one node of four with an HTTP handler on node 0.
pub mod Setup
pub mod Handler
pub mod Followers
pub mod Waiting
pub mod Start
pub mod Silence
pub mod Counts
mod Examples
mod StartExamples
