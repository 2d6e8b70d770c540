-- ===== src/Server.antt =====
-- oracle/cmd/server/main.go: the server with its nodes, and the handler of /prompt.
pub mod Tracker
pub mod Prompt
pub mod Verdict
pub mod Turns
pub mod Relay
pub mod Setup
pub mod Ready
pub mod Summary
pub mod Matrix
pub mod Similar
mod Examples
