-- ===== src/Listener.antt =====
-- scripts/main.go: the listener between the contract and the oracle.
pub mod Client
pub mod Monitor
pub mod Submission
pub mod Scans
mod Examples
