-- ===== src/Caller.antt =====
-- scripts/caller.go: the command that asks the contract and waits for the answer.
pub mod Command
pub mod Wait
pub mod Found
mod Examples
