-- ===== src/Node.antt =====
-- oracle/pkg/node and oracle/pkg/types: a node with its requests, and the life cycle of a node.
pub mod Requests
pub mod Prompts
pub mod Results
pub mod Incoming
pub mod Recovery
pub mod Restored
pub mod Lifecycle
pub mod Stored
pub mod Tracking
pub mod Starts
pub mod Agreed
mod SavedState
pub mod Wiring
mod Examples
