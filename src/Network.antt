-- ===== src/Network.antt =====
-- oracle/pkg/network: framing, transport, health and retries.
pub mod Framing
pub mod Frames
pub mod Transport
pub mod Discovery
pub mod Dispatch
pub mod Peers
pub mod Retry
pub mod Delays
pub mod Health
pub mod Streams
pub mod Delivery
pub mod Outages
pub mod Connections
pub mod Failures
pub mod Accept
pub mod Endings
pub mod Manager
mod Rounds
mod Examples
