-- ===== src/Storage.antt =====
-- oracle/pkg/storage: the client of Pinata.
pub mod Pinata
pub mod Credentials
pub mod Interface
pub mod Pinned
mod Examples
