-- ===== src/Config.antt =====
-- config: the configuration that the programs share.
pub mod Loader
pub mod Loads
pub mod Files
pub mod Examples
