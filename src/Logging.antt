-- ===== src/Logging.antt =====
-- oracle/pkg/logging: the logger.
pub mod Logger
pub mod Lines
