-- ===== src/Scanner.antt =====
-- internal/scanner: the polling scanner, from its calls of the RPC provider to whole scan cycles.
pub mod Types
pub mod Retry
pub mod Logs
pub mod Verify
pub mod Cycle
