-- ===== src/Store.antt =====
-- internal/store/sqlite: the tables, the transactions over them, and the operations of `Store`.
pub mod Db
pub mod Events
pub mod History
pub mod Outbox
pub mod Retention
pub mod Backfill
pub mod ScannerSkip
pub mod Users
pub mod ApiKeys
pub mod Sessions
pub mod Invariant
pub mod Reachable
pub mod Tests
