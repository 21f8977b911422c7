-- ===== src/Ledger.antt =====
-- The double-entry ledger (internal/repository/postgresql/ledger.go, ledger_hold.go,
-- ledger_check.go, internal/models/dao/ledger.go).
pub mod Types
pub mod Validate
pub mod Store
pub mod Locks
pub mod Post
pub mod Sound
pub mod Hold
pub mod Chart
pub mod Examples
