-- ===== src/Status.antt =====
-- The status of the units (internal/cli/status.go, internal/cli/stale.go).
pub mod Label
pub mod Types
pub mod Stale
pub mod Input
pub mod Rows
pub mod Blocked
pub mod Applied
