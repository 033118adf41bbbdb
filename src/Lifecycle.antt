-- ===== src/Lifecycle.antt =====
-- Starting, stopping and restarting units (internal/cli/startstop.go, internal/cli/lifecycle.go).
pub mod Rows
pub mod Tracker
