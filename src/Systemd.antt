-- ===== src/Systemd.antt =====
-- The state of units, as systemctl prints it (internal/systemd/systemd.go).
pub mod Show
