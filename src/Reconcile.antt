-- ===== src/Reconcile.antt =====
-- internal/reconcile/reconcile.go: the diff of the generated files against a quadlet directory.
pub mod Disk
pub mod Mode
pub mod Listing
pub mod Plan
pub mod Os
pub mod Write
pub mod Prune
pub mod Apply
