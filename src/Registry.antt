-- ===== src/Registry.antt =====
-- internal/registry/registry.go: image references, version-shaped tags and minimum ages.
pub mod Numbers
pub mod Age
pub mod Reference
pub mod Version
pub mod Pick
