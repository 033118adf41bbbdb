-- ===== src/Lint.antt =====
-- The lint rules (internal/cli).
pub mod Levels
pub mod Wiring
pub mod Images
pub mod Names
