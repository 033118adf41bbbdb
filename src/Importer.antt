-- ===== src/Importer.antt =====
-- The import of compose files (internal/importer).
pub mod Vars
pub mod Tokens
