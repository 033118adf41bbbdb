-- ===== src/State.antt =====
-- internal/state/state.go: the record of what was applied.
pub mod Types
pub mod Build
pub mod Query
pub mod History
pub mod Capped
pub mod Equal
