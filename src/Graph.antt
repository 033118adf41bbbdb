-- ===== src/Graph.antt =====
-- The dependency graph of the units (internal/cli/graph.go).
pub mod Types
pub mod Build
pub mod Edges
pub mod Reduce
