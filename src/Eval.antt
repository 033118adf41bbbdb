-- ===== src/Eval.antt =====
-- internal/eval: the manifests that CUE evaluates to, as the rest of the program reads them.
pub mod Data
pub mod Access
pub mod Unique
