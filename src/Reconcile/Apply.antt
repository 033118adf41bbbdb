-- ===== src/Reconcile/Apply.antt =====
-- The writing part of `crei apply` (internal/cli/commands.go).
pub mod Ordered
use creidhne.Base.{ℕ, Bool, true, false, not, List, [], ◌∷◌, if◌then◌else◌}
use creidhne.Base.Str.{Str, str}
use creidhne.Base.Paths.{FilePath, join_name}
use creidhne.Reconcile.Plan.{ActionKind, Change}
use creidhne.Reconcile.Os.{Os, Action, ◌>>=◌, ◌>>◌, pure}
use creidhne.Reconcile.Write.{remove_file, write_file}
use creidhne.Reconcile.Prune.{prune_empty_dirs}

module _ {S : Type 0} (sys : Os S) where
  unfoldable pub apply_change : Bool → FilePath → ActionKind → Change → Action S (Unit {0})
  apply_change removing dir ActionKind.remove c =
      if removing then remove_file sys (join_name dir c.name) else pure tt
  apply_change removing dir ActionKind.add c =
      if removing then pure tt else write_file sys (join_name dir c.name) c.content c.mode
  apply_change removing dir ActionKind.change c =
      if removing then pure tt else write_file sys (join_name dir c.name) c.content c.mode
  apply_change removing dir ActionKind.unchanged c = pure tt

  -- The closure `applyPass`.
  unfoldable pub apply_pass : Bool → FilePath → List Change → Action S (Unit {0})
  apply_pass removing dir [] = pure tt
  apply_pass removing dir (c ∷ changes) =
      apply_change removing dir c.action c >> apply_pass removing dir changes

  -- The removals, then the writes, then the empty directories.
  unfoldable pub apply_changes : ℕ → FilePath → List Change → Action S (Unit {0})
  apply_changes fuel dir changes = do
    apply_pass true dir changes
    apply_pass false dir changes
    prune_empty_dirs sys fuel (str "images" ∷ dir)
