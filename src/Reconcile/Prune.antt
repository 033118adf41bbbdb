-- ===== src/Reconcile/Prune.antt =====
-- `PruneEmptyDirs`.
pub mod Kept
pub mod Deep
use creidhne.Base.{
  ℕ, zero, suc, Bool, true, false, not, List, [], ◌∷◌, Result, ok, err, ◌==◌, list_eq, nat_eq,
  is_nil, if◌then◌else◌,
}
use creidhne.Base.Str.{Str, str}
use creidhne.Base.Paths.{FilePath}
use creidhne.Reconcile.Disk.{Errno, FileKind, FileInfo, is_dir}
use creidhne.Reconcile.Mode.{PlanError, lift_os}
use creidhne.Reconcile.Os.{Os, Action, Trail, ◌>>=◌, ◌>>◌, pure, answer, call}

module _ {S : Type 0} (sys : Os S) where
  -- `os.ReadDir`
  unfoldable pub read_dir : FilePath → Action S (List (Str × FileKind))
  read_dir path w = answer (lift_os ((sys.view w.now).read_dir path)) w

  -- The loop over the entries; `step` is the closure `walk`.
  unfoldable pub walk_entries :
      (FilePath → Action S (Unit {0})) → FilePath → List (Str × FileKind) → Action S (Unit {0})
  walk_entries step path [] = pure tt
  walk_entries step path ((name, kind) ∷ entries) =
      let rest = walk_entries step path entries in
      if is_dir kind then step (name ∷ path) >> rest else rest

  unfoldable pub remove_if_empty : FilePath → List (Str × FileKind) → Action S (Unit {0})
  remove_if_empty path [] = call (sys.remove path)
  remove_if_empty path (entry ∷ entries) = pure tt

  -- What follows the loop.
  unfoldable pub leave : FilePath → FilePath → Action S (Unit {0})
  leave dir path = if path == dir then pure tt else (read_dir path >>= remove_if_empty path)

  -- The closure `walk`. The fuel bounds the depth of the tree below `path`.
  unfoldable pub walk : ℕ → FilePath → FilePath → Action S (Unit {0})
  walk zero dir path = pure tt
  walk (suc fuel) dir path =
      read_dir path >>= λ entries. walk_entries (walk fuel dir) path entries >> leave dir path

  unfoldable pub prune_from : ℕ → FilePath → Result Errno FileInfo → Action S (Unit {0})
  prune_from fuel dir (ok info) = if is_dir info.kind then walk fuel dir dir else pure tt
  prune_from fuel dir (err Errno.not_exist) = pure tt
  prune_from fuel dir (err Errno.not_dir) = answer (err (PlanError.os Errno.not_dir))
  prune_from fuel dir (err (Errno.other why)) = answer (err (PlanError.os (Errno.other why)))

  unfoldable pub prune_empty_dirs : ℕ → FilePath → Action S (Unit {0})
  prune_empty_dirs fuel dir w = prune_from fuel dir ((sys.view w.now).stat dir) w
