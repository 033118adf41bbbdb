-- ===== src/Reconcile/Write.antt =====
-- `Mkdirp`, `RemoveFile`, `ensureDir` and `WriteFile`.
pub mod Ends
pub mod Kept
pub mod Staged
pub mod Atomic
pub mod Replan
pub mod Others
use creidhne.Base.{ℕ, true, false, List, [], ◌∷◌, Result, ok, err, is_nil, if◌then◌else◌}
use creidhne.Base.Str.{Str}
use creidhne.Base.Paths.{FilePath, parent}
use creidhne.Reconcile.Disk.{Errno, FileInfo, is_dir, is_regular}
use creidhne.Reconcile.Mode.{PlanError, parse_mode}
use creidhne.Reconcile.Os.{Os, Action, Trail, ◌>>=◌, ◌>>◌, pure, answer, call, attempt}

-- `0o644`, unless a mode is set.
unfoldable pub wanted_perm : Str → Result PlanError ℕ
unfolding parse_mode
wanted_perm mode = if is_nil mode then ok 420 else parse_mode mode

module _ {S : Type 0} (sys : Os S) where
  unfoldable pub mkdirp : FilePath → Action S (Unit {0})
  mkdirp dir = call (sys.mkdir_all dir)

  unfoldable pub remove_file : FilePath → Action S (Unit {0})
  remove_file path = call (sys.remove_all path)

  abbrev pub replace_by_dir : FilePath → FileInfo → Action S (Unit {0})
  replace_by_dir dir info = if is_dir info.kind then pure tt else (do remove_file dir; mkdirp dir)

  -- What `ensureDir` does on the answer of `os.Stat`, once the parent's part is given.
  abbrev pub ensure_from :
      FilePath → Action S (Unit {0}) → Result Errno FileInfo → Action S (Unit {0})
  ensure_from dir above (ok info) = replace_by_dir dir info
  ensure_from dir above (err Errno.not_exist) = do above; mkdirp dir
  ensure_from dir above (err Errno.not_dir) = answer (err (PlanError.os Errno.not_dir))
  ensure_from dir above (err (Errno.other why)) = answer (err (PlanError.os (Errno.other why)))

  -- `filepath.Dir` of the root is the root, which ends the recursion.
  unfoldable pub ensure_dir : FilePath → Action S (Unit {0})
  ensure_dir [] w = ensure_from [] (pure tt) ((sys.view w.now).stat []) w
  ensure_dir (n ∷ dir) w =
      ensure_from (n ∷ dir) (ensure_dir dir) ((sys.view w.now).stat (n ∷ dir)) w

  abbrev pub clear_from : FilePath → Result Errno FileInfo → Action S (Unit {0})
  clear_from path (ok info) = if is_regular info.kind then pure tt else remove_file path
  clear_from path (err e) = pure tt

  -- A directory or a symbolic link at the target is removed.
  unfoldable pub clear_target : FilePath → Action S (Unit {0})
  clear_target path w = clear_from path ((sys.view w.now).lstat path) w

  -- `if err := op; err != nil { _ = tmp.Close(); return err }`
  unfoldable pub or_close : FilePath → (S → Result Errno (Unit {0}) × S) → Action S (Unit {0})
  or_close temp op w =
      let (r, w1) = call op w in
      elim r [ ok done ↦ (ok tt, w1) | err e ↦ (err e, (attempt (sys.close temp) w1).1) ]

  unfoldable pub sync_dir : FilePath → Action S (Unit {0})
  sync_dir dir w =
      let (r, w1) = call (sys.open_dir dir) w in
      elim r [
        | ok done ↦ (do attempt (sys.sync dir); attempt (sys.close dir)) w1
        | err e ↦ (ok tt, w1)
      ]

  -- `defer func() { _ = os.Remove(tmpName) }()`
  unfoldable pub and_remove : FilePath → Action S (Unit {0}) → Action S (Unit {0})
  and_remove temp body w = let (r, w1) = body w in (r, (attempt (sys.remove temp) w1).1)

  unfoldable pub fill_temp : FilePath → Str → ℕ → Action S (Unit {0})
  fill_temp temp content perm = do
    or_close temp (sys.write temp content)
    or_close temp (sys.sync temp)
    call (sys.close temp)
    call (sys.chmod temp perm)

  unfoldable pub move_temp : FilePath → FilePath → Action S (Unit {0})
  move_temp temp path = do call (sys.rename temp path); sync_dir (parent path)

  -- `WriteFile` once the directory is there.
  unfoldable pub write_in_dir : FilePath → Str → Str → Action S (Unit {0})
  write_in_dir path content mode = do
    clear_target path
    perm ← answer (wanted_perm mode)
    temp ← call (sys.create_temp (parent path))
    and_remove temp (do fill_temp temp content perm; move_temp temp path)

  unfoldable pub write_file : FilePath → Str → Str → Action S (Unit {0})
  write_file path content mode = do ensure_dir (parent path); write_in_dir path content mode
