-- ===== src/Reconcile/Prune/Kept.antt =====
-- `PruneEmptyDirs` removes no file.
use creidhne.Base.{
  ℕ, zero, suc, ◌≡◌, refl, ◌∙◌, Bool, true, false, Option, List, [], ◌∷◌, Result, ok, err, ◌==◌,
  list_eq, nat_eq, if◌then◌else◌,
}
use creidhne.Base.Str.{Str}
use creidhne.Base.Paths.{FilePath}
use creidhne.Reconcile.Disk.{Errno, FileKind, FileInfo, is_dir}
use creidhne.Reconcile.Mode.{lift_os}
use creidhne.Reconcile.Os.{Os, IsLawful, Trail, Action, ◌>>=◌, ◌>>◌, answer, pure}
use creidhne.Reconcile.Write.Ends.{Always, Ends-call}
use creidhne.Reconcile.Write.Kept.{Holds, Keeps, Keeps->>}
use creidhne.Reconcile.Prune.{
  read_dir, walk_entries, remove_if_empty, leave, walk, prune_from, prune_empty_dirs,
}

module _ {S : Type 0} (sys : Os S) (law : IsLawful sys) (q : FilePath) (x : Option (Str × ℕ)) where
  emptied_from :
      (path : FilePath) (r : Result Errno (List (Str × FileKind))) (w : Trail S)
      → (sys.view w.now).read_dir path ≡ r
      → Always (Holds sys q x) w
      → Keeps sys q x ((answer (lift_os r) >>= remove_if_empty sys path) w)
  unfolding remove_if_empty
  emptied_from path (ok []) w e h =
      Ends-call (Always (Holds sys q x)) (λ a. Always (Holds sys q x)) (sys.remove path) w
        (λ why was. (law.remove-empty path w.now e q ∙ h.0, h))
        (λ a was. (law.remove-empty path w.now e q ∙ h.0, h))
  emptied_from path (ok (entry ∷ entries)) w e h = h
  emptied_from path (err why) w e h = h

  leave_if :
      (path : FilePath) (b : Bool) (w : Trail S)
      → Always (Holds sys q x) w
      → Keeps sys q x ((if b then pure tt else (read_dir sys path >>= remove_if_empty sys path)) w)
  unfolding read_dir
  leave_if path true w h = h
  leave_if path false w h = emptied_from path ((sys.view w.now).read_dir path) w refl h

  walk_entries-Keeps :
      (step : FilePath → Action S (Unit {0})) (path : FilePath) (entries : List (Str × FileKind))
      → ((p : FilePath) (w : Trail S) → Always (Holds sys q x) w → Keeps sys q x (step p w))
      → (w : Trail S) → Always (Holds sys q x) w
      → Keeps sys q x (walk_entries sys step path entries w)
  unfolding walk_entries
  walk_entries-Keeps step path [] keeps w h = h
  walk_entries-Keeps step path ((name, kind) ∷ entries) keeps w h =
      elim (is_dir kind)
        as (λ b. Keeps sys q x (
          (if b
              then (step (name ∷ path) >> walk_entries sys step path entries)
              else walk_entries sys step path entries)
            w)) [
              | true ↦
                  Keeps->> sys law q x (step (name ∷ path)) (walk_entries sys step path entries) w
                    (keeps (name ∷ path) w h) (walk_entries-Keeps step path entries keeps)
              | false ↦ walk_entries-Keeps step path entries keeps w h
            ]

  walked_from :
      (rest : List (Str × FileKind) → Action S (Unit {0}))
      (r : Result Errno (List (Str × FileKind))) (w : Trail S)
      → ((entries : List (Str × FileKind)) → Keeps sys q x (rest entries w))
      → Always (Holds sys q x) w
      → Keeps sys q x ((answer (lift_os r) >>= rest) w)
  walked_from rest (ok entries) w keeps h = keeps entries
  walked_from rest (err why) w keeps h = h

  walk-Keeps :
      (fuel : ℕ) (dir path : FilePath) (w : Trail S)
      → Always (Holds sys q x) w
      → Keeps sys q x (walk sys fuel dir path w)
  unfolding walk leave read_dir
  walk-Keeps zero dir path w h = h
  walk-Keeps (suc fuel) dir path w h =
      walked_from
        (λ entries. walk_entries sys (walk sys fuel dir) path entries >> leave sys dir path)
        ((sys.view w.now).read_dir path) w
        (λ entries.
          Keeps->> sys law q x (walk_entries sys (walk sys fuel dir) path entries)
            (leave sys dir path) w
            (walk_entries-Keeps (walk sys fuel dir) path entries (walk-Keeps fuel dir) w h)
            (leave_if path (path == dir)))
        h

  prune_if :
      (fuel : ℕ) (dir : FilePath) (b : Bool) (w : Trail S)
      → Always (Holds sys q x) w
      → Keeps sys q x ((if b then walk sys fuel dir dir else pure tt) w)
  prune_if fuel dir true w h = walk-Keeps fuel dir dir w h
  prune_if fuel dir false w h = h

  prune_from-Keeps :
      (fuel : ℕ) (dir : FilePath) (r : Result Errno FileInfo) (w : Trail S)
      → Always (Holds sys q x) w
      → Keeps sys q x (prune_from sys fuel dir r w)
  unfolding prune_from
  prune_from-Keeps fuel dir (ok info) w h = prune_if fuel dir (is_dir info.kind) w h
  prune_from-Keeps fuel dir (err Errno.not_exist) w h = h
  prune_from-Keeps fuel dir (err Errno.not_dir) w h = h
  prune_from-Keeps fuel dir (err (Errno.other why)) w h = h

  -- `PruneEmptyDirs` touches no regular file: whatever is at a path when it starts is there in every
  -- state that it passes through and at the end, whichever of its calls fail.
  pub prune_empty_dirs-Keeps :
      (fuel : ℕ) (dir : FilePath) (w : Trail S)
      → Always (Holds sys q x) w
      → Keeps sys q x (prune_empty_dirs sys fuel dir w)
  unfolding prune_empty_dirs
  prune_empty_dirs-Keeps fuel dir w h = prune_from-Keeps fuel dir ((sys.view w.now).stat dir) w h
