-- ===== src/Reconcile/Write/Kept.antt =====
-- What `WriteFile` does before it makes its temporary file leaves the target alone.
use mathlib.Core.Path.{subst}
use creidhne.Base.{
  ℕ, ◌≡◌, refl, sym, ◌∙◌, Bool, true, false, Option, none, some, [], ◌∷◌, Result, ok, err,
  if◌then◌else◌,
}
use creidhne.Base.Str.{Str}
use creidhne.Base.Paths.{FilePath}
use creidhne.Reconcile.Disk.{Errno, FileKind, FileInfo, is_dir, is_regular}
use creidhne.Reconcile.Mode.{PlanError}
use creidhne.Reconcile.Os.{Os, IsLawful, Trail, Action, ◌>>◌, pure}
use creidhne.Reconcile.Write.{
  mkdirp, remove_file, ensure_from, ensure_dir, clear_target, clear_from,
}
use creidhne.Reconcile.Write.Ends.{Always, Ends, Ends->>=, Ends-keep}

module _ {S : Type 0} (sys : Os S) where
  -- At `path` is `x`.
  abbrev pub Holds : FilePath → Option (Str × ℕ) → S → Type 0
  Holds path x s = sys.file s path ≡ x

  abbrev pub Keeps : FilePath → Option (Str × ℕ) → Result PlanError (Unit {0}) × Trail S → Type 0
  Keeps path x out = Ends (Always (Holds path x)) (λ a. Always (Holds path x)) out

module _ {S : Type 0} (sys : Os S) (law : IsLawful sys) where
  pub Keeps->> :
      (path : FilePath) (x : Option (Str × ℕ)) (m k : Action S (Unit {0})) (w : Trail S)
      → Keeps sys path x (m w)
      → ((w' : Trail S) → Always (Holds sys path x) w' → Keeps sys path x (k w'))
      → Keeps sys path x ((m >> k) w)
  Keeps->> path x m k w h later =
      Ends->>= (Always (Holds sys path x)) (λ a. Always (Holds sys path x))
        (λ a. Always (Holds sys path x)) m (λ a. k) w h (λ a. later)

  remove_file-none :
      (dir path : FilePath) (w : Trail S)
      → Always (Holds sys path none) w
      → Keeps sys path none (remove_file sys dir w)
  unfolding remove_file
  remove_file-none dir path w h =
      Ends-keep (Holds sys path none) (sys.remove_all dir) w (λ s. law.remove_all-none dir s path) h

  mkdirp-Keeps :
      (dir path : FilePath) (x : Option (Str × ℕ)) (w : Trail S)
      → Always (Holds sys path x) w
      → Keeps sys path x (mkdirp sys dir w)
  unfolding mkdirp
  mkdirp-Keeps dir path x w h =
      Ends-keep (Holds sys path x) (sys.mkdir_all dir) w (λ s e. law.mkdir_all-Same dir s path ∙ e)
        h

  replace_by_dir-none :
      (dir path : FilePath) (b : Bool) (w : Trail S)
      → Always (Holds sys path none) w
      → Keeps sys path none ((if b then pure tt else (remove_file sys dir >> mkdirp sys dir)) w)
  replace_by_dir-none dir path true w h = h
  replace_by_dir-none dir path false w h =
      Keeps->> path none (remove_file sys dir) (mkdirp sys dir) w (remove_file-none dir path w h)
        (mkdirp-Keeps dir path none)

  ensure_from-none :
      (dir path : FilePath) (above : Action S (Unit {0})) (r : Result Errno FileInfo) (w : Trail S)
      → (Always (Holds sys path none) w → Keeps sys path none (above w))
      → Always (Holds sys path none) w
      → Keeps sys path none (ensure_from sys dir above r w)
  ensure_from-none dir path above (ok info) w up h =
      replace_by_dir-none dir path (is_dir info.kind) w h
  ensure_from-none dir path above (err Errno.not_exist) w up h =
      Keeps->> path none above (mkdirp sys dir) w (up h) (mkdirp-Keeps dir path none)
  ensure_from-none dir path above (err Errno.not_dir) w up h = h
  ensure_from-none dir path above (err (Errno.other why)) w up h = h

  ensure_dir-none :
      (dir path : FilePath) (w : Trail S)
      → Always (Holds sys path none) w
      → Keeps sys path none (ensure_dir sys dir w)
  unfolding ensure_dir
  ensure_dir-none [] path w h = ensure_from-none [] path (pure tt) _ w (λ k. k) h
  ensure_dir-none (n ∷ dir) path w h =
      ensure_from-none (n ∷ dir) path (ensure_dir sys dir) _ w (ensure_dir-none dir path w) h

  -- A directory stays, and so a file in it does.
  pub ensure_dir-is_dir :
      (dir : FilePath) (w : Trail S) (info : FileInfo)
      → (sys.view w.now).stat dir ≡ ok info
      → info.kind ≡ FileKind.directory
      → ensure_dir sys dir w ≡ (ok tt, w)
  unfolding ensure_dir
  ensure_dir-is_dir [] w info e k = rw (e, k) refl
  ensure_dir-is_dir (n ∷ dir) w info e k = rw (e, k) refl

  pub prepare-Keeps :
      (n : Str) (dir : FilePath) (x : Option (Str × ℕ)) (w : Trail S)
      → Always (Holds sys (n ∷ dir) x) w
      → Keeps sys (n ∷ dir) x (ensure_dir sys dir w)
  prepare-Keeps n dir none w h = ensure_dir-none dir (n ∷ dir) w h
  prepare-Keeps n dir (some f) w h =
      let (info, e, k) = law.stat-parent w.now n dir h.0 in
      subst (Keeps sys (n ∷ dir) (some f)) (sym (ensure_dir-is_dir dir w info e k)) h

  clear_if-none :
      (path : FilePath) (b : Bool) (w : Trail S)
      → Always (Holds sys path none) w
      → Keeps sys path none ((if b then pure tt else remove_file sys path) w)
  clear_if-none path true w h = h
  clear_if-none path false w h = remove_file-none path path w h

  clear_from-none :
      (path : FilePath) (r : Result Errno FileInfo) (w : Trail S)
      → Always (Holds sys path none) w
      → Keeps sys path none (clear_from sys path r w)
  clear_from-none path (ok info) w h = clear_if-none path (is_regular info.kind) w h
  clear_from-none path (err e) w h = h

  pub clear_target-Keeps :
      (path : FilePath) (x : Option (Str × ℕ)) (w : Trail S)
      → Always (Holds sys path x) w
      → Keeps sys path x (clear_target sys path w)
  unfolding clear_target
  clear_target-Keeps path none w h = clear_from-none path _ w h
  clear_target-Keeps path (some (c, m)) w h =
      subst (λ r. Keeps sys path (some (c, m)) (clear_from sys path r w))
        (sym (law.lstat-file w.now path h.0)) h
