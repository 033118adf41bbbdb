-- ===== src/Reconcile/Disk.antt =====
-- What the reconciler asks of the operating system when it computes a plan: the answers of
-- `os.Lstat`, `os.Stat`, `os.ReadFile`, `os.ReadDir` and `filepath.WalkDir` at one moment.
use creidhne.Base.{◌≡◌, refl, ℕ, Bool, true, false, List, Result}
use creidhne.Base.Str.{Str}
use creidhne.Base.Paths.{FilePath}

-- ENOENT, ENOTDIR, or any other failure.
pub data Errno : Type 0 where
  not_exist not_dir : Errno
  other : Str → Errno

pub data FileKind : Type 0 where
  regular directory symlink special : FileKind

pub record FileInfo : Type 0 where
  pub kind : FileKind
  pub perm : ℕ

abbrev pub is_regular : FileKind → Bool
is_regular FileKind.regular = true
is_regular _ = false

abbrev pub is_dir : FileKind → Bool
is_dir FileKind.directory = true
is_dir _ = false

pub record Disk : Type 0 where
  pub lstat : FilePath → Result Errno FileInfo
  pub stat : FilePath → Result Errno FileInfo
  pub read_file : FilePath → Result Errno Str
  pub read_dir : FilePath → Result Errno (List (Str × FileKind))
  pub walk_dir : FilePath → Result Errno (List (FilePath × FileKind))

-- `notFound`
unfoldable pub not_found : Errno → Bool
not_found Errno.not_exist = true
not_found Errno.not_dir = true
not_found (Errno.other why) = false

pub is_regular→eq : (k : FileKind) → is_regular k ≡ true → k ≡ FileKind.regular
is_regular→eq FileKind.regular h = refl
is_regular→eq FileKind.directory h = cc
is_regular→eq FileKind.symlink h = cc
is_regular→eq FileKind.special h = cc
