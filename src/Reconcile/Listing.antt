-- ===== src/Reconcile/Listing.antt =====
-- `ListExisting`: the files of a quadlet directory that a plan may remove.
use creidhne.Base.{◌&&◌, none, some, List, [], ◌∷◌, ◌++◌, Result, ok, err, ◌>>=◌, if◌then◌else◌}
use creidhne.Base.Str.{Str, str, ext}
use creidhne.Base.Paths.{FilePath, below, to_slash}
use creidhne.Kinds.{is_managed_ext}
use creidhne.Reconcile.Disk.{Errno, FileKind, Disk, is_regular, is_dir}

-- The flat files: regular ones with a managed extension.
unfoldable pub flat_names : List (Str × FileKind) → List Str
flat_names [] = []
flat_names ((name, kind) ∷ entries) =
    let rest = flat_names entries in
    if is_regular kind && is_managed_ext (ext name) then name ∷ rest else rest

-- The walk over the images directory; a path that is not below `dir` is the error of `filepath.Rel`.
unfoldable pub tree_names : FilePath → List (FilePath × FileKind) → Result Errno (List Str)
tree_names dir [] = ok []
tree_names dir ((path, kind) ∷ entries) =
    let rest = tree_names dir entries in
    if is_regular kind
    then elim (below dir path) [
      | none ↦ err (Errno.other (str "Rel"))
      | some relative ↦ do names ← rest; ok (to_slash relative ∷ names)
    ]
    else rest

abbrev pub images_dir : FilePath → FilePath
images_dir dir = str "images" ∷ dir

unfoldable pub images_names : Disk → FilePath → Result Errno (List Str)
images_names disk dir = elim (disk.stat (images_dir dir)) [
  | err e ↦ ok []
  | ok info ↦
      if is_dir info.kind
      then (do entries ← disk.walk_dir (images_dir dir); tree_names dir entries)
      else ok []
]

unfoldable pub entry_names : Disk → FilePath → Result Errno (List Str)
entry_names disk dir = do
  entries ← disk.read_dir dir
  images ← images_names disk dir
  ok (flat_names entries ++ images)

unfoldable pub list_existing : Disk → FilePath → Result Errno (List Str)
list_existing disk dir = elim (disk.stat dir) [
  | err e ↦ elim e [ Errno.not_exist ↦ ok [] | _ ↦ entry_names disk dir ]
  | ok info ↦ entry_names disk dir
]
