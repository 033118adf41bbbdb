-- ===== src/Reconcile/Plan/Safety.antt =====
-- What a plan may write and remove.
use creidhne.Base.{
  ◌≡◌, ◌∙◌, sym, true, false, not, ◌&&◌, some, List, [], ◌∷◌, Result, ok, >>=-eq-ok, ok-injective,
  inl, inr, list_eq, nat_eq, ◌==◌, contains, contains-select, beq→eq, In, Bool-cases, Option-cases,
  Result-cases, contains-append, arith,
}
use creidhne.Base.Str.{Str, ext}
use creidhne.Base.Order.{str_order, contains-sort}
use creidhne.Base.Dict
use creidhne.Base.Dict.{Dict}
use creidhne.Base.Paths.{FilePath, is_local, below, to_slash}
use creidhne.Kinds.{is_managed_ext}
use creidhne.Reconcile.Disk.{Disk, Errno, FileKind, is_regular, is_dir, is_regular→eq}
use creidhne.Reconcile.Listing.{
  list_existing, images_dir, flat_names, tree_names, images_names, entry_names,
}
use creidhne.Reconcile.Plan.{
  DesiredFile, Change, plan_file, desired_at, plan_loop, extra_names, compute_plan,
}
use creidhne.Reconcile.Plan.Shape.{
  compute_plan_parts, plan_loop_parts, names, removals, removals-plan,
}

plan_file-local :
    (disk : Disk) (dir : FilePath) (name : Str) (fc : DesiredFile) {c : Change}
    → plan_file disk dir name fc ≡ ok c
    → is_local name ≡ true
unfolding plan_file
plan_file-local disk dir name fc h = ground arith

plan_loop-local :
    (disk : Disk) (dir : FilePath) (desired : Dict Str DesiredFile) (ns : List Str)
    {files : List Change} (n : Str)
    → plan_loop disk dir desired ns ≡ ok files
    → contains ns n ≡ true
    → is_local n ≡ true
unfolding contains
plan_loop-local disk dir desired [] n h m = cc
plan_loop-local disk dir desired (x ∷ ns) n h m =
    let (c, cs, hc, hcs, e) = plan_loop_parts disk dir desired x ns h in
    elim (Bool-cases (n == x)) [
      | inl same ↦
          rw (beq→eq {a = n} {b = x} same) (plan_file-local disk dir x (desired_at desired x) hc)
      | inr other ↦ plan_loop-local disk dir desired ns n hcs (ground arith)
    ]

-- If a plan is computed, every desired name is a relative path that stays inside the directory.
pub compute_plan-local :
    (desired : Dict Str DesiredFile) (disk : Disk) (dir : FilePath) {cs : List Change} (n : Str)
    → compute_plan desired disk dir ≡ ok cs
    → Dict.has n desired ≡ true
    → is_local n ≡ true
compute_plan-local desired disk dir n h m =
    let (files, on_disk, hf, hd, e) = compute_plan_parts desired disk dir h in
    plan_loop-local disk dir desired _ n hf
      (contains-sort n (Dict.keys desired) ∙ (Dict.has-keys n desired ∙ m))

-- If a plan is computed, from a listing that succeeds, a name is removed exactly if it is listed
-- on disk and not desired.
pub removals-compute_plan :
    (desired : Dict Str DesiredFile) (disk : Disk) (dir : FilePath) {cs : List Change}
    {on_disk : List Str} (n : Str)
    → compute_plan desired disk dir ≡ ok cs
    → list_existing disk dir ≡ ok on_disk
    → contains (names (removals cs)) n ≡ (contains on_disk n && not (Dict.has n desired))
unfolding extra_names
removals-compute_plan desired disk dir {on_disk} n h k =
    let (files, listed, hf, hd, e) = compute_plan_parts desired disk dir h in
    let same = ok-injective (sym hd ∙ k) in
    rw (removals-plan desired disk dir h hd, contains-sort, contains-select, same)

-- A file that a plan may remove: a regular file of the directory itself with a managed extension,
-- or a regular file at any depth of its images directory.
pub data IsRemovable (disk : Disk) (dir : FilePath) (name : Str) : Type 0 where
  flat :
      (entries : List (Str × FileKind))
      → disk.read_dir dir ≡ ok entries
      → In (name, FileKind.regular) entries
      → is_managed_ext (ext name) ≡ true
      → IsRemovable disk dir name
  image :
      (entries : List (FilePath × FileKind)) (path relative : FilePath)
      → disk.walk_dir (images_dir dir) ≡ ok entries
      → In (path, FileKind.regular) entries
      → below dir path ≡ some relative
      → name ≡ to_slash relative
      → IsRemovable disk dir name

flat_names-In :
    (entries : List (Str × FileKind)) (n : Str)
    → contains (flat_names entries) n ≡ true
    → In (n, FileKind.regular) entries × (is_managed_ext (ext n) ≡ true)
unfolding flat_names contains
flat_names-In [] n h = cc
flat_names-In ((name, kind) ∷ entries) n h = elim (Bool-cases (is_regular kind)) [
  | inr irregular ↦ ground (arith, flat_names-In entries n)
  | inl reg ↦ elim (Bool-cases (is_managed_ext (ext name))) [
    | inr foreign ↦ ground (arith, flat_names-In entries n)
    | inl managed ↦ elim (Bool-cases (n == name)) [
      | inl same ↦
          let e = beq→eq {a = n} {b = name} same in
          (inl (cc (e, is_regular→eq kind reg)), rw e managed)
      | inr other ↦ ground (arith, flat_names-In entries n)
    ]
  ]
]

abbrev FromTree : FilePath → List (FilePath × FileKind) → Str → Type 0
FromTree dir entries n =
    (path : FilePath) × (relative : FilePath) × In (path, FileKind.regular) entries
    × (below dir path ≡ some relative)
    × (n ≡ to_slash relative)

FromTree-later :
    (dir : FilePath) (entry : FilePath × FileKind) (entries : List (FilePath × FileKind)) (n : Str)
    → FromTree dir entries n
    → FromTree dir (entry ∷ entries) n
FromTree-later dir entry entries n (path, relative, m, b, e) = (path, relative, inr m, b, e)

tree_names-In :
    (dir : FilePath) (entries : List (FilePath × FileKind)) {ns : List Str} (n : Str)
    → tree_names dir entries ≡ ok ns
    → contains ns n ≡ true
    → FromTree dir entries n
unfolding tree_names contains
tree_names-In dir [] n h m = absurd (ground arith)
tree_names-In dir ((path, kind) ∷ entries) {ns} n h m = elim (Bool-cases (is_regular kind)) [
  | inr irregular ↦
      FromTree-later dir (path, kind) entries n (tree_names-In dir entries n (ground arith) m)
  | inl reg ↦ elim (Option-cases (below dir path)) [
    | inl outside ↦ absurd (ground arith)
    | inr (relative, inside) ↦
        let more : List Str → Result Errno (List Str) = λ found. ok (to_slash relative ∷ found) in
        let (rest, hr, e) = >>=-eq-ok (tree_names dir entries) more {y = ns} (ground arith) in
        elim (Bool-cases (n == to_slash relative)) [
          | inl same ↦ (path, relative, inl (cc (is_regular→eq kind reg)), inside, beq→eq same)
          | inr other ↦
              FromTree-later dir (path, kind) entries n
                (tree_names-In dir entries n hr (ground arith))
        ]
  ]
]

images_names-IsRemovable :
    (disk : Disk) (dir : FilePath) {ns : List Str} (n : Str)
    → images_names disk dir ≡ ok ns
    → contains ns n ≡ true
    → IsRemovable disk dir n
unfolding images_names contains
images_names-IsRemovable disk dir {ns} n h m = elim (Result-cases (disk.stat (images_dir dir))) [
  | inr (e, failed) ↦ absurd (ground arith)
  | inl (info, found) ↦ elim (Bool-cases (is_dir info.kind)) [
    | inr other ↦ absurd (ground arith)
    | inl directory ↦
        let walk : List (FilePath × FileKind) → Result Errno (List Str) = tree_names dir in
        let (entries, hw, ht) =
          >>=-eq-ok (disk.walk_dir (images_dir dir)) walk {y = ns} (ground arith) in
        let (path, relative, i, b, e) = tree_names-In dir entries n ht m in
        IsRemovable.image entries path relative hw i b e
  ]
]

entry_names-IsRemovable :
    (disk : Disk) (dir : FilePath) {ns : List Str} (n : Str)
    → entry_names disk dir ≡ ok ns
    → contains ns n ≡ true
    → IsRemovable disk dir n
unfolding entry_names
entry_names-IsRemovable disk dir {ns} n h m =
    let (entries, hr, k) = >>=-eq-ok (disk.read_dir dir) _ h in
    let (images, hi, e) = >>=-eq-ok (images_names disk dir) _ k in
    elim (Bool-cases (contains (flat_names entries) n)) [
      | inl listed ↦
          let (i, managed) = flat_names-In entries n listed in IsRemovable.flat entries hr i managed
      | inr other ↦
          images_names-IsRemovable disk dir n hi
            (ground (arith, contains-append n (flat_names entries) images, ok-injective e))
    ]

list_existing-IsRemovable :
    (disk : Disk) (dir : FilePath) {ns : List Str} (n : Str)
    → list_existing disk dir ≡ ok ns
    → contains ns n ≡ true
    → IsRemovable disk dir n
unfolding list_existing contains
list_existing-IsRemovable disk dir {ns} n h m = elim (Result-cases (disk.stat dir)) [
  | inl (info, found) ↦ entry_names-IsRemovable disk dir {ns = ns} n (ground arith) m
  | inr (Errno.not_exist, failed) ↦ absurd (ground arith)
  | inr (Errno.not_dir, failed) ↦ entry_names-IsRemovable disk dir {ns = ns} n (ground arith) m
  | inr (Errno.other why, failed) ↦ entry_names-IsRemovable disk dir {ns = ns} n (ground arith) m
]

-- If a plan is computed, what it removes is not desired, and is a regular file that is managed,
-- of the directory itself or below its images directory: never a directory or a symbolic link.
pub compute_plan-IsRemovable :
    (desired : Dict Str DesiredFile) (disk : Disk) (dir : FilePath) {cs : List Change} (n : Str)
    → compute_plan desired disk dir ≡ ok cs
    → contains (names (removals cs)) n ≡ true
    → (Dict.has n desired ≡ false) × IsRemovable disk dir n
compute_plan-IsRemovable desired disk dir n h m =
    let (files, on_disk, hf, hd, e) = compute_plan_parts desired disk dir h in
    let exactly = removals-compute_plan desired disk dir n h hd in
    (ground arith, list_existing-IsRemovable disk dir n hd (ground arith))
