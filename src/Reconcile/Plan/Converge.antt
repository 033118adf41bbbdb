-- ===== src/Reconcile/Plan/Converge.antt =====
-- When a plan leaves a file, or the whole directory, alone.
use mathlib.Core.List.{append-nil}
use creidhne.Base.{
  ◌≡◌, refl, ◌∙◌, ap, sym, true, false, not, List, [], ◌∷◌, map, ok, ◌↔◌, list_eq, nat_eq,
  list_beq_iff, select-none, All, All-contains, contains, beq_refl, Result-cases, inl, inr, arith,
}
use creidhne.Base.Str.{Str}
use creidhne.Base.Order.{sort, str_order, contains-sort}
use creidhne.Base.Dict
use creidhne.Base.Dict.{Dict}
use creidhne.Base.Paths.{FilePath, is_local, join_name}
use creidhne.Reconcile.Disk.{Disk, FileInfo, is_regular}
use creidhne.Reconcile.Mode.{mode_differs_if_set}
use creidhne.Reconcile.Listing.{list_existing}
use creidhne.Reconcile.Plan.{
  DesiredFile, ActionKind, Change, bare, plan_file, desired_at, plan_loop, extra_names,
  compute_plan,
}

-- The desired file is on disk: a regular file with its content, and with its mode if it has one.
pub record IsInPlace (disk : Disk) (dir : FilePath) (name : Str) (fc : DesiredFile) : Type 0 where
  pub info : FileInfo
  pub safe : is_local name ≡ true
  pub found : disk.lstat (join_name dir name) ≡ ok info
  pub regular : is_regular info.kind ≡ true
  pub content : disk.read_file (join_name dir name) ≡ ok fc.content
  pub mode : mode_differs_if_set disk (join_name dir name) fc.mode ≡ ok false

plan_file-unchanged :
    (disk : Disk) (dir : FilePath) (name : Str) (fc : DesiredFile)
    → IsInPlace disk dir name fc
    → plan_file disk dir name fc ≡ ok (bare ActionKind.unchanged name)
unfolding plan_file
plan_file-unchanged disk dir name fc p =
    rw (p.safe, p.found, p.regular, p.content, beq_refl fc.content, p.mode)

unchanged-IsInPlace :
    (disk : Disk) (dir : FilePath) (name : Str) (fc : DesiredFile) {c : Change}
    → plan_file disk dir name fc ≡ ok c
    → c.action ≡ ActionKind.unchanged
    → IsInPlace disk dir name fc
unfolding plan_file
unchanged-IsInPlace disk dir name fc {c} h k =
    elim (Result-cases (disk.lstat (join_name dir name))) [
      | inr (e, missing) ↦ absurd (ground arith)
      | inl (info, found) ↦ elim (Result-cases (disk.read_file (join_name dir name))) [
        | inr (e, unread) ↦ absurd (ground arith)
        | inl (existing, was_read) ↦ record {
          info = info;
          safe = ground arith;
          found = found;
          regular = ground arith;
          content = ground (arith, list_beq_iff existing fc.content);
          mode = ground arith;
        }
      ]
    ]

-- A desired file is planned as unchanged exactly if it is in place: its name is local, and at its
-- path is a regular file with the desired content whose mode does not differ from the desired
-- one.
pub plan_file-unchanged_iff :
    (disk : Disk) (dir : FilePath) (name : Str) (fc : DesiredFile)
    → (plan_file disk dir name fc ≡ ok (bare ActionKind.unchanged name))
      ↔ IsInPlace disk dir name fc
plan_file-unchanged_iff disk dir name fc =
    (λ h. unchanged-IsInPlace disk dir name fc h refl, plan_file-unchanged disk dir name fc)

plan_loop-unchanged :
    (disk : Disk) (dir : FilePath) (desired : Dict Str DesiredFile) (ns : List Str)
    → ((n : Str) → contains ns n ≡ true → IsInPlace disk dir n (desired_at desired n))
    → plan_loop disk dir desired ns ≡ ok (map (bare ActionKind.unchanged) ns)
unfolding plan_loop contains
plan_loop-unchanged disk dir desired [] h = refl
plan_loop-unchanged disk dir desired (n ∷ ns) h = rw (
  plan_file-unchanged disk dir n (desired_at desired n) (h n (rw (beq_refl n))),
  plan_loop-unchanged disk dir desired ns (λ m later. h m (ground arith)),
)

-- If every desired file is in place (a regular file inside the directory with the desired content
-- and mode), and the listing succeeds and names nothing else, the plan is computed and marks
-- every desired file, in the order of the names, as unchanged, with no other change.
pub compute_plan-in_place :
    (desired : Dict Str DesiredFile) (disk : Disk) (dir : FilePath) {on_disk : List Str}
    → All (λ n. IsInPlace disk dir n (desired_at desired n)) (Dict.keys desired)
    → list_existing disk dir ≡ ok on_disk
    → All (λ n. Dict.has n desired ≡ true) on_disk
    → compute_plan desired disk dir
      ≡ ok (map (bare ActionKind.unchanged) (sort (Dict.keys desired)))
unfolding compute_plan extra_names sort
compute_plan-in_place desired disk dir {on_disk} placed listed known = rw (
  plan_loop-unchanged disk dir desired (sort (Dict.keys desired))
      (λ n m. All-contains _ n (Dict.keys desired) placed (sym (contains-sort n _) ∙ m)),
  listed,
  select-none (λ n. not (Dict.has n desired)) on_disk
      (λ n m. ap not (All-contains (λ k. Dict.has k desired ≡ true) n on_disk known m)),
  append-nil,
)
