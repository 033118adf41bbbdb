-- ===== src/Reconcile/Plan.antt =====
-- `ComputePlan` and `Summarize`. What a plan promises is proved in the modules below.
pub mod Shape
pub mod Refuse
pub mod Safety
pub mod Converge
use creidhne.Base.{
  ℕ, ◌+◌, Bool, true, false, not, Option, none, some, List, [], ◌∷◌, ◌++◌, map, Result, ok, err,
  ◌>>=◌, ◌==◌, list_eq, nat_eq, list_beq, select, if◌then◌else◌,
}
use creidhne.Base.Str.{Str}
use creidhne.Base.Order.{sort, str_order}
use creidhne.Base.Dict
use creidhne.Base.Dict.{Dict}
use creidhne.Base.Paths.{FilePath, join_name, is_local}
use creidhne.Reconcile.Disk.{Disk, FileInfo, Errno, is_regular, not_found}
use creidhne.Reconcile.Mode.{PlanError, unsafe_path, lift_os, mode_differs_if_set}
use creidhne.Reconcile.Listing.{list_existing}

pub record DesiredFile : Type 0 where
  pub content : Str
  pub mode : Str

pub data ActionKind : Type 0 where
  add change unchanged remove : ActionKind

-- A nil slice and an empty one are the same value.
pub record Change : Type 0 where
  pub action : ActionKind
  pub name : Str
  pub content : Str
  pub mode : Str
  pub existing : Str

abbrev pub added : Str → DesiredFile → Change
added name fc = record {
  action = ActionKind.add;
  name = name;
  content = fc.content;
  mode = fc.mode;
  existing = [];
}

abbrev pub changed : Str → DesiredFile → Str → Change
changed name fc existing = record {
  action = ActionKind.change;
  name = name;
  content = fc.content;
  mode = fc.mode;
  existing = existing;
}

abbrev pub bare : ActionKind → Str → Change
bare action name = record { action = action; name = name; content = []; mode = []; existing = [] }

abbrev by_drift : Str → DesiredFile → Str → Bool → Change
by_drift name fc existing drift =
    if drift then changed name fc existing else bare ActionKind.unchanged name

-- The default branch: a regular file is at the path.
plan_regular : Disk → FilePath → Str → DesiredFile → Result PlanError Change
plan_regular disk dest name fc = do
  existing ← lift_os (disk.read_file dest)
  let settled =
      mode_differs_if_set disk dest fc.mode >>= λ drift. ok (by_drift name fc existing drift)
  if existing == fc.content then settled else ok (changed name fc existing)

-- The body of the loop over the desired names.
unfoldable pub plan_file : Disk → FilePath → Str → DesiredFile → Result PlanError Change
unfolding plan_regular not_found list_beq
plan_file disk dir name fc =
    if is_local name
    then elim (disk.lstat (join_name dir name)) [
      | err e ↦ if not_found e then ok (added name fc) else err (PlanError.os e)
      | ok info ↦
          if is_regular info.kind
          then plan_regular disk (join_name dir name) name fc
          else ok (changed name fc [])
    ]
    else err (unsafe_path name)

-- `desired[name]`, the zero value for a missing key
or_zero : Option DesiredFile → DesiredFile
or_zero none = record { content = []; mode = [] }
or_zero (some fc) = fc

unfoldable pub desired_at : Dict Str DesiredFile → Str → DesiredFile
unfolding or_zero
desired_at desired name = or_zero (Dict.lookup name desired)

unfoldable pub plan_loop :
    Disk → FilePath → Dict Str DesiredFile → List Str → Result PlanError (List Change)
plan_loop disk dir desired [] = ok []
plan_loop disk dir desired (name ∷ names) =
    let rest = plan_loop disk dir desired names in
    do c ← plan_file disk dir name (desired_at desired name); cs ← rest; ok (c ∷ cs)

unfoldable pub extra_names : Dict Str DesiredFile → List Str → List Str
extra_names desired on_disk = sort (select (λ name. not (Dict.has name desired)) on_disk)

unfoldable pub compute_plan :
    Dict Str DesiredFile → Disk → FilePath → Result PlanError (List Change)
compute_plan desired disk dir = do
  files ← plan_loop disk dir desired (sort (Dict.keys desired))
  on_disk ← lift_os (list_existing disk dir)
  ok (files ++ map (bare ActionKind.remove) (extra_names desired on_disk))

pub record Summary : Type 0 where
  pub added : ℕ
  pub changed : ℕ
  pub unchanged : ℕ
  pub removed : ℕ
  pub total : ℕ

abbrev no_changes : Summary
no_changes = record { added = 0; changed = 0; unchanged = 0; removed = 0; total = 0 }

count : ActionKind → Summary → Summary
count ActionKind.add s = record s { added = s.added + 1 }
count ActionKind.change s = record s { changed = s.changed + 1 }
count ActionKind.unchanged s = record s { unchanged = s.unchanged + 1 }
count ActionKind.remove s = record s { removed = s.removed + 1 }

count_all : Summary → List Change → Summary
unfolding count
count_all s [] = s
count_all s (c ∷ cs) = count_all (count c.action s) cs

unfoldable pub summarize : List Change → Summary
unfolding count_all
summarize changes =
    let s = count_all no_changes changes in record s { total = s.added + s.changed + s.unchanged }
