-- ===== src/Tests/Plan.antt =====
-- A quadlet directory with a stale unit, a file of the user's and an image tree.
use mathlib.Core.List.Perm
use creidhne.Base.{
  ◌++◌, list_beq_iff, All, ◌≡◌, refl, true, false, not, List, [], ◌∷◌, map, Result, ok, err, ◌==◌,
  list_eq, nat_eq, list_beq, ◌||◌, ◌&&◌, contains, select, if◌then◌else◌, arith,
}
use creidhne.Base.Str.{Str, str, ext, has_prefix}
use creidhne.Base.Order.{sort, is_sorted, str_order, str_le}
use creidhne.Base.Dict
use creidhne.Base.Dict.{Dict}
use creidhne.Base.Paths.{FilePath, join_name, is_local, below, to_slash}
use creidhne.Kinds.{is_managed_ext}
use creidhne.Reconcile.Disk.{Disk, Errno, FileInfo, FileKind, not_found}
use creidhne.Reconcile.Mode.{PlanError, parse_mode, mode_differs_if_set}
use creidhne.Reconcile.Listing.{
  list_existing, entry_names, images_names, tree_names, flat_names, images_dir,
}
use creidhne.Reconcile.Plan.{
  DesiredFile, ActionKind, Change, bare, added, changed, plan_file, desired_at, plan_loop,
  extra_names, compute_plan,
}
use creidhne.Reconcile.Plan.Shape.{names, written, removals, compute_plan-perm, compute_plan-sorted}
use creidhne.Reconcile.Plan.Safety.{
  IsRemovable, compute_plan-local, removals-compute_plan, compute_plan-IsRemovable,
}
use creidhne.Reconcile.Plan.Converge.{IsInPlace, compute_plan-in_place}

abbrev app : Str
app = str "app.container"

abbrev old : Str
old = str "old.volume"

abbrev script : Str
script = str "images/a/run.sh"

abbrev dir : FilePath
dir = str "systemd" ∷ []

abbrev file_info : FileInfo
file_info = record { kind = FileKind.regular; perm = 420 }

abbrev dir_info : FileInfo
dir_info = record { kind = FileKind.directory; perm = 493 }

abbrev stat_at : FilePath → Result Errno FileInfo
stat_at path =
    if path == app ∷ dir || (path == old ∷ dir || path == str "run.sh" ∷ str "a" ∷ images_dir dir)
    then ok file_info
    else if path == dir || path == images_dir dir
    then ok dir_info
    else err Errno.not_exist

abbrev disk : Disk
disk = record {
  lstat = stat_at;
  stat = stat_at;
  read_file = λ path. if path == app ∷ dir then ok (str "A") else ok (str "x");
  read_dir = λ path. ok (
      (app, FileKind.regular)
      ∷ (str "notes.txt", FileKind.regular)
      ∷ (old, FileKind.regular)
      ∷ (str "link.pod", FileKind.symlink)
      ∷ (str "images", FileKind.directory)
      ∷ []);
  walk_dir = λ path. ok (
      (images_dir dir, FileKind.directory)
      ∷ (str "a" ∷ images_dir dir, FileKind.directory)
      ∷ (str "run.sh" ∷ str "a" ∷ images_dir dir, FileKind.regular)
      ∷ []);
}

abbrev desired : Dict Str DesiredFile
desired =
    (str "web.pod", record { content = str "P"; mode = [] })
    ∷ (app, record { content = str "A"; mode = [] })
    ∷ (script, record { content = str "x"; mode = str "0755" })
    ∷ []

abbrev planned : List Change
planned =
    bare ActionKind.unchanged app
    ∷ changed script (record { content = str "x"; mode = str "0755" }) (str "x")
    ∷ added (str "web.pod") (record { content = str "P"; mode = [] })
    ∷ bare ActionKind.remove old
    ∷ []

run_plan : Dict Str DesiredFile → Result PlanError (List Change)
unfolding compute_plan plan_loop plan_file desired_at extra_names sort select Dict.keys Dict.has
    join_name is_local parse_mode mode_differs_if_set not_found list_existing entry_names
    images_names tree_names flat_names is_managed_ext ext below to_slash list_beq contains str_le
    has_prefix
run_plan d = compute_plan d disk dir

plan_runs : run_plan desired ≡ ok planned
unfolding run_plan
plan_runs = refl

refused :
    run_plan ((str "../x.pod", record { content = []; mode = [] }) ∷ [])
    ≡ err (PlanError.unsafe_path (str "../x.pod"))
unfolding run_plan
refused = refl

compute_plan_run : compute_plan desired disk dir ≡ ok planned
compute_plan_run = unfold run_plan in plan_runs

list_existing_run : list_existing disk dir ≡ ok (app ∷ old ∷ script ∷ [])
unfolding run_plan
list_existing_run = refl

abbrev desired_again : Dict Str DesiredFile
desired_again =
    (app, record { content = str "A"; mode = [] })
    ∷ (str "web.pod", record { content = str "P"; mode = [] })
    ∷ []

abbrev desired_before : Dict Str DesiredFile
desired_before =
    (str "web.pod", record { content = str "P"; mode = [] })
    ∷ (app, record { content = str "A"; mode = [] })
    ∷ []

same_entries : (n : Str) → Dict.lookup n desired_before ≡ Dict.lookup n desired_again
unfolding Dict.lookup
same_entries n = ground (arith, list_beq_iff n app, list_beq_iff n (str "web.pod"))

compute_plan-perm_example :
    compute_plan desired_before disk dir ≡ compute_plan desired_again disk dir
compute_plan-perm_example =
    compute_plan-perm desired_before desired_again disk dir
      (unfold Dict.keys in Perm.swap app (str "web.pod") []) same_entries

compute_plan-sorted_example :
    (planned ≡ written planned ++ removals planned)
    × (names (written planned) ≡ sort (Dict.keys desired))
    × (is_sorted (names (removals planned)) ≡ true)
compute_plan-sorted_example = compute_plan-sorted desired disk dir compute_plan_run

compute_plan-local_example : is_local script ≡ true
compute_plan-local_example =
    compute_plan-local desired disk dir script compute_plan_run (unfold run_plan in refl)

removals-compute_plan_example :
    contains (names (removals planned)) old
    ≡ (contains (app ∷ old ∷ script ∷ []) old && not (Dict.has old desired))
removals-compute_plan_example =
    removals-compute_plan desired disk dir old compute_plan_run list_existing_run

compute_plan-IsRemovable_example : (Dict.has old desired ≡ false) × IsRemovable disk dir old
compute_plan-IsRemovable_example =
    compute_plan-IsRemovable desired disk dir old compute_plan_run (unfold run_plan in refl)

abbrev settled : Dict Str DesiredFile
settled =
    (script, record { content = str "x"; mode = str "644" })
    ∷ (old, record { content = str "x"; mode = [] })
    ∷ (app, record { content = str "A"; mode = [] })
    ∷ []

place :
    (n content mode : Str)
    → is_local n ≡ true
    → disk.lstat (join_name dir n) ≡ ok file_info
    → disk.read_file (join_name dir n) ≡ ok content
    → mode_differs_if_set disk (join_name dir n) mode ≡ ok false
    → IsInPlace disk dir n (record { content = content; mode = mode })
place n content mode safe found was_read settled = record {
  info = file_info;
  safe = safe;
  found = found;
  regular = refl;
  content = was_read;
  mode = settled;
}

settled_placed : All (λ n. IsInPlace disk dir n (desired_at settled n)) (Dict.keys settled)
unfolding run_plan
settled_placed = (
  place script (str "x") (str "644") refl refl refl refl,
  (place old (str "x") [] refl refl refl refl, (place app (str "A") [] refl refl refl refl, tt)),
)

settled_known : All (λ n. Dict.has n settled ≡ true) (app ∷ old ∷ script ∷ [])
unfolding run_plan
settled_known = (refl, (refl, (refl, tt)))

compute_plan-in_place_example :
    compute_plan settled disk dir ≡ ok (map (bare ActionKind.unchanged) (sort (Dict.keys settled)))
compute_plan-in_place_example =
    compute_plan-in_place settled disk dir settled_placed list_existing_run settled_known
