-- ===== src/Tests/Write.antt =====
-- Writes into the file system in memory.
use mathlib.Core.Path.{subst}
use creidhne.Base.{
  ℕ, ◌<◌, sym, All, Bool-cases, inl, inr, beq→eq, ok-injective, List, select, arith, list_beq_iff,
  ◌||◌, ◌≡◌, refl, true, false, none, some, [], ◌∷◌, ok, err, ◌==◌, list_eq, nat_eq, list_beq,
  if◌then◌else◌,
}
use creidhne.Base.Str.{Str, str, has_prefix, has_suffix}
use creidhne.Base.Paths.{FilePath, parent, join_name, is_local}
use creidhne.Reconcile.Disk.{Disk, Errno, FileKind, is_dir}
use creidhne.Reconcile.Mode.{PlanError, parse_mode}
use creidhne.Reconcile.Plan.{DesiredFile, ActionKind, Change, bare, added, plan_file}
use creidhne.Reconcile.Os.{Os, is_temp, ◌>>◌}
use creidhne.Reconcile.Write.{
  wanted_perm, write_file, write_in_dir, ensure_dir, clear_target, fill_temp, move_temp, and_remove,
  or_close, sync_dir,
}
use creidhne.Reconcile.Write.Ends.{Ends, Always, start}
use creidhne.Reconcile.Write.Kept.{Holds, Keeps}
use creidhne.Reconcile.Write.Atomic.{Replaced, write_file-atomic}
use creidhne.Reconcile.Write.Replan.{write_file-plan_file}
use creidhne.Reconcile.Write.Others.{write_file-other}
use creidhne.Reconcile.Prune.{prune_empty_dirs}
use creidhne.Reconcile.Prune.Kept.{prune_empty_dirs-Keeps}
use creidhne.Reconcile.Prune.Deep.{Shrinks, prune_empty_dirs-enough}
use creidhne.Reconcile.Apply.{apply_changes}
use creidhne.Reconcile.Apply.Ordered.{in_order, removing, writing, apply_changes-in_order}
use creidhne.Tests.Memory.{Memory, Node, holding, memory}
use creidhne.Tests.Memory.Lawful.{memory-IsLawful, remove-none}

abbrev dir : FilePath
dir = str "systemd" ∷ []

abbrev app : Str
app = str "app.container"

abbrev was : Str
was = str "old"

abbrev desired : DesiredFile
desired = record { content = str "new"; mode = str "0600" }

-- A quadlet directory with one unit file.
abbrev before : Memory
before = record {
  at = λ q.
      if q == dir || q == []
      then Node.directory
      else if q == app ∷ dir
      then holding was 420
      else Node.absent;
  listing = λ p. [];
  room = 10;
}

write_file-atomic_example :
    Ends {A = Unit {0}}
      (Always (Holds memory (app ∷ dir) (some (was, 420))))
      (λ a.
        Replaced memory (app ∷ dir) desired.content (some (was, 420)) (wanted_perm desired.mode))
      (write_file memory (app ∷ dir) desired.content desired.mode (start before))
unfolding list_beq
write_file-atomic_example =
    write_file-atomic memory memory-IsLawful app dir desired.content desired.mode before
      (unfold is_temp in refl)

-- A disk on which `images` is a file.
abbrev blocked : Disk
blocked = record {
  lstat = λ p. err Errno.not_dir;
  stat = λ p. err Errno.not_dir;
  read_file = λ p. err Errno.not_dir;
  read_dir = λ p. ok [];
  walk_dir = λ p. ok [];
}

abbrev after_write : Memory
after_write =
    (write_file memory (join_name dir app) desired.content desired.mode (start before)).1.now

write_file-plan_file_example :
    plan_file (memory.view after_write) dir app desired ≡ ok (bare ActionKind.unchanged app)
unfolding list_beq write_file write_in_dir ensure_dir clear_target wanted_perm parse_mode fill_temp
    move_temp and_remove or_close sync_dir parent join_name is_temp has_prefix has_suffix is_local
write_file-plan_file_example =
    write_file-plan_file memory memory-IsLawful dir app desired before {n = app}
      {read = desired.content} {d = dir} (unfold is_local in refl) (unfold join_name in refl)
      (unfold is_temp in refl) refl refl

-- Too little space for the new content.
abbrev full : Memory
full = record before { room = 2 }

write_fails :
    (write_file memory (app ∷ dir) desired.content desired.mode (start full)).0
    ≡ err (PlanError.os (Errno.other (str "ENOSPC")))
unfolding list_beq write_file write_in_dir ensure_dir clear_target wanted_perm parse_mode fill_temp
    and_remove or_close parent
write_fails = refl

write_file-other_example :
    memory.file
      (write_file memory (app ∷ dir) desired.content desired.mode (start full)).1.now
      (str ".crei-0.tmp" ∷ dir)
    ≡ none
unfolding list_beq parent is_temp has_prefix has_suffix
write_file-other_example =
    write_file-other memory memory-IsLawful (app ∷ dir) (str ".crei-0.tmp" ∷ dir) desired.content
      desired.mode full remove-none refl refl refl refl
      (λ e.
        let same : false ≡ true = (list_beq_iff (str ".crei-0.tmp" ∷ dir) (app ∷ dir)).1 e in
        cc same)

prune_empty_dirs-Keeps_example :
    Keeps memory (app ∷ dir) (some (was, 420)) (prune_empty_dirs memory 2 dir (start before))
unfolding list_beq
prune_empty_dirs-Keeps_example =
    prune_empty_dirs-Keeps memory memory-IsLawful (app ∷ dir) (some (was, 420)) 2 dir (start before)
      (refl, tt)

-- The images of one quadlet: a directory with one empty directory in it.
abbrev images : FilePath
images = str "images" ∷ dir

abbrev listed : FilePath → List (Str × FileKind)
listed p = if p == images then (str "a", FileKind.directory) ∷ [] else []

abbrev nested : Os Memory
nested = record memory {
  view = λ s. record blocked {
    stat = λ p. ok (record { kind = FileKind.directory; perm = 493 });
    read_dir = λ p. ok (listed p);
  };
}

abbrev rank : FilePath → ℕ
rank p = if p == images then 1 else 0

low : (p : FilePath) → All (λ e. is_dir e.1 ≡ true → rank (e.0 ∷ p) < rank p) (listed p)
low p = elim (Bool-cases (p == images)) [
  | inl same ↦
      subst (λ p. All (λ e. is_dir e.1 ≡ true → rank (e.0 ∷ p) < rank p) (listed p))
        (sym (beq→eq same)) (unfold list_beq in (λ d. omega arith, tt))
  | inr other ↦ rw other tt
]

nested-Shrinks : Shrinks nested rank
nested-Shrinks s p entries e =
    subst (All (λ e. is_dir e.1 ≡ true → rank (e.0 ∷ p) < rank p)) (ok-injective e) (low p)

prune_empty_dirs-enough_example :
    prune_empty_dirs nested 2 images (start before)
    ≡ prune_empty_dirs nested 5 images (start before)
unfolding list_beq
prune_empty_dirs-enough_example =
    prune_empty_dirs-enough nested rank nested-Shrinks 2 5 images (start before) (omega arith)
      (omega arith)

abbrev plan : List Change
plan =
    added app desired
    ∷ bare ActionKind.remove (str "b.volume")
    ∷ bare ActionKind.unchanged (str "c.pod")
    ∷ []

apply_changes-in_order_example :
    apply_changes memory 2 dir plan (start before)
    ≡ (in_order memory (removing memory dir) (bare ActionKind.remove (str "b.volume") ∷ [])
          >> (in_order memory (writing memory dir) (added app desired ∷ [])
              >> prune_empty_dirs memory 2 (str "images" ∷ dir)))
        (start before)
unfolding select
apply_changes-in_order_example = apply_changes-in_order memory 2 dir plan (start before)
