-- ===== src/Reconcile/Plan/Shape.antt =====
-- The order of a plan, what it counts, and what it does not depend on.
use mathlib.Core.List.{Perm, append-nil}
use mathlib.Core.Path.{fun_ext}
use creidhne.Base.{
  ◌+◌, ◌≡◌, refl, ◌∙◌, ap, Bool, true, false, not, Option, List, [], ◌∷◌, ◌++◌, map, Result, ok,
  err, list_eq, nat_eq, >>=-eq-ok, ok-injective, sym, select, length, arith,
}
use creidhne.Base.Str.{Str}
use creidhne.Base.Order.{sort, str_order, sort-eq_of_perm, sort-is_sorted, is_sorted, Strs-set}
use creidhne.Base.Dict
use creidhne.Base.Dict.{Dict}
use creidhne.Base.Paths.{FilePath}
use creidhne.Reconcile.Disk.{Disk, Errno}
use creidhne.Reconcile.Mode.{lift_os}
use creidhne.Reconcile.Listing.{list_existing}
use creidhne.Reconcile.Plan.{
  DesiredFile, ActionKind, Change, Summary, bare, plan_file, desired_at, plan_loop, extra_names,
  compute_plan, no_changes, count, count_all, summarize,
}

abbrev pub is_removal : Change → Bool
is_removal c = elim c.action [ ActionKind.remove ↦ true | _ ↦ false ]

abbrev pub names : List Change → List Str
names = map (λ c. c.name)

abbrev pub written : List Change → List Change
written = select (λ c. not (is_removal c))

abbrev pub removals : List Change → List Change
removals = select is_removal

-- A change planned for a desired file carries its name and is no removal.
plan_file-name :
    (disk : Disk) (dir : FilePath) (name : Str) (fc : DesiredFile) {c : Change}
    → plan_file disk dir name fc ≡ ok c
    → (c.name ≡ name) × (is_removal c ≡ false)
unfolding plan_file
plan_file-name disk dir name fc h = ground arith

count_all-sums :
    (s : Summary) (cs : List Change)
    → let t = count_all s cs in
      t.added + t.changed + t.unchanged + t.removed
      ≡ s.added + s.changed + s.unchanged + s.removed + length cs
unfolding count_all
count_all-sums s [] = omega arith
count_all-sums s (c ∷ cs) = ground (arith, count_all-sums (count c.action s) cs)

lift_os-eq-ok {ℓ} : {A : Type ℓ} (r : Result Errno A) {a : A} → lift_os r ≡ ok a → r ≡ ok a
lift_os-eq-ok (ok a) h = ground arith
lift_os-eq-ok (err e) h = cc

-- The parts of a plan that was computed.
pub compute_plan_parts :
    (desired : Dict Str DesiredFile) (disk : Disk) (dir : FilePath) {cs : List Change}
    → compute_plan desired disk dir ≡ ok cs
    → (files : List Change) × (on_disk : List Str) × (plan_loop disk dir desired
          (sort (Dict.keys desired))
        ≡ ok files)
      × (list_existing disk dir ≡ ok on_disk)
      × (cs ≡ files ++ map (bare ActionKind.remove) (extra_names desired on_disk))
unfolding compute_plan
compute_plan_parts desired disk dir h =
    let (files, hf, k) = >>=-eq-ok (plan_loop disk dir desired (sort (Dict.keys desired))) _ h in
    let (on_disk, hd, e) = >>=-eq-ok (lift_os (list_existing disk dir)) _ k in
    (files, on_disk, hf, lift_os-eq-ok (list_existing disk dir) hd, sym (ok-injective e))

pub plan_loop_parts :
    (disk : Disk) (dir : FilePath) (desired : Dict Str DesiredFile) (n : Str) (ns : List Str)
    {files : List Change}
    → plan_loop disk dir desired (n ∷ ns) ≡ ok files
    → (c : Change) × (cs : List Change) × (plan_file disk dir n (desired_at desired n) ≡ ok c)
      × (plan_loop disk dir desired ns ≡ ok cs)
      × (files ≡ c ∷ cs)
unfolding plan_loop
plan_loop_parts disk dir desired n ns h =
    let (c, hc, k) = >>=-eq-ok (plan_file disk dir n (desired_at desired n)) _ h in
    let (cs, hcs, e) = >>=-eq-ok (plan_loop disk dir desired ns) _ k in
    (c, cs, hc, hcs, sym (ok-injective e))

plan_loop-names :
    (disk : Disk) (dir : FilePath) (desired : Dict Str DesiredFile) (ns : List Str)
    {files : List Change}
    → plan_loop disk dir desired ns ≡ ok files
    → (names files ≡ ns) × (written files ≡ files) × (removals files ≡ [])
unfolding plan_loop select
plan_loop-names disk dir desired [] h = rw (← ok-injective h) (refl, refl, refl)
plan_loop-names disk dir desired (n ∷ ns) h =
    let (c, cs, hc, hcs, e) = plan_loop_parts disk dir desired n ns h in
    rw e (
      ground (
        arith,
        plan_file-name disk dir n (desired_at desired n) hc,
        plan_loop-names disk dir desired ns hcs,
      ))

select-append :
    (p : Change → Bool) (xs ys : List Change) → select p (xs ++ ys) ≡ select p xs ++ select p ys
unfolding select
select-append p [] ys = refl
select-append p (x ∷ xs) ys = ground (arith, select-append p xs ys)

written-removed : (ns : List Str) → written (map (bare ActionKind.remove) ns) ≡ []
unfolding select
written-removed [] = refl
written-removed (n ∷ ns) = written-removed ns

removals-removed :
    (ns : List Str) → removals (map (bare ActionKind.remove) ns) ≡ map (bare ActionKind.remove) ns
unfolding select
removals-removed [] = refl
removals-removed (n ∷ ns) = rw (removals-removed ns)

names-removed : (ns : List Str) → names (map (bare ActionKind.remove) ns) ≡ ns
names-removed [] = refl
names-removed (n ∷ ns) = rw (names-removed ns)

pub removals-plan :
    (desired : Dict Str DesiredFile) (disk : Disk) (dir : FilePath) {cs : List Change}
    {on_disk : List Str}
    → compute_plan desired disk dir ≡ ok cs
    → list_existing disk dir ≡ ok on_disk
    → names (removals cs) ≡ extra_names desired on_disk
removals-plan desired disk dir {on_disk} h k =
    let (files, listed, hf, hd, e) = compute_plan_parts desired disk dir h in
    let (hn, hw, hr) = plan_loop-names disk dir desired _ hf in
    rw (e, select-append, hr, removals-removed, names-removed)
      (ap (extra_names desired) (ok-injective (sym hd ∙ k)))

-- If a plan is computed, it is its changes to desired files, whose names are the keys of the map
-- in sorted order, and then its removals, whose names are sorted too.
pub compute_plan-sorted :
    (desired : Dict Str DesiredFile) (disk : Disk) (dir : FilePath) {cs : List Change}
    → compute_plan desired disk dir ≡ ok cs
    → (cs ≡ written cs ++ removals cs)
      × (names (written cs) ≡ sort (Dict.keys desired))
      × (is_sorted (names (removals cs)) ≡ true)
unfolding extra_names
compute_plan-sorted desired disk dir h =
    let (files, on_disk, hf, hd, e) = compute_plan_parts desired disk dir h in
    let (hn, hw, hr) = plan_loop-names disk dir desired _ hf in
    let extras = extra_names desired on_disk in
    rw (e, select-append, select-append, hw, hr, written-removed, removals-removed, append-nil)
      (refl, hn, rw names-removed (sort-is_sorted (select (λ n. not (Dict.has n desired)) on_disk)))

desired_at-lookup :
    (d d' : Dict Str DesiredFile) (n : Str)
    → Dict.lookup n d ≡ Dict.lookup n d'
    → desired_at d n ≡ desired_at d' n
unfolding desired_at
desired_at-lookup d d' n h = rw h

plan_loop-lookup :
    (disk : Disk) (dir : FilePath) (d d' : Dict Str DesiredFile) (ns : List Str)
    → ((n : Str) → Dict.lookup n d ≡ Dict.lookup n d')
    → plan_loop disk dir d ns ≡ plan_loop disk dir d' ns
unfolding plan_loop
plan_loop-lookup disk dir d d' [] h = refl
plan_loop-lookup disk dir d d' (n ∷ ns) h =
    let same = desired_at-lookup d d' n (h n) in
    let rest = plan_loop-lookup disk dir d d' ns h in rw (same, rest)

extra_names-lookup :
    (d d' : Dict Str DesiredFile)
    → ((n : Str) → Dict.lookup n d ≡ Dict.lookup n d')
    → (ns : List Str) → extra_names d ns ≡ extra_names d' ns
unfolding extra_names Dict.has
extra_names-lookup d d' h ns =
    ap {B = List Str}
      (λ (f : Str → Option DesiredFile). sort (select (λ n. not (Dict.is_some (f n))) ns))
      (fun_ext h)

-- Two maps with the same entries, listed in any order, give one plan or one error.
pub compute_plan-perm :
    (d d' : Dict Str DesiredFile) (disk : Disk) (dir : FilePath)
    → Perm (Dict.keys d) (Dict.keys d')
    → ((n : Str) → Dict.lookup n d ≡ Dict.lookup n d')
    → compute_plan d disk dir ≡ compute_plan d' disk dir
compute_plan-perm d d' disk dir p h =
    let sorted = sort-eq_of_perm {A = Str} Strs-set p in
    let extras = extra_names-lookup d d' h in
    unfold compute_plan in rw (sorted, plan_loop-lookup disk dir d d' _ h) (simp extras)

-- The total counts the additions, the changes and the unchanged files, and with the removals it
-- counts every change of the plan.
pub summarize-total :
    (cs : List Change)
    → let s = summarize cs in
      (s.total ≡ s.added + s.changed + s.unchanged) × (s.total + s.removed ≡ length cs)
unfolding summarize
summarize-total cs = omega (arith, count_all-sums no_changes cs)
