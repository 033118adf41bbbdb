-- ===== src/Reconcile/Plan/Refuse.antt =====
-- Which plans are refused because of a path.
use creidhne.Base.{
  ◌≡◌, refl, ◌∙◌, sym, ap, Bool, true, false, not, ◌==◌, List, [], ◌∷◌, Result, ok, err, ◌>>=◌,
  list_eq, nat_eq, contains, beq_refl, is_nil, inl, inr, arith, Bool-cases, if◌then◌else◌,
}
use creidhne.Base.Str.{Str}
use creidhne.Base.Order.{sort, str_order, contains-sort}
use creidhne.Base.Dict
use creidhne.Base.Dict.{Dict}
use creidhne.Base.Paths.{FilePath, join_name, is_local}
use creidhne.Reconcile.Disk.{Disk, Errno, is_regular, not_found}
use creidhne.Reconcile.Mode.{PlanError, lift_os, parse_mode, mode_differs_if_set}
use creidhne.Reconcile.Listing.{list_existing}
use creidhne.Reconcile.Plan.{
  DesiredFile, added, changed, plan_file, plan_regular, desired_at, plan_loop, compute_plan,
}

-- The result is the refusal of a path.
abbrev pub refuses {ℓ} : {A : Type ℓ} → Result PlanError A → Bool
refuses (err (PlanError.unsafe_path name)) = true
refuses (err (PlanError.os e)) = false
refuses (err (PlanError.invalid_mode s)) = false
refuses (ok a) = false

refuses-bind :
    {A B : Type 0} (r : Result PlanError A) (next : A → Result PlanError B)
    → refuses r ≡ false
    → ((a : A) → refuses (next a) ≡ false)
    → refuses (r >>= next) ≡ false
refuses-bind (ok a) next h k = k a
refuses-bind (err (PlanError.unsafe_path name)) next h k = h
refuses-bind (err (PlanError.os e)) next h k = h
refuses-bind (err (PlanError.invalid_mode s)) next h k = h

refuses-if :
    {A : Type 0} (b : Bool) (x y : Result PlanError A)
    → refuses x ≡ false
    → refuses y ≡ false
    → refuses (if b then x else y) ≡ false
refuses-if true x y h k = h
refuses-if false x y h k = k

refuses-lift_os : {A : Type 0} (r : Result Errno A) → refuses (lift_os r) ≡ false
refuses-lift_os (ok a) = refl
refuses-lift_os (err e) = refl

refuses-parse_mode : (s : Str) → refuses (parse_mode s) ≡ false
unfolding parse_mode
refuses-parse_mode s = ground arith

refuses-mode_differs_if_set :
    (disk : Disk) (path : FilePath) (mode : Str)
    → refuses (mode_differs_if_set disk path mode) ≡ false
unfolding mode_differs_if_set
refuses-mode_differs_if_set disk path mode = refuses-if (is_nil mode) _ _ refl (
    refuses-bind (parse_mode mode) _ (refuses-parse_mode mode) (λ want.
      refuses-bind (lift_os (disk.stat path)) _ (refuses-lift_os (disk.stat path)) (λ info. refl)))

refuses-plan_regular :
    (disk : Disk) (dest : FilePath) (name : Str) (fc : DesiredFile)
    → refuses (plan_regular disk dest name fc) ≡ false
unfolding plan_regular
refuses-plan_regular disk dest name fc =
    refuses-bind (lift_os (disk.read_file dest)) _ (refuses-lift_os (disk.read_file dest))
      (λ existing.
        refuses-if (existing == fc.content) _ _
          (refuses-bind (mode_differs_if_set disk dest fc.mode) _
            (refuses-mode_differs_if_set disk dest fc.mode) (λ drift. refl))
          refl)

refuses-plan_file :
    (disk : Disk) (dir : FilePath) (name : Str) (fc : DesiredFile)
    → refuses (plan_file disk dir name fc) ≡ not (is_local name)
unfolding plan_file
refuses-plan_file disk dir name fc = elim (Bool-cases (is_local name)) [
  | inl safe ↦
      rw safe
        (elim (disk.lstat (join_name dir name))
          as (λ r.
            refuses (elim r [
              | err e ↦ if not_found e then ok (added name fc) else err (PlanError.os e)
              | ok info ↦
                  if is_regular info.kind
                  then plan_regular disk (join_name dir name) name fc
                  else ok (changed name fc [])
            ])
            ≡ false) [
              | err e ↦
                  refuses-if (not_found e) (ok (added name fc)) (err (PlanError.os e)) refl refl
              | ok info ↦
                  refuses-if (is_regular info.kind) (plan_regular disk (join_name dir name) name fc)
                    (ok (changed name fc []))
                    (refuses-plan_regular disk (join_name dir name) name fc) refl
            ])
  | inr unsafe ↦ rw unsafe refl
]

refuses-plan_loop :
    (disk : Disk) (dir : FilePath) (desired : Dict Str DesiredFile) (ns : List Str)
    → ((n : Str) → contains ns n ≡ true → is_local n ≡ true)
    → refuses (plan_loop disk dir desired ns) ≡ false
unfolding plan_loop contains
refuses-plan_loop disk dir desired [] h = refl
refuses-plan_loop disk dir desired (n ∷ ns) h =
    refuses-bind (plan_file disk dir n (desired_at desired n)) _
      (refuses-plan_file disk dir n (desired_at desired n) ∙ ap not (h n (rw (beq_refl n) refl)))
      (λ c.
        refuses-bind (plan_loop disk dir desired ns) _
          (refuses-plan_loop disk dir desired ns (λ m k. h m (ground (arith, k)))) (λ cs. refl))

-- A plan for local names is not refused.
pub compute_plan-refuses :
    (desired : Dict Str DesiredFile) (disk : Disk) (dir : FilePath)
    → ((n : Str) → Dict.has n desired ≡ true → is_local n ≡ true)
    → refuses (compute_plan desired disk dir) ≡ false
unfolding compute_plan
compute_plan-refuses desired disk dir h =
    refuses-bind (plan_loop disk dir desired (sort (Dict.keys desired))) _
      (refuses-plan_loop disk dir desired (sort (Dict.keys desired)) (λ n k.
        h n (sym (Dict.has-keys n desired) ∙ (sym (contains-sort n (Dict.keys desired)) ∙ k))))
      (λ files.
        refuses-bind (lift_os (list_existing disk dir)) _ (refuses-lift_os (list_existing disk dir))
          (λ on_disk. refl))
