-- ===== src/Render/Planned.antt =====
-- The desired files of the project, as the plan takes them.
use creidhne.Base.{
  ◌≡◌, refl, ◌∙◌, sym, ap, Bool, true, false, List, [], ◌∷◌, Result, ok, err, ok-injective, list_eq,
  nat_eq, arith,
}
use creidhne.Base.Str.{Str}
use creidhne.Base.Paths.{FilePath, is_local}
use creidhne.Base.Dict
use creidhne.Base.Dict.{Dict}
use creidhne.Eval.Data.{Fields, Quadlet}
use creidhne.Reconcile.Disk.{Disk}
use creidhne.Reconcile.Plan.{DesiredFile, compute_plan}
use creidhne.Reconcile.Plan.Refuse.{refuses, compute_plan-refuses}
use creidhne.Render.{FileContent, RenderError, build_file_set}
use creidhne.Render.Written.{build_file_set-IsWritten}
use creidhne.Render.Project.{desired_files, desired_or_none, render_quadlets}

desired_files-has :
    (files : Dict Str FileContent) (p : Str) → Dict.has p (desired_files files) ≡ Dict.has p files
unfolding desired_files Dict.has Dict.lookup
desired_files-has [] p = refl
desired_files-has ((name, fc) ∷ files) p = ground (arith, desired_files-has files p)

some_files :
    (files : Dict Str FileContent) (desired : Dict Str DesiredFile)
    → desired_or_none (ok files) ≡ ok desired
    → desired ≡ desired_files files
some_files [] desired h = absurd (cc h)
some_files (f ∷ files) desired h = sym (ok-injective h)

local_files :
    (r : Result RenderError (Dict Str FileContent)) (desired : Dict Str DesiredFile)
    → ((files : Dict Str FileContent)
        → r ≡ ok files
        → (p : Str) → Dict.has p files ≡ true
        → is_local p ≡ true)
    → desired_or_none r ≡ ok desired
    → (p : Str) → Dict.has p desired ≡ true
    → is_local p ≡ true
local_files (err e) desired inside h p k = absurd (cc h)
local_files (ok files) desired inside h p k = inside files refl p (
    sym (desired_files-has files p)
    ∙ (sym (ap (λ m. Dict.has p m) (some_files files desired h)) ∙ k))

module _ (has_template : Str → Bool) (execute : Str → Fields → Result Str Str) where
  -- What the quadlets render to, the reconciler never refuses for an unsafe path, whatever is on
  -- disk.
  pub render_quadlets-refuses :
      (quads : List Quadlet) (desired : Dict Str DesiredFile) (disk : Disk) (dir : FilePath)
      → render_quadlets has_template execute quads ≡ ok desired
      → refuses (compute_plan desired disk dir) ≡ false
  unfolding render_quadlets
  render_quadlets-refuses quads desired disk dir h = compute_plan-refuses desired disk dir (
      local_files (build_file_set has_template execute quads) desired
        (λ files e. (build_file_set-IsWritten has_template execute quads files e).0) h)
