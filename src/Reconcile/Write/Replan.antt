-- ===== src/Reconcile/Write/Replan.antt =====
-- `WriteFile` and the plan: what a write settles.
use mathlib.Core.Path.{subst}
use creidhne.Base.{
  ℕ, ◌≡◌, refl, sym, ◌∙◌, ap, true, false, Option, [], ◌∷◌, Result, ok, err, nat_eq, beq_refl,
  arith,
}
use creidhne.Base.Str.{Str}
use creidhne.Base.Paths.{FilePath, is_local, join_name}
use creidhne.Reconcile.Disk.{Disk}
use creidhne.Reconcile.Mode.{PlanError, perm_bits, mode_differs_if_set}
use creidhne.Reconcile.Plan.{DesiredFile, ActionKind, bare, plan_file}
use creidhne.Reconcile.Plan.Converge.{plan_file-unchanged_iff}
use creidhne.Reconcile.Os.{◌>>=◌ as bind, Action, Os, IsLawful, is_temp, Trail, regular_info}
use creidhne.Reconcile.Write.{wanted_perm, write_file}
use creidhne.Reconcile.Write.Atomic.{Replaced, write_file-atomic}
use creidhne.Reconcile.Write.Ends.{Ends, start, Always, Ends-ok}
use creidhne.Reconcile.Write.Kept.{Holds}

perm_bits-perm_bits : (m : ℕ) → perm_bits (perm_bits m) ≡ perm_bits m
perm_bits-perm_bits m = omega arith

mode-settled :
    (disk : Disk) (path : FilePath) (mode : Str) (perm : ℕ)
    → wanted_perm mode ≡ ok perm
    → disk.stat path ≡ ok (regular_info (perm_bits perm))
    → mode_differs_if_set disk path mode ≡ ok false
unfolding mode_differs_if_set wanted_perm
mode-settled disk path [] perm w e = refl
mode-settled disk path (c ∷ mode) perm w e =
    rw (w, e, perm_bits-perm_bits perm, beq_refl (perm_bits perm)) refl

module _ {S : Type 0} (sys : Os S) (law : IsLawful sys) where
  settled :
      (dir : FilePath) (name : Str) (fc : DesiredFile) (w : Trail S) (x : Option (Str × ℕ))
      (wanted : Result PlanError ℕ) {read : Str}
      → wanted_perm fc.mode ≡ wanted
      → is_local name ≡ true
      → Replaced sys (join_name dir name) fc.content x wanted w
      → (sys.view w.now).read_file (join_name dir name) ≡ ok read
      → plan_file (sys.view w.now) dir name fc ≡ ok (bare ActionKind.unchanged name)
  settled dir name fc w x (err e) perm safe h was_read = elim h [ ]
  settled dir name fc w x (ok m) perm safe (here, past) was_read =
      (plan_file-unchanged_iff (sys.view w.now) dir name fc).1 (record {
        info = regular_info (perm_bits m);
        safe = safe;
        found = law.lstat-file w.now (join_name dir name) here;
        regular = refl;
        content = was_read ∙ ap ok (law.read-file w.now (join_name dir name) here was_read);
        mode =
            mode-settled (sys.view w.now) (join_name dir name) fc.mode m perm
              (law.stat-file w.now (join_name dir name) here);
      })

  -- Once a desired file has been written without an error, a plan finds it unchanged: the write
  -- settles its kind, its content and its mode. The name is local, its path is not the root and not
  -- named as a temporary file, and the file that is then at the path can be read.
  pub write_file-plan_file :
      (dir : FilePath) (name : Str) (fc : DesiredFile) (s : S) {n read : Str} {d : FilePath}
      → is_local name ≡ true
      → join_name dir name ≡ n ∷ d
      → is_temp (n ∷ d) ≡ false
      → (write_file sys (join_name dir name) fc.content fc.mode (start s)).0 ≡ ok tt
      → let w = (write_file sys (join_name dir name) fc.content fc.mode (start s)).1 in
        (sys.view w.now).read_file (join_name dir name) ≡ ok read
        → plan_file (sys.view w.now) dir name fc ≡ ok (bare ActionKind.unchanged name)
  write_file-plan_file dir name fc s {n} {read} {d} safe e plain done was_read =
      settled dir name fc _ (sys.file s (join_name dir name)) (wanted_perm fc.mode) refl safe
        (Ends-ok (Always (Holds sys (join_name dir name) (sys.file s (join_name dir name))))
          (λ a.
            Replaced sys (join_name dir name) fc.content (sys.file s (join_name dir name))
              (wanted_perm fc.mode))
          _ tt
          (subst
            (λ p.
              Ends {A = Unit {0}} (Always (Holds sys p (sys.file s p)))
                (λ a. Replaced sys p fc.content (sys.file s p) (wanted_perm fc.mode))
                (write_file sys p fc.content fc.mode (start s)))
            (sym e) (write_file-atomic sys law n d fc.content fc.mode s plain))
          done)
        was_read

module _ {S : Type 0} (sys : Os S) where
  bind-err :
      (m : Action S (Unit {0})) (next : Unit {0} → Action S (Unit {0})) (w : Trail S)
      {e : PlanError}
      → m w ≡ (err e, w)
      → bind m next w ≡ (err e, w)
  bind-err m next w h = ap (λ out. bind (λ v. out) next w) h
