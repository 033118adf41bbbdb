-- ===== src/Reconcile/Write/Ends.antt =====
-- How an action ends: what holds of the trail if it fails, and if it returns a value. The rules
-- follow the shape of the code.
use mathlib.Core.Path.{subst}
use creidhne.Base.{ok-injective, ◌≡◌, refl, [], ◌∷◌, Result, ok, err, All}
use creidhne.Base.Paths.{FilePath}
use creidhne.Reconcile.Disk.{Errno}
use creidhne.Reconcile.Mode.{PlanError}
use creidhne.Reconcile.Os.{Os, Trail, Action, ◌>>=◌, call, attempt}
use creidhne.Reconcile.Write.{or_close, sync_dir, and_remove}

-- Every state of the trail.
abbrev pub Always : {S : Type 0} → (S → Type 0) → Trail S → Type 0
Always P w = P w.now × All P w.past

abbrev pub Ends :
    {S A : Type 0}
    → (Trail S → Type 0)
    → (A → Trail S → Type 0)
    → Result PlanError A × Trail S
    → Type 0
Ends Failed Done (ok a, w) = Done a w
Ends Failed Done (err e, w) = Failed w

abbrev pub after : {S : Type 0} → S → Trail S → Trail S
after s w = record { now = s; past = w.now ∷ w.past }

-- The trail of a run that begins at `s`.
abbrev pub start : {S : Type 0} → S → Trail S
start s = record { now = s; past = [] }

module _ {S : Type 0} where
  Ends-next :
      {A B : Type 0} (Failed : Trail S → Type 0) (Middle : A → Trail S → Type 0)
      (Done : B → Trail S → Type 0) (r : Result PlanError A) (next : A → Action S B) (w : Trail S)
      → Ends Failed Middle (r, w)
      → ((a : A) (w' : Trail S) → Middle a w' → Ends Failed Done (next a w'))
      → Ends Failed Done (◌>>=◌ (λ v. (r, w)) next w)
  Ends-next Failed Middle Done (ok a) next w h later = later a w h
  Ends-next Failed Middle Done (err e) next w h later = h

  pub Ends->>= :
      {A B : Type 0} (Failed : Trail S → Type 0) (Middle : A → Trail S → Type 0)
      (Done : B → Trail S → Type 0) (m : Action S A) (next : A → Action S B) (w : Trail S)
      → Ends Failed Middle (m w)
      → ((a : A) (w' : Trail S) → Middle a w' → Ends Failed Done (next a w'))
      → Ends Failed Done ((m >>= next) w)
  Ends->>= Failed Middle Done m next w h later =
      Ends-next Failed Middle Done (m w).0 next (m w).1 h later

  Ends-answer :
      {A : Type 0} (Failed : Trail S → Type 0) (Done : A → Trail S → Type 0) (r : Result Errno A)
      (s : S) (w : Trail S)
      → ((e : Errno) → r ≡ err e → Failed (after s w))
      → ((a : A) → r ≡ ok a → Done a (after s w))
      → Ends Failed Done (call (λ v. (r, s)) w)
  Ends-answer Failed Done (ok a) s w failed done = done a refl
  Ends-answer Failed Done (err e) s w failed done = failed e refl

  pub Ends-call :
      {A : Type 0} (Failed : Trail S → Type 0) (Done : A → Trail S → Type 0)
      (op : S → Result Errno A × S) (w : Trail S)
      → ((e : Errno) → (op w.now).0 ≡ err e → Failed (after (op w.now).1 w))
      → ((a : A) → (op w.now).0 ≡ ok a → Done a (after (op w.now).1 w))
      → Ends Failed Done (call op w)
  Ends-call Failed Done op w failed done =
      Ends-answer Failed Done (op w.now).0 (op w.now).1 w failed done

  -- A call of which both ways of ending keep a property of the states.
  pub Ends-keep :
      {A : Type 0} (P : S → Type 0) (op : S → Result Errno A × S) (w : Trail S)
      → ((s : S) → P s → P (op s).1)
      → Always P w
      → Ends {A = A} (Always P) (λ a. Always P) (call op w)
  Ends-keep P op w keeps (here, before) =
      Ends-call (Always P) (λ a. Always P) op w (λ e h. (keeps w.now here, (here, before)))
        (λ a h. (keeps w.now here, (here, before)))

  pub Always-attempt :
      {A : Type 0} (P : S → Type 0) (op : S → Result Errno A × S) (w : Trail S)
      → ((s : S) → P s → P (op s).1)
      → Always P w
      → Always P (attempt op w).1
  Always-attempt P op w keeps (here, before) = (keeps w.now here, (here, before))

  Ends-value :
      {A : Type 0} (Failed : Trail S → Type 0) (Done : A → Trail S → Type 0)
      (r : Result PlanError A) (w : Trail S) (a : A)
      → Ends Failed Done (r, w)
      → r ≡ ok a
      → Done a w
  Ends-value Failed Done (ok b) w a h e = subst (λ v. Done v w) (ok-injective e) h
  Ends-value Failed Done (err why) w a h e = cc

  pub Ends-ok :
      {A : Type 0} (Failed : Trail S → Type 0) (Done : A → Trail S → Type 0)
      (out : Result PlanError A × Trail S) (a : A)
      → Ends Failed Done out
      → out.0 ≡ ok a
      → Done a out.1
  Ends-ok Failed Done out a h e = Ends-value Failed Done out.0 out.1 a h e

module _ {S : Type 0} (sys : Os S) where
  or_close_from :
      (Failed : Trail S → Type 0) (Done : Unit {0} → Trail S → Type 0) (temp : FilePath)
      (r : Result Errno (Unit {0})) (s : S) (w : Trail S)
      → ((e : Errno) → r ≡ err e → Failed (after (sys.close temp s).1 (after s w)))
      → (r ≡ ok tt → Done tt (after s w))
      → Ends Failed Done (or_close sys temp (λ v. (r, s)) w)
  unfolding or_close
  or_close_from Failed Done temp (ok tt) s w failed done = done refl
  or_close_from Failed Done temp (err e) s w failed done = failed e refl

  pub Ends-or_close :
      (Failed : Trail S → Type 0) (Done : Unit {0} → Trail S → Type 0) (temp : FilePath)
      (op : S → Result Errno (Unit {0}) × S) (w : Trail S)
      → ((e : Errno)
          → (op w.now).0 ≡ err e
          → Failed (after (sys.close temp (op w.now).1).1 (after (op w.now).1 w)))
      → ((op w.now).0 ≡ ok tt → Done tt (after (op w.now).1 w))
      → Ends Failed Done (or_close sys temp op w)
  unfolding or_close
  Ends-or_close Failed Done temp op w failed done =
      or_close_from Failed Done temp (op w.now).0 (op w.now).1 w failed done

  and_remove_from :
      (Failed : Trail S → Type 0) (Done : Unit {0} → Trail S → Type 0) (temp : FilePath)
      (r : Result PlanError (Unit {0})) (w : Trail S)
      → Ends Failed Done (r, w)
      → ((w' : Trail S) → Failed w' → Failed (after (sys.remove temp w'.now).1 w'))
      → ((w' : Trail S) → Done tt w' → Done tt (after (sys.remove temp w'.now).1 w'))
      → Ends Failed Done (and_remove sys temp (λ v. (r, w)) w)
  unfolding and_remove
  and_remove_from Failed Done temp (ok tt) w h failed done = done w h
  and_remove_from Failed Done temp (err e) w h failed done = failed w h

  pub Ends-and_remove :
      (Failed : Trail S → Type 0) (Done : Unit {0} → Trail S → Type 0) (temp : FilePath)
      (body : Action S (Unit {0})) (w : Trail S)
      → Ends Failed Done (body w)
      → ((w' : Trail S) → Failed w' → Failed (after (sys.remove temp w'.now).1 w'))
      → ((w' : Trail S) → Done tt w' → Done tt (after (sys.remove temp w'.now).1 w'))
      → Ends Failed Done (and_remove sys temp body w)
  unfolding and_remove
  Ends-and_remove Failed Done temp body w h failed done =
      and_remove_from Failed Done temp (body w).0 (body w).1 h failed done

  sync_dir_from :
      (Failed P : Trail S → Type 0) (dir : FilePath) (r : Result Errno (Unit {0})) (s : S)
      (w : Trail S)
      → ((w' : Trail S) → P w' → P (after (sys.sync dir w'.now).1 w'))
      → ((w' : Trail S) → P w' → P (after (sys.close dir w'.now).1 w'))
      → P (after s w)
      → Ends Failed (λ a. P) (sync_dir (record sys { open_dir = λ d v. (r, s) }) dir w)
  unfolding sync_dir
  sync_dir_from Failed P dir (ok tt) s w syncs closes h = closes _ (syncs _ h)
  sync_dir_from Failed P dir (err e) s w syncs closes h = h

  -- The directory is synced at best: `syncDir` never fails.
  pub Ends-sync_dir :
      (Failed P : Trail S → Type 0) (dir : FilePath) (w : Trail S)
      → ((w' : Trail S) → P w' → P (after (sys.open_dir dir w'.now).1 w'))
      → ((w' : Trail S) → P w' → P (after (sys.sync dir w'.now).1 w'))
      → ((w' : Trail S) → P w' → P (after (sys.close dir w'.now).1 w'))
      → P w
      → Ends Failed (λ a. P) (sync_dir sys dir w)
  unfolding sync_dir
  Ends-sync_dir Failed P dir w opens syncs closes h =
      sync_dir_from Failed P dir (sys.open_dir dir w.now).0 (sys.open_dir dir w.now).1 w syncs
        closes (opens w h)
