-- ===== src/Reconcile/Write/Staged.antt =====
-- How the temporary file of `WriteFile` is filled.
use creidhne.Base.{ℕ, ◌≡◌, ◌≢◌, ◌∙◌, Option, some, [], Result, ok}
use creidhne.Base.Str.{Str}
use creidhne.Base.Paths.{FilePath}
use creidhne.Reconcile.Disk.{Errno}
use creidhne.Reconcile.Mode.{PlanError, perm_bits}
use creidhne.Reconcile.Os.{Os, IsLawful, Trail, Action, ◌>>◌, call}
use creidhne.Reconcile.Write.Kept.{Holds}
use creidhne.Reconcile.Write.{or_close, fill_temp}
use creidhne.Reconcile.Write.Ends.{Always, Ends, Ends->>=, Ends-call, Ends-or_close}

module _ {S : Type 0} (sys : Os S) (law : IsLawful sys) where
  -- The path keeps `x`, and the temporary file is `f`.
  abbrev pub Staged : FilePath → Option (Str × ℕ) → FilePath → Str × ℕ → Trail S → Type 0
  Staged path x temp f w = Always (Holds sys path x) w × (sys.file w.now temp ≡ some f)

  -- How the steps of `fill_temp` end: the target is what it was, and `f` is in the temporary file.
  abbrev pub Stages :
      FilePath
      → Option (Str × ℕ)
      → FilePath
      → Str × ℕ
      → Result PlanError (Unit {0}) × Trail S
      → Type 0
  Stages path x temp f out = Ends (Always (Holds sys path x)) (λ a. Staged path x temp f) out

  Stages->> :
      (path : FilePath) (x : Option (Str × ℕ)) (temp : FilePath) (f g : Str × ℕ)
      (m k : Action S (Unit {0})) (w : Trail S)
      → Stages path x temp f (m w)
      → ((w' : Trail S) → Staged path x temp f w' → Stages path x temp g (k w'))
      → Stages path x temp g ((m >> k) w)
  Stages->> path x temp f g m k w h later =
      Ends->>= (Always (Holds sys path x)) (λ a. Staged path x temp f) (λ a. Staged path x temp g) m
        (λ a. k) w h (λ a. later)

  or_close-Stages :
      (path : FilePath) (x : Option (Str × ℕ)) (temp : FilePath) (f g : Str × ℕ)
      (op : S → Result Errno (Unit {0}) × S) (w : Trail S)
      → ((s : S) → sys.file (op s).1 path ≡ sys.file s path)
      → ((s : S) → sys.file s temp ≡ some f → (op s).0 ≡ ok tt → sys.file (op s).1 temp ≡ some g)
      → Staged path x temp f w
      → Stages path x temp g (or_close sys temp op w)
  or_close-Stages path x temp f g op w same sets (h, t) =
      Ends-or_close sys (Always (Holds sys path x)) (λ a. Staged path x temp g) temp op w
        (λ e was.
          (law.close-Same temp (op w.now).1 path ∙ (same w.now ∙ h.0), (same w.now ∙ h.0, h)))
        (λ was. ((same w.now ∙ h.0, h), sets w.now t was))

  call-Stages :
      (path : FilePath) (x : Option (Str × ℕ)) (temp : FilePath) (f g : Str × ℕ)
      (op : S → Result Errno (Unit {0}) × S) (w : Trail S)
      → ((s : S) → sys.file (op s).1 path ≡ sys.file s path)
      → ((s : S) → sys.file s temp ≡ some f → (op s).0 ≡ ok tt → sys.file (op s).1 temp ≡ some g)
      → Staged path x temp f w
      → Stages path x temp g (call op w)
  call-Stages path x temp f g op w same sets (h, t) =
      Ends-call (Always (Holds sys path x)) (λ a. Staged path x temp g) op w
        (λ e was. (same w.now ∙ h.0, h)) (λ a was. ((same w.now ∙ h.0, h), sets w.now t was))

  pub fill_temp-Stages :
      (path : FilePath) (x : Option (Str × ℕ)) (temp : FilePath) (content : Str) (perm m : ℕ)
      (w : Trail S)
      → path ≢ temp
      → Staged path x temp ([], m) w
      → Stages path x temp (content, perm_bits perm) (fill_temp sys temp content perm w)
  unfolding fill_temp
  fill_temp-Stages path x temp content perm m w ne h =
      Stages->> path x temp (content, m) _ (or_close sys temp (sys.write temp content)) _ w
        (or_close-Stages path x temp ([], m) (content, m) (sys.write temp content) w
          (λ s. law.write-SameBut temp content s path ne) (λ s. law.write-all temp content s) h)
        (λ w1 h1.
          Stages->> path x temp (content, m) _ (or_close sys temp (sys.sync temp)) _ w1
            (or_close-Stages path x temp (content, m) (content, m) (sys.sync temp) w1
              (λ s. law.sync-Same temp s path) (λ s t was. law.sync-Same temp s temp ∙ t) h1)
            (λ w2 h2.
              Stages->> path x temp (content, m) _ (call (sys.close temp)) _ w2
                (call-Stages path x temp (content, m) (content, m) (sys.close temp) w2
                  (λ s. law.close-Same temp s path) (λ s t was. law.close-Same temp s temp ∙ t) h2)
                (λ w3 h3.
                  call-Stages path x temp (content, m) (content, perm_bits perm)
                    (sys.chmod temp perm) w3 (λ s. law.chmod-SameBut temp perm s path ne)
                    (λ s. law.chmod-set temp perm s) h3)))
