-- ===== src/Reconcile/Write/Atomic.antt =====
-- That a write replaces its target in one step.
use creidhne.Base.{
  ℕ, ◌≡◌, ◌≢◌, refl, sym, ◌∙◌, ◌⊎◌, inl, inr, false, Option, some, List, [], ◌∷◌, Result, ok, err,
  All,
}
use creidhne.Base.Str.{Str}
use creidhne.Base.Paths.{FilePath, parent}
use creidhne.Reconcile.Mode.{PlanError, perm_bits}
use creidhne.Reconcile.Os.{Os, IsLawful, is_temp, Trail, Action, ◌>>=◌, ◌>>◌, call, answer}
use creidhne.Reconcile.Write.Kept.{Holds, Keeps, prepare-Keeps, clear_target-Keeps}
use creidhne.Reconcile.Write.Staged.{Staged, fill_temp-Stages}
use creidhne.Reconcile.Write.{
  ensure_dir, clear_target, wanted_perm, sync_dir, and_remove, fill_temp, move_temp, write_in_dir,
  write_file,
}
use creidhne.Reconcile.Write.Ends.{
  Always, Ends, after, start, Ends->>=, Ends-call, Ends-and_remove, Ends-sync_dir,
}

-- One of the two.
abbrev pub Either : {A : Type 0} → A → A → A → Type 0
Either x y z = (z ≡ x) ⊎ (z ≡ y)

module _ {S : Type 0} (sys : Os S) where
  -- The path has `y` now, and had `x` or `y` in every state before.
  abbrev pub Moved : FilePath → Option (Str × ℕ) → Option (Str × ℕ) → Trail S → Type 0
  Moved path x y w = (sys.file w.now path ≡ y) × All (λ s. Either x y (sys.file s path)) w.past

  -- How a write with a known mode ends.
  abbrev pub Replaced : FilePath → Str → Option (Str × ℕ) → Result PlanError ℕ → Trail S → Type 0
  Replaced path content x (ok perm) w = Moved path x (some (content, perm_bits perm)) w
  Replaced path content x (err e) w = ⊥

module _ {S : Type 0} (sys : Os S) (law : IsLawful sys) where
  Moved-after :
      (path : FilePath) (x y : Option (Str × ℕ)) (s : S) (w : Trail S)
      → sys.file s path ≡ sys.file w.now path
      → Moved sys path x y w
      → Moved sys path x y (after s w)
  Moved-after path x y s w same (here, before) = (same ∙ here, (inr here, before))

  Either-past :
      (path : FilePath) (x y : Option (Str × ℕ)) (past : List S)
      → All (Holds sys path x) past
      → All (λ s. Either x y (sys.file s path)) past
  Either-past path x y [] h = tt
  Either-past path x y (s ∷ past) (h, hs) = (inl h, Either-past path x y past hs)

  move_temp-Ends :
      (temp path : FilePath) (f : Str × ℕ) (x : Option (Str × ℕ)) (w : Trail S)
      → path ≢ temp
      → Staged sys law path x temp f w
      → Ends {A = Unit {0}}
          (Always (Holds sys path x))
          (λ a. Moved sys path x (some f))
          (move_temp sys temp path w)
  unfolding move_temp
  move_temp-Ends temp path f x w ne (h, t) =
      Ends->>= (Always (Holds sys path x)) (λ a. Moved sys path x (some f))
        (λ a. Moved sys path x (some f)) (call (sys.rename temp path))
        (λ a. sync_dir sys (parent path)) w
        (Ends-call (Always (Holds sys path x)) (λ a. Moved sys path x (some f))
          (sys.rename temp path) w (λ e was. (law.rename-Same temp path w.now was path ∙ h.0, h))
          (λ a was. (
            (law.rename-moves temp path w.now t (λ e. ne (sym e)) was).0,
            (inl h.0, Either-past path x (some f) w.past h.1),
          )))
        (λ a w' moved.
          Ends-sync_dir sys _ (Moved sys path x (some f)) (parent path) w'
            (λ v m. Moved-after path x (some f) _ v (law.open_dir-Same (parent path) v.now path) m)
            (λ v m. Moved-after path x (some f) _ v (law.sync-Same (parent path) v.now path) m)
            (λ v m. Moved-after path x (some f) _ v (law.close-Same (parent path) v.now path) m)
            moved)

  create_temp-Ends :
      (path dir : FilePath) (x : Option (Str × ℕ)) (w : Trail S)
      → is_temp path ≡ false
      → Always (Holds sys path x) w
      → Ends
          (Always (Holds sys path x))
          (λ temp w'. Staged sys law path x temp ([], 384) w' × (path ≢ temp))
          (call (sys.create_temp dir) w)
  create_temp-Ends path dir x w plain h =
      Ends-call (Always (Holds sys path x)) _ (sys.create_temp dir) w
        (λ e was. (law.create_temp-Same dir w.now was path ∙ h.0, h))
        (λ temp was.
          let (is, none_before, new, others) = law.create_temp-new dir w.now was in
          let ne : path ≢ temp = λ e. cc in (((others path ne ∙ h.0, h), new), ne))

  -- From the temporary file on.
  stage_file-Ends :
      (temp path : FilePath) (content : Str) (perm : ℕ) (x : Option (Str × ℕ)) (w : Trail S)
      → path ≢ temp
      → Staged sys law path x temp ([], 384) w
      → Ends {A = Unit {0}}
          (Always (Holds sys path x))
          (λ a. Moved sys path x (some (content, perm_bits perm)))
          (and_remove sys temp (fill_temp sys temp content perm >> move_temp sys temp path) w)
  stage_file-Ends temp path content perm x w ne h =
      let removes = law.remove-SameBut temp in
      let target = some (content, perm_bits perm) in
      Ends-and_remove sys (Always (Holds sys path x)) (λ a. Moved sys path x target) temp
        (fill_temp sys temp content perm >> move_temp sys temp path) w
        (Ends->>= (Always (Holds sys path x))
          (λ a. Staged sys law path x temp (content, perm_bits perm)) (λ a. Moved sys path x target)
          (fill_temp sys temp content perm) (λ a. move_temp sys temp path) w
          (fill_temp-Stages sys law path x temp content perm 384 w ne h)
          (λ a v. move_temp-Ends temp path (content, perm_bits perm) x v ne))
        (λ v (here, before). (removes v.now path ne ∙ here, (here, before)))
        (λ v. Moved-after path x target (sys.remove temp v.now).1 v (removes v.now path ne))

  abbrev pub write_from : FilePath → FilePath → Str → Result PlanError ℕ → Action S (Unit {0})
  write_from path dir content wanted = answer wanted >>= λ perm.
      call (sys.create_temp dir) >>= λ temp.
      and_remove sys temp (fill_temp sys temp content perm >> move_temp sys temp path)

  write_from-Ends :
      (path dir : FilePath) (content : Str) (x : Option (Str × ℕ)) (wanted : Result PlanError ℕ)
      (w : Trail S)
      → is_temp path ≡ false
      → Always (Holds sys path x) w
      → Ends {A = Unit {0}}
          (Always (Holds sys path x))
          (λ a. Replaced sys path content x wanted)
          (write_from path dir content wanted w)
  unfolding and_remove
  write_from-Ends path dir content x (err e) w plain h = h
  write_from-Ends path dir content x (ok perm) w plain h =
      Ends->>= (Always (Holds sys path x))
        (λ temp v. Staged sys law path x temp ([], 384) v × (path ≢ temp))
        (λ a. Replaced sys path content x (ok perm)) (call (sys.create_temp dir)) _ w
        (create_temp-Ends path dir x w plain h)
        (λ temp v (staged, ne). stage_file-Ends temp path content perm x v ne staged)

  -- A step that leaves the target alone, and what follows it.
  Keeps-then :
      (path : FilePath) (x : Option (Str × ℕ)) (m k : Action S (Unit {0}))
      (wanted : Result PlanError ℕ) (content : Str) (w : Trail S)
      → Keeps sys path x (m w)
      → ((v : Trail S)
          → Always (Holds sys path x) v
          → Ends {A = Unit {0}}
              (Always (Holds sys path x))
              (λ a. Replaced sys path content x wanted)
              (k v))
      → Ends {A = Unit {0}}
          (Always (Holds sys path x))
          (λ a. Replaced sys path content x wanted)
          ((m >> k) w)
  Keeps-then path x m k wanted content w h later =
      Ends->>= (Always (Holds sys path x)) (λ a. Always (Holds sys path x))
        (λ a. Replaced sys path content x wanted) m (λ a. k) w h (λ a. later)

  write_file-Ends :
      (n : Str) (dir : FilePath) (content mode : Str) (x : Option (Str × ℕ)) (w : Trail S)
      → is_temp (n ∷ dir) ≡ false
      → Always (Holds sys (n ∷ dir) x) w
      → Ends {A = Unit {0}}
          (Always (Holds sys (n ∷ dir) x))
          (λ a. Replaced sys (n ∷ dir) content x (wanted_perm mode))
          (write_file sys (n ∷ dir) content mode w)
  unfolding write_file write_in_dir parent
  write_file-Ends n dir content mode x w plain h =
      Keeps-then (n ∷ dir) x (ensure_dir sys dir)
        (clear_target sys (n ∷ dir) >> write_from (n ∷ dir) dir content (wanted_perm mode))
        (wanted_perm mode) content w (prepare-Keeps sys law n dir x w h)
        (λ w1 h1.
          Keeps-then (n ∷ dir) x (clear_target sys (n ∷ dir))
            (write_from (n ∷ dir) dir content (wanted_perm mode)) (wanted_perm mode) content w1
            (clear_target-Keeps sys law (n ∷ dir) x w1 h1)
            (λ w2. write_from-Ends (n ∷ dir) dir content x (wanted_perm mode) w2 plain))

  -- Whatever calls of the operating system fail, and wherever the run is cut: a write that fails
  -- leaves at the target, in every state it passes through and at the end, the regular file that
  -- was there before, or none if there was none; a write that succeeds passes only through states in
  -- which the target has the file from before or the new one, whole and with its final mode, and
  -- ends with the new one. The target is not itself named as a temporary file.
  pub write_file-atomic :
      (n : Str) (dir : FilePath) (content mode : Str) (s : S)
      → is_temp (n ∷ dir) ≡ false
      → Ends {A = Unit {0}}
          (Always (Holds sys (n ∷ dir) (sys.file s (n ∷ dir))))
          (λ a. Replaced sys (n ∷ dir) content (sys.file s (n ∷ dir)) (wanted_perm mode))
          (write_file sys (n ∷ dir) content mode (start s))
  write_file-atomic n dir content mode s plain =
      write_file-Ends n dir content mode (sys.file s (n ∷ dir)) (start s) plain (refl, tt)
