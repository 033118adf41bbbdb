-- ===== src/Reconcile/Write/Others.antt =====
-- That a write touches no file but its target, and leaves no temporary file behind.
use mathlib.Core.Path.{subst}
use creidhne.Base.{
  Bool-cases, beq→eq, beq_refl, ◌==◌, list_eq, nat_eq, ℕ, ◌≡◌, ◌≢◌, refl, sym, ◌∙◌, ap, inl, inr,
  true, false, Option, none, some, [], ◌∷◌, Result, ok, err, All,
}
use creidhne.Base.Str.{Str}
use creidhne.Base.Paths.{FilePath, parent}
use creidhne.Reconcile.Disk.{Errno, FileKind, FileInfo, is_dir, is_regular}
use creidhne.Reconcile.Mode.{PlanError, perm_bits}
use creidhne.Reconcile.Os.{Os, IsLawful, is_temp, SameBut, Trail, Action, ◌>>=◌, ◌>>◌, call}
use creidhne.Reconcile.Write.Atomic.{write_from}
use creidhne.Reconcile.Write.Kept.{Keeps->>, ensure_dir-is_dir, Holds, Keeps}
use creidhne.Reconcile.Write.Staged.{Staged, fill_temp-Stages}
use creidhne.Reconcile.Write.{
  clear_target, clear_from, wanted_perm, sync_dir, and_remove, fill_temp, move_temp, write_in_dir,
  write_file,
}
use creidhne.Reconcile.Write.Ends.{
  Always, start, Ends->>=, Ends-call, Ends-and_remove, Ends-sync_dir,
}

module _ {S : Type 0} (sys : Os S) (law : IsLawful sys) where
  move_temp-other :
      (temp path q : FilePath) (f : Str × ℕ) (x : Option (Str × ℕ)) (w : Trail S)
      → path ≢ temp
      → q ≢ temp
      → q ≢ path
      → Staged sys law q x temp f w
      → Keeps sys q x (move_temp sys temp path w)
  unfolding move_temp
  move_temp-other temp path q f x w ne a b (h, t) =
      let dir = parent path in
      Keeps->> sys law q x (call (sys.rename temp path)) (sync_dir sys dir) w
        (Ends-call (Always (Holds sys q x)) (λ v. Always (Holds sys q x)) (sys.rename temp path) w
          (λ e was. (law.rename-Same temp path w.now was q ∙ h.0, h))
          (λ v was. ((law.rename-moves temp path w.now t (λ e. ne (sym e)) was).2 q a b ∙ h.0, h)))
        (λ w' h'.
          Ends-sync_dir sys (Always (Holds sys q x)) (Always (Holds sys q x)) dir w'
            (λ v k. (law.open_dir-Same dir v.now q ∙ k.0, k))
            (λ v k. (law.sync-Same dir v.now q ∙ k.0, k))
            (λ v k. (law.close-Same dir v.now q ∙ k.0, k)) h')

  stage_file-other :
      (temp path q : FilePath) (content : Str) (perm : ℕ) (x : Option (Str × ℕ)) (w : Trail S)
      → path ≢ temp
      → q ≢ temp
      → q ≢ path
      → Staged sys law q x temp ([], 384) w
      → Keeps sys q x
          (and_remove sys temp (fill_temp sys temp content perm >> move_temp sys temp path) w)
  stage_file-other temp path q content perm x w ne a b h =
      let removes = law.remove-SameBut temp in
      Ends-and_remove sys (Always (Holds sys q x)) (λ v. Always (Holds sys q x)) temp
        (fill_temp sys temp content perm >> move_temp sys temp path) w
        (Ends->>= (Always (Holds sys q x)) (λ v. Staged sys law q x temp (content, perm_bits perm))
          (λ v. Always (Holds sys q x)) (fill_temp sys temp content perm)
          (λ v. move_temp sys temp path) w
          (fill_temp-Stages sys law q x temp content perm 384 w a h)
          (λ v w'. move_temp-other temp path q (content, perm_bits perm) x w' ne a b))
        (λ v k. (removes v.now q a ∙ k.0, k)) (λ v k. (removes v.now q a ∙ k.0, k))

  -- At the end, `q` has `x`.
  abbrev Settles : FilePath → Option (Str × ℕ) → Result PlanError (Unit {0}) × Trail S → Type 0
  Settles q x out = sys.file out.1.now q ≡ x

  Ends-Settles :
      (q : FilePath) (x : Option (Str × ℕ)) (r : Result PlanError (Unit {0})) (w : Trail S)
      → Keeps sys q x (r, w)
      → Settles q x (r, w)
  Ends-Settles q x (ok a) w h = h.0
  Ends-Settles q x (err e) w h = h.0

  -- The temporary file is gone, if a removal can be relied on.
  and_remove-none :
      (temp : FilePath) (body : Action S (Unit {0})) (w : Trail S)
      → ((t : FilePath) (s : S) → sys.file (sys.remove t s).1 t ≡ none)
      → Settles temp none (and_remove sys temp body w)
  unfolding and_remove
  and_remove-none temp body w gone = gone temp _

  staged-Settles :
      (temp path q : FilePath) (content : Str) (perm : ℕ) (x : Option (Str × ℕ)) (s : S)
      (w : Trail S)
      → ((t : FilePath) (s : S) → sys.file (sys.remove t s).1 t ≡ none)
      → path ≢ temp
      → q ≢ path
      → (sys.file s temp ≡ none) × (sys.file w.now temp ≡ some ([], 384)) × SameBut sys temp s w.now
      → sys.file s q ≡ x
      → All (Holds sys q x) w.past
      → Settles q x
          (and_remove sys temp (fill_temp sys temp content perm >> move_temp sys temp path) w)
  staged-Settles temp path q content perm x s w gone ne b (was, new, others) here before =
      elim (Bool-cases (q == temp)) [
        | inl e ↦
            let same : q ≡ temp = beq→eq e in
            subst
              (λ p. Settles p x (
                and_remove sys temp (fill_temp sys temp content perm >> move_temp sys temp path) w))
              (sym same)
              (and_remove-none temp (fill_temp sys temp content perm >> move_temp sys temp path) w
                  gone
                ∙ (sym was ∙ (ap (sys.file s) (sym same) ∙ here)))
        | inr e ↦
            let a : q ≢ temp = λ h. cc (e, ap (λ v. v == temp) h ∙ beq_refl temp) in
            Ends-Settles q x _ _ (
              stage_file-other temp path q content perm x w ne a b
                ((others q a ∙ here, before), new))
      ]

  created-Settles :
      (path dir q : FilePath) (content : Str) (perm : ℕ) (s : S) (r : Result Errno FilePath)
      (s' : S)
      → ((t : FilePath) (s : S) → sys.file (sys.remove t s).1 t ≡ none)
      → is_temp path ≡ false
      → q ≢ path
      → sys.create_temp dir s ≡ (r, s')
      → Settles q (sys.file s q) (
          (call (λ v. (r, s')) >>= λ temp.
          and_remove sys temp (fill_temp sys temp content perm >> move_temp sys temp path))
            (start s))
  created-Settles path dir q content perm s (err e) s' gone plain b was =
      subst (λ o. sys.file o.1 q ≡ sys.file s q) was
        (law.create_temp-Same dir s (ap (λ o. o.0) was) q)
  created-Settles path dir q content perm s (ok temp) s' gone plain b was =
      let (is, none_before, new, others) =
        subst
          (λ o.
            (is_temp temp ≡ true)
            × (sys.file s temp ≡ none)
            × (sys.file o.1 temp ≡ some ([], 384))
            × SameBut sys temp s o.1)
          was (law.create_temp-new dir s (ap (λ o. o.0) was)) in
      let ne : path ≢ temp = λ e. cc in
      staged-Settles temp path q content perm (sys.file s q) s (record { now = s'; past = s ∷ [] })
        gone ne b (none_before, new, others) refl (refl, tt)

  written-Settles :
      (path q : FilePath) (content : Str) (wanted : Result PlanError ℕ) (s : S)
      → ((t : FilePath) (s : S) → sys.file (sys.remove t s).1 t ≡ none)
      → is_temp path ≡ false
      → q ≢ path
      → Settles q (sys.file s q) (write_from sys law path (parent path) content wanted (start s))
  written-Settles path q content (err e) s gone plain b = refl
  written-Settles path q content (ok perm) s gone plain b =
      created-Settles path (parent path) q content perm s (sys.create_temp (parent path) s).0
        (sys.create_temp (parent path) s).1 gone plain b refl

  -- What is at the target may be replaced as it stands: nothing, or a regular file.
  abbrev pub IsFree : Result Errno FileInfo → Type 0
  IsFree (ok info) = is_regular info.kind ≡ true
  IsFree (err e) = Unit

  clear_from-IsFree :
      (path : FilePath) (r : Result Errno FileInfo) (w : Trail S)
      → IsFree r
      → clear_from sys path r w ≡ (ok tt, w)
  clear_from-IsFree path (ok info) w h = rw h refl
  clear_from-IsFree path (err e) w h = refl

  -- A write into a directory that is there, to a path at which is a regular file or nothing, leaves
  -- every other file as it was, however it ends: also the temporary file is gone, if a removal can
  -- be relied on to leave no file.
  pub write_file-other :
      (path q : FilePath) (content mode : Str) (s : S) {info : FileInfo}
      → ((t : FilePath) (s : S) → sys.file (sys.remove t s).1 t ≡ none)
      → is_temp path ≡ false
      → (sys.view s).stat (parent path) ≡ ok info
      → info.kind ≡ FileKind.directory
      → IsFree ((sys.view s).lstat path)
      → q ≢ path
      → sys.file (write_file sys path content mode (start s)).1.now q ≡ sys.file s q
  unfolding write_file write_in_dir clear_target
  write_file-other path q content mode s {info} gone plain is_there is_dir free b =
      let rest = write_from sys law path (parent path) content (wanted_perm mode) in
      let cleared : sys.file (write_in_dir sys path content mode (start s)).1.now q ≡ sys.file s q =
        subst (λ o. sys.file (((λ v. o) >> rest) (start s)).1.now q ≡ sys.file s q)
          (sym (clear_from-IsFree path ((sys.view s).lstat path) (start s) free))
          (written-Settles path q content (wanted_perm mode) s gone plain b) in
      subst
        (λ o.
          sys.file (((λ v. o) >> write_in_dir sys path content mode) (start s)).1.now q
          ≡ sys.file s q)
        (sym (ensure_dir-is_dir sys law (parent path) (start s) info is_there is_dir)) cleared
