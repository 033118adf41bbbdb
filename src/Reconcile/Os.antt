-- ===== src/Reconcile/Os.antt =====
-- The calls of package `os` that a write makes, over an unknown state of the file system. Any call
-- may fail; what is assumed of one that succeeds, and of one that fails, is in `IsLawful`.
use creidhne.Base.{
  ℕ, ◌≡◌, ◌≢◌, Bool, true, false, ◌&&◌, Option, none, some, List, [], ◌∷◌, ◌++◌, Result, ok, err,
}
use creidhne.Base.Str.{Str, str, has_prefix, has_suffix}
use creidhne.Base.Paths.{FilePath}
use creidhne.Reconcile.Disk.{Disk, Errno, FileKind, FileInfo}
use creidhne.Reconcile.Mode.{PlanError, perm_bits}

-- An open file is named by the path that it was opened at.
pub record Os (S : Type 0) : Type 0 where
  pub view : S → Disk
  pub file : S → FilePath → Option (Str × ℕ)
  pub mkdir_all : FilePath → S → Result Errno (Unit {0}) × S
  pub remove_all : FilePath → S → Result Errno (Unit {0}) × S
  pub create_temp : FilePath → S → Result Errno FilePath × S
  pub open_dir : FilePath → S → Result Errno (Unit {0}) × S
  pub write : FilePath → Str → S → Result Errno (Unit {0}) × S
  pub sync : FilePath → S → Result Errno (Unit {0}) × S
  pub close : FilePath → S → Result Errno (Unit {0}) × S
  pub chmod : FilePath → ℕ → S → Result Errno (Unit {0}) × S
  pub rename : FilePath → FilePath → S → Result Errno (Unit {0}) × S
  pub remove : FilePath → S → Result Errno (Unit {0}) × S

-- The names that the pattern `.crei-*.tmp` of `os.CreateTemp` admits.
unfoldable pub is_temp : FilePath → Bool
unfolding has_prefix has_suffix
is_temp [] = false
is_temp (name ∷ dir) = has_prefix name (str ".crei-") && has_suffix name (str ".tmp")

-- Both states have the same regular files.
abbrev pub Same : {S : Type 0} → Os S → S → S → Type 0
Same sys s s' = (q : FilePath) → sys.file s' q ≡ sys.file s q

-- They differ at most at `p`.
abbrev pub SameBut : {S : Type 0} → Os S → FilePath → S → S → Type 0
SameBut sys p s s' = (q : FilePath) → q ≢ p → sys.file s' q ≡ sys.file s q

abbrev pub regular_info : ℕ → FileInfo
regular_info perm = record { kind = FileKind.regular; perm = perm }

-- `file s p` is the regular file at `p`: its content and its permission bits. The documented
-- behaviour: `MkdirAll` makes directories only, `RemoveAll` makes nothing, `CreateTemp` makes a
-- file that did not exist, `Write` returns no error only if it wrote everything, what `ReadDir` lists is a directory, a `Rename` that
-- fails changes nothing, and one that succeeds moves the file in one step.
pub record IsLawful {S : Type 0} (sys : Os S) : Type 0 where
  pub stat-parent :
      (s : S) (n : Str) (dir : FilePath) {f : Str × ℕ}
      → sys.file s (n ∷ dir) ≡ some f
      → (info : FileInfo) × ((sys.view s).stat dir ≡ ok info) × (info.kind ≡ FileKind.directory)
  pub lstat-file :
      (s : S) (p : FilePath) {c : Str} {m : ℕ}
      → sys.file s p ≡ some (c, m)
      → (sys.view s).lstat p ≡ ok (regular_info m)
  pub stat-file :
      (s : S) (p : FilePath) {c : Str} {m : ℕ}
      → sys.file s p ≡ some (c, m)
      → (sys.view s).stat p ≡ ok (regular_info m)
  pub read-file :
      (s : S) (p : FilePath) {c read : Str} {m : ℕ}
      → sys.file s p ≡ some (c, m)
      → (sys.view s).read_file p ≡ ok read
      → read ≡ c
  pub mkdir_all-Same : (d : FilePath) (s : S) → Same sys s (sys.mkdir_all d s).1
  pub remove_all-none :
      (d : FilePath) (s : S) (q : FilePath)
      → sys.file s q ≡ none
      → sys.file (sys.remove_all d s).1 q ≡ none
  pub create_temp-Same :
      (d : FilePath) (s : S) {e : Errno}
      → (sys.create_temp d s).0 ≡ err e
      → Same sys s (sys.create_temp d s).1
  pub create_temp-new :
      (d : FilePath) (s : S) {t : FilePath}
      → (sys.create_temp d s).0 ≡ ok t
      → (is_temp t ≡ true)
        × (sys.file s t ≡ none)
        × (sys.file (sys.create_temp d s).1 t ≡ some ([], 384))
        × SameBut sys t s (sys.create_temp d s).1
  pub open_dir-Same : (d : FilePath) (s : S) → Same sys s (sys.open_dir d s).1
  pub write-SameBut : (t : FilePath) (c : Str) (s : S) → SameBut sys t s (sys.write t c s).1
  pub write-all :
      (t : FilePath) (c : Str) (s : S) {old : Str} {m : ℕ}
      → sys.file s t ≡ some (old, m)
      → (sys.write t c s).0 ≡ ok tt
      → sys.file (sys.write t c s).1 t ≡ some (old ++ c, m)
  pub sync-Same : (t : FilePath) (s : S) → Same sys s (sys.sync t s).1
  pub close-Same : (t : FilePath) (s : S) → Same sys s (sys.close t s).1
  pub chmod-SameBut : (t : FilePath) (m : ℕ) (s : S) → SameBut sys t s (sys.chmod t m s).1
  pub chmod-set :
      (t : FilePath) (m : ℕ) (s : S) {c : Str} {old : ℕ}
      → sys.file s t ≡ some (c, old)
      → (sys.chmod t m s).0 ≡ ok tt
      → sys.file (sys.chmod t m s).1 t ≡ some (c, perm_bits m)
  pub rename-Same :
      (t p : FilePath) (s : S) {e : Errno}
      → (sys.rename t p s).0 ≡ err e
      → Same sys s (sys.rename t p s).1
  pub rename-moves :
      (t p : FilePath) (s : S) {f : Str × ℕ}
      → sys.file s t ≡ some f
      → t ≢ p
      → (sys.rename t p s).0 ≡ ok tt
      → (sys.file (sys.rename t p s).1 p ≡ some f)
        × (sys.file (sys.rename t p s).1 t ≡ none)
        × ((q : FilePath) → q ≢ t → q ≢ p → sys.file (sys.rename t p s).1 q ≡ sys.file s q)
  pub remove-empty :
      (d : FilePath) (s : S) → (sys.view s).read_dir d ≡ ok [] → Same sys s (sys.remove d s).1
  pub remove-SameBut : (t : FilePath) (s : S) → SameBut sys t s (sys.remove t s).1

-- A run: the state it has reached and those that it passed through, at each of which it may be cut.
pub record Trail (S : Type 0) : Type 0 where
  pub now : S
  pub past : List S

abbrev pub Action : Type 0 → Type 0 → Type 0
Action S A = Trail S → Result PlanError A × Trail S

module _ {S : Type 0} where
  infixl 5 ◌>>=◌ ◌>>◌
  abbrev pub ◌>>=◌ : {A B : Type 0} → Action S A → (A → Action S B) → Action S B
  ◌>>=◌ m next w = let (r, w') = m w in elim r [ ok a ↦ next a w' | err e ↦ (err e, w') ]

  abbrev pub ◌>>◌ : {A B : Type 0} → Action S A → Action S B → Action S B
  m >> k = m >>= λ _. k

  abbrev pub pure : {A : Type 0} → A → Action S A
  pure a w = (ok a, w)

  abbrev pub answer : {A : Type 0} → Result PlanError A → Action S A
  answer r w = (r, w)

  -- One call: the state before it joins the past.
  abbrev pub call : {A : Type 0} → (S → Result Errno A × S) → Action S A
  call op w =
      let (r, s) = op w.now in
      let w' : Trail S = record { now = s; past = w.now ∷ w.past } in
      elim r [ ok a ↦ (ok a, w') | err e ↦ (err (PlanError.os e), w') ]

  -- A call whose error is dropped.
  abbrev pub attempt : {A : Type 0} → (S → Result Errno A × S) → Action S (Unit {0})
  attempt op w = let (r, s) = op w.now in (ok tt, record { now = s; past = w.now ∷ w.past })
