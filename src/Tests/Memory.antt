-- ===== src/Tests/Memory.antt =====
-- A file system in memory that meets the laws of `Reconcile.Os`.
pub mod Laws
pub mod Lawful
use creidhne.Base.{
  ◌⊎◌, inl, inr, Bool-cases, ℕ, ◌+◌, ◌-◌, ◌≡◌, ◌≢◌, refl, sym, ◌∙◌, ap, Bool, true, false, ◌&&◌,
  Option, none, some, List, [], ◌∷◌, ◌++◌, Result, ok, err, ◌==◌, list_eq, nat_eq, list_beq,
  list_beq_iff, leb, length, arith, if◌then◌else◌, beq_refl,
}
use creidhne.Base.Str.{Str, str, has_prefix, has_suffix}
use creidhne.Base.Paths.{FilePath}
use creidhne.Reconcile.Disk.{Disk, Errno, FileKind, FileInfo}
use creidhne.Reconcile.Mode.{perm_bits}
use creidhne.Reconcile.Os.{Os, IsLawful, is_temp, Same, SameBut, regular_info}

pub data Node : Type 0 where
  absent directory : Node
  holding : Str → ℕ → Node

-- What is at each path, what is listed for a directory, and how many bytes one write may store.
pub record Memory : Type 0 where
  pub at : FilePath → Node
  pub listing : FilePath → List (Str × FileKind)
  pub room : ℕ

abbrev pub put : FilePath → Node → Memory → Memory
put p v s = record s { at = λ q. if q == p then v else s.at q }

abbrev pub is_directory : Node → Bool
is_directory Node.directory = true
is_directory _ = false

abbrev pub inside : Node → Node → Option (Str × ℕ)
inside Node.directory (holding c m) = some (c, m)
inside Node.directory Node.absent = none
inside Node.directory Node.directory = none
inside Node.absent v = none
inside (holding c m) v = none

abbrev pub file : Memory → FilePath → Option (Str × ℕ)
file s [] = none
file s (n ∷ d) = inside (s.at d) (s.at (n ∷ d))

abbrev pub no_space : Errno
no_space = Errno.other (str "ENOSPC")

abbrev pub info_of : Node → Result Errno FileInfo
info_of Node.absent = err Errno.not_exist
info_of Node.directory = ok (record { kind = FileKind.directory; perm = 493 })
info_of (holding c m) = ok (regular_info m)

abbrev pub content_of : Node → Result Errno Str
content_of Node.absent = err Errno.not_exist
content_of Node.directory = err (Errno.other (str "EISDIR"))
content_of (holding c m) = ok c

abbrev pub view : Memory → Disk
view s = record {
  lstat = λ p. info_of (s.at p);
  stat = λ p. info_of (s.at p);
  read_file = λ p. content_of (s.at p);
  read_dir = λ p. if is_directory (s.at p) then ok (s.listing p) else err Errno.not_dir;
  walk_dir = λ p. ok [];
}

abbrev pub Done : Type 0
Done = Result Errno (Unit {0}) × Memory

-- A new directory holds no file.
abbrev pub emptied : Node → Node
emptied Node.directory = Node.directory
emptied _ = Node.absent

abbrev pub child_of : FilePath → FilePath → Node → Node
child_of dir [] v = v
child_of dir (n ∷ d) v = if d == dir then emptied v else v

abbrev pub made : FilePath → Memory → Memory
made dir s = record s { at = λ q. if q == dir then Node.directory else child_of dir q (s.at q) }

abbrev pub mkdir_at : FilePath → Memory → Node → Done
mkdir_at dir s Node.absent = (ok tt, made dir s)
mkdir_at dir s Node.directory = (ok tt, s)
mkdir_at dir s (holding c m) = (err Errno.not_dir, s)

abbrev pub temp_in : FilePath → FilePath
temp_in dir = str ".crei-0.tmp" ∷ dir

abbrev pub create_at : FilePath → Memory → Node → Node → Result Errno FilePath × Memory
create_at dir s Node.directory Node.absent =
    (ok (temp_in dir), put (temp_in dir) (holding [] 384) s)
create_at dir s _ _ = (err no_space, s)

abbrev pub write_at : FilePath → Str → Memory → Node → Done
write_at t c s (holding old m) =
    if leb (length c) s.room then (ok tt, put t (holding (old ++ c) m) s) else (err no_space, s)
write_at t c s _ = (err no_space, s)

abbrev pub chmod_at : FilePath → ℕ → Memory → Node → Done
chmod_at t perm s (holding c m) = (ok tt, put t (holding c (perm_bits perm)) s)
chmod_at t perm s _ = (err no_space, s)

-- By what is at the target's directory, at the target and at the source.
abbrev pub rename_at : FilePath → FilePath → Memory → Node → Node → Node → Done
rename_at t p s Node.directory Node.absent (holding c m) =
    (ok tt, put t Node.absent (put p (holding c m) s))
rename_at t p s Node.directory (holding was perm) (holding c m) =
    (ok tt, put t Node.absent (put p (holding c m) s))
rename_at t p s _ _ _ = (err no_space, s)

abbrev pub rename_to : FilePath → FilePath → Memory → Done
rename_to t [] s = (err no_space, s)
rename_to t (n ∷ d) s = rename_at t (n ∷ d) s (s.at d) (s.at (n ∷ d)) (s.at t)

-- The space of a directory is not given back.
abbrev pub remove_at : FilePath → Memory → Node → Done
remove_at t s (holding c m) = (ok tt, put t Node.absent s)
remove_at t s Node.directory = (ok tt, s)
remove_at t s Node.absent = (err Errno.not_exist, s)

abbrev pub memory : Os Memory
memory = record {
  view = view;
  file = file;
  mkdir_all = λ d s. mkdir_at d s (s.at d);
  remove_all = λ d s. (ok tt, put d Node.absent s);
  create_temp = λ d s. create_at d s (s.at d) (s.at (temp_in d));
  open_dir = λ d s. (ok tt, s);
  write = λ t c s. write_at t c s (s.at t);
  sync = λ t s. (ok tt, s);
  close = λ t s. (ok tt, s);
  chmod = λ t m s. chmod_at t m s (s.at t);
  rename = rename_to;
  remove = λ t s. remove_at t s (s.at t);
}

pub same_path : (p q : FilePath) → (((p == q) ≡ true) × (p ≡ q)) ⊎ (((p == q) ≡ false) × (p ≢ q))
same_path p q = elim (Bool-cases (p == q)) [
  | inl e ↦ inl (e, (list_beq_iff p q).0 e)
  | inr e ↦ inr (e, λ h. cc (e, (list_beq_iff p q).1 h))
]

pub inside-file : (a b : Node) → is_directory a ≡ false → inside a b ≡ none
inside-file Node.absent b h = refl
inside-file Node.directory b h = cc
inside-file (holding c m) b h = refl

-- What is put where no directory is or comes changes no other file.
pub put-file :
    (s : Memory) (p : FilePath) (v : Node)
    → is_directory (s.at p) ≡ false
    → is_directory v ≡ false
    → SameBut memory p s (put p v s)
put-file s p v a b [] ne = refl
put-file s p v a b (n ∷ d) ne = elim (same_path (n ∷ d) p) [
  | inl (e, h) ↦ absurd (ne h)
  | inr (e, h) ↦ elim (same_path d p) [
    | inr (e', h') ↦ rw (e, e') refl
    | inl (e', h') ↦
        rw (e, e')
          (inside-file v (s.at (n ∷ d)) b ∙ sym (inside-file (s.at d) (s.at (n ∷ d)) (rw h' a)))
  ]
]

pub at-put : (s : Memory) (p : FilePath) (v : Node) → (put p v s).at p ≡ v
at-put s p v = rw (beq_refl p) refl

pub at-put_ne : (s : Memory) (p q : FilePath) (v : Node) → q ≢ p → (put p v s).at q ≡ s.at q
at-put_ne s p q v ne = elim (same_path q p) [ inl (e, h) ↦ absurd (ne h) | inr (e, h) ↦ rw e refl ]

pub in_itself : (n : Str) (d : FilePath) → d ≢ n ∷ d
in_itself n d h = let m : length d ≡ length (n ∷ d) = ap length h in omega (arith, m)

pub file-parent :
    (a b : Node) {f : Str × ℕ} → inside a b ≡ some f → (a ≡ Node.directory) × (b ≡ holding f.0 f.1)
file-parent Node.directory (holding c m) h = (refl, cc)
file-parent Node.directory Node.absent h = cc
file-parent Node.directory Node.directory h = cc
file-parent Node.absent b h = cc
file-parent (holding c m) b h = cc
