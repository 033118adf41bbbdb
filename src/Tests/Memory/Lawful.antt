-- ===== src/Tests/Memory/Lawful.antt =====
-- The file system in memory: renames, removals, and all the laws together.
use mathlib.Core.Path.{subst}
use creidhne.Base.{
  if◌then◌else◌, beq_ne, ok-injective, ℕ, ◌≡◌, ◌≢◌, refl, sym, ◌∙◌, ap, false, none, some, [], ◌∷◌,
  ok, err, list_eq, nat_eq, beq_refl,
}
use creidhne.Base.Str.{Str}
use creidhne.Base.Paths.{FilePath}
use creidhne.Reconcile.Disk.{Errno, FileKind, FileInfo}
use creidhne.Reconcile.Mode.{perm_bits}
use creidhne.Reconcile.Os.{IsLawful, Same, SameBut}
use creidhne.Tests.Memory.{
  Node, Memory, put, is_directory, file, mkdir_at, temp_in, chmod_at, rename_at, rename_to,
  remove_at, info_of, content_of, memory, put-file, at-put_ne, in_itself, file-parent, holding,
}
use creidhne.Tests.Memory.Laws.{
  made-Same, put_absent-none, create_temp-Same_from, create_temp-new_from, write-SameBut_from,
  file-put, file-at, file-put_absent, write-all_from, inside_no_file,
}

rename-Same_from :
    (t p : FilePath) (s : Memory) (a b c : Node) {e : Errno}
    → (rename_at t p s a b c).0 ≡ err e
    → Same memory s (rename_at t p s a b c).1
rename-Same_from t p s Node.directory Node.absent (holding c m) h = cc
rename-Same_from t p s Node.directory Node.absent Node.absent h = λ q. refl
rename-Same_from t p s Node.directory Node.absent Node.directory h = λ q. refl
rename-Same_from t p s Node.directory (holding w r) (holding c m) h = cc
rename-Same_from t p s Node.directory (holding w r) Node.absent h = λ q. refl
rename-Same_from t p s Node.directory (holding w r) Node.directory h = λ q. refl
rename-Same_from t p s Node.directory Node.directory c h = λ q. refl
rename-Same_from t p s Node.absent b c h = λ q. refl
rename-Same_from t p s (holding w r) b c h = λ q. refl

rename-Same_to :
    (t p : FilePath) (s : Memory) {e : Errno}
    → (rename_to t p s).0 ≡ err e
    → Same memory s (rename_to t p s).1
rename-Same_to t [] s h = λ q. refl
rename-Same_to t (n ∷ d) s h = rename-Same_from t (n ∷ d) s (s.at d) (s.at (n ∷ d)) (s.at t) h

-- A file moves over what is not a directory.
moved :
    (t : FilePath) (n : Str) (d : FilePath) (s : Memory) (c : Str) (m : ℕ)
    → s.at d ≡ Node.directory
    → is_directory (s.at (n ∷ d)) ≡ false
    → s.at t ≡ holding c m
    → t ≢ n ∷ d
    → let s' = put t Node.absent (put (n ∷ d) (holding c m) s) in
      (file s' (n ∷ d) ≡ some (c, m))
      × (file s' t ≡ none)
      × ((q : FilePath) → q ≢ t → q ≢ n ∷ d → file s' q ≡ file s q)
moved t n d s c m dir free has ne =
    let s1 : Memory = put (n ∷ d) (holding c m) s in
    let there : s1.at t ≡ holding c m = at-put_ne s (n ∷ d) t (holding c m) ne ∙ has in
    let away : SameBut memory t s1 (put t Node.absent s1) =
      put-file s1 t Node.absent (rw there refl) refl in
    (
      away (n ∷ d) (λ e. ne (sym e))
          ∙ rw (beq_ne d (n ∷ d) (in_itself n d), beq_refl (n ∷ d), dir) refl,
      file-put_absent s1 t,
      λ q a b. away q a ∙ put-file s (n ∷ d) (holding c m) free refl q b,
    )

rename-moves_from :
    (t : FilePath) (n : Str) (d : FilePath) (s : Memory) (a b : Node) {f : Str × ℕ}
    → s.at d ≡ a
    → s.at (n ∷ d) ≡ b
    → s.at t ≡ holding f.0 f.1
    → t ≢ n ∷ d
    → (rename_at t (n ∷ d) s a b (holding f.0 f.1)).0 ≡ ok tt
    → let s' = (rename_at t (n ∷ d) s a b (holding f.0 f.1)).1 in
      (file s' (n ∷ d) ≡ some f)
      × (file s' t ≡ none)
      × ((q : FilePath) → q ≢ t → q ≢ n ∷ d → file s' q ≡ file s q)
rename-moves_from t n d s Node.directory Node.absent {f} da ba fa ne h =
    moved t n d s f.0 f.1 da (rw ba refl) fa ne
rename-moves_from t n d s Node.directory (holding w r) {f} da ba fa ne h =
    moved t n d s f.0 f.1 da (rw ba refl) fa ne
rename-moves_from t n d s Node.directory Node.directory da ba fa ne h = cc
rename-moves_from t n d s Node.absent b da ba fa ne h = cc
rename-moves_from t n d s (holding w r) b da ba fa ne h = cc

rename-moves_to :
    (t p : FilePath) (s : Memory) {f : Str × ℕ}
    → file s t ≡ some f
    → t ≢ p
    → (rename_to t p s).0 ≡ ok tt
    → (file (rename_to t p s).1 p ≡ some f)
      × (file (rename_to t p s).1 t ≡ none)
      × ((q : FilePath) → q ≢ t → q ≢ p → file (rename_to t p s).1 q ≡ file s q)
rename-moves_to t [] s h ne was = cc
rename-moves_to t (n ∷ d) s {f} h ne was =
    subst
      (λ v.
        let (r, s') = rename_at t (n ∷ d) s (s.at d) (s.at (n ∷ d)) v in
        r ≡ ok tt
        → (file s' (n ∷ d) ≡ some f)
          × (file s' t ≡ none)
          × ((q : FilePath) → q ≢ t → q ≢ n ∷ d → file s' q ≡ file s q))
      (sym (file-at s t h))
      (rename-moves_from t n d s (s.at d) (s.at (n ∷ d)) refl refl (file-at s t h) ne) was

remove-SameBut_from :
    (t : FilePath) (s : Memory) (b : Node) → s.at t ≡ b → SameBut memory t s (remove_at t s b).1
remove-SameBut_from t s (holding c m) e = put-file s t Node.absent (rw e refl) refl
remove-SameBut_from t s Node.absent e = λ q ne. refl
remove-SameBut_from t s Node.directory e = λ q ne. refl

remove-none_from :
    (t : FilePath) (s : Memory) (b : Node) → s.at t ≡ b → file (remove_at t s b).1 t ≡ none
remove-none_from t s (holding c m) e = file-put_absent s t
remove-none_from [] s Node.absent e = refl
remove-none_from [] s Node.directory e = refl
remove-none_from (n ∷ d) s Node.absent e = rw e (inside_no_file (s.at d) Node.absent)
remove-none_from (n ∷ d) s Node.directory e = rw e (inside_no_file (s.at d) Node.directory)

pub remove-none : (t : FilePath) (s : Memory) → memory.file (memory.remove t s).1 t ≡ none
remove-none t s = remove-none_from t s (s.at t) refl

chmod-SameBut_from :
    (t : FilePath) (m : ℕ) (s : Memory) (b : Node)
    → s.at t ≡ b
    → SameBut memory t s (chmod_at t m s b).1
chmod-SameBut_from t m s (holding c r) e = put-file s t (holding c (perm_bits m)) (rw e refl) refl
chmod-SameBut_from t m s Node.absent e = λ q ne. refl
chmod-SameBut_from t m s Node.directory e = λ q ne. refl

mkdir_all-Same_from :
    (d : FilePath) (s : Memory) (b : Node) → s.at d ≡ b → Same memory s (mkdir_at d s b).1
mkdir_all-Same_from d s Node.absent e = made-Same d s e
mkdir_all-Same_from d s Node.directory e = λ q. refl
mkdir_all-Same_from d s (holding c m) e = λ q. refl

parent_of_file :
    (s : Memory) (n : Str) (d : FilePath) {f : Str × ℕ}
    → file s (n ∷ d) ≡ some f
    → (info : FileInfo) × (info_of (s.at d) ≡ ok info) × (info.kind ≡ FileKind.directory)
parent_of_file s n d h = (
  record { kind = FileKind.directory; perm = 493 },
  ap info_of (file-parent (s.at d) (s.at (n ∷ d)) h).0,
  refl,
)

remove-empty_from :
    (d : FilePath) (s : Memory) (b : Node)
    → (if is_directory b then ok (s.listing d) else err Errno.not_dir) ≡ ok []
    → Same memory s (remove_at d s b).1
remove-empty_from d s Node.directory h = λ q. refl
remove-empty_from d s Node.absent h = cc
remove-empty_from d s (holding c m) h = cc

pub memory-IsLawful : IsLawful memory
memory-IsLawful = record {
  stat-parent = parent_of_file;
  lstat-file = λ s p h. ap info_of (file-at s p h);
  stat-file = λ s p h. ap info_of (file-at s p h);
  read-file = λ s p h was. ok-injective (sym was ∙ ap content_of (file-at s p h));
  mkdir_all-Same = λ d s. mkdir_all-Same_from d s (s.at d) refl;
  remove_all-none = put_absent-none;
  create_temp-Same = λ d s h. create_temp-Same_from d s (s.at d) (s.at (temp_in d)) h;
  create_temp-new = λ d s h. create_temp-new_from d s (s.at d) (s.at (temp_in d)) refl refl h;
  open_dir-Same = λ d s q. refl;
  write-SameBut = λ t c s. write-SameBut_from t c s (s.at t) refl;
  write-all = λ t c s h was. write-all_from t c s h was;
  sync-Same = λ t s q. refl;
  close-Same = λ t s q. refl;
  chmod-SameBut = λ t m s. chmod-SameBut_from t m s (s.at t) refl;
  chmod-set = λ t m s {c} {old} h was. rw (file-at s t h) (file-put s t c (perm_bits m) h);
  rename-Same = λ t p s h. rename-Same_to t p s h;
  rename-moves = λ t p s h ne was. rename-moves_to t p s h ne was;
  remove-empty = λ d s h. remove-empty_from d s (s.at d) h;
  remove-SameBut = λ t s. remove-SameBut_from t s (s.at t) refl;
}
