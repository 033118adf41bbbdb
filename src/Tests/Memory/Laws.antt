-- ===== src/Tests/Memory/Laws.antt =====
-- The file system in memory meets the laws.
use mathlib.Core.Path.{subst}
use creidhne.Base.{
  beq_ne, ok-injective, inl, inr, Bool-cases, ℕ, ◌≡◌, refl, sym, ◌∙◌, ap, true, none, some, [], ◌∷◌,
  ◌++◌, ok, err, list_eq, nat_eq, leb, length, arith, beq_refl,
}
use creidhne.Base.Str.{Str, str, has_prefix, has_suffix}
use creidhne.Base.Paths.{FilePath}
use creidhne.Reconcile.Disk.{Errno}
use creidhne.Reconcile.Os.{is_temp, Same, SameBut}
use creidhne.Tests.Memory.{
  Node, Memory, put, inside, file, made, temp_in, create_at, write_at, memory, put-file, in_itself,
  same_path, emptied, child_of, file-parent, holding,
}

inside-emptied : (a b : Node) → inside (emptied a) b ≡ inside a b
inside-emptied Node.absent b = refl
inside-emptied Node.directory b = refl
inside-emptied (holding c m) b = refl

inside-child_of : (dir q : FilePath) (a b : Node) → inside (child_of dir q a) b ≡ inside a b
inside-child_of dir [] a b = refl
inside-child_of dir (n ∷ d) a b = elim (same_path d dir) [
  | inl (e, h) ↦ rw e (inside-emptied a b)
  | inr (e, h) ↦ rw e refl
]

pub inside-absent : (a b : Node) → a ≡ Node.absent → inside a b ≡ none
inside-absent a b h = ap (λ v. inside v b) h

pub inside_no_file : (a b : Node) → inside a (emptied b) ≡ none
inside_no_file Node.absent b = refl
inside_no_file Node.directory Node.absent = refl
inside_no_file Node.directory Node.directory = refl
inside_no_file Node.directory (holding c m) = refl
inside_no_file (holding c m) b = refl

pub made-Same : (dir : FilePath) (s : Memory) → s.at dir ≡ Node.absent → Same memory s (made dir s)
made-Same dir s e [] = refl
made-Same dir s e (n ∷ d) = elim (same_path d dir) [
  | inl (b, h) ↦ elim (same_path (n ∷ d) dir) [
    | inl (c, k) ↦ absurd (in_itself n d (h ∙ sym k))
    | inr (c, k) ↦
        rw (c, b)
          (inside_no_file Node.directory (s.at (n ∷ d))
            ∙ sym (inside-absent (s.at d) (s.at (n ∷ d)) (ap s.at h ∙ e)))
  ]
  | inr (b, h) ↦ elim (same_path (n ∷ d) dir) [
    | inl (c, k) ↦
        rw (c, b)
          (inside-child_of dir d (s.at d) Node.directory
            ∙ (inside_no_file (s.at d) Node.directory
                ∙ sym (ap (inside (s.at d)) (ap s.at k ∙ e) ∙ inside_no_file (s.at d) Node.absent)))
    | inr (c, k) ↦ rw (c, b) (inside-child_of dir d (s.at d) (s.at (n ∷ d)))
  ]
]

inside-none : (a b : Node) → inside a b ≡ none → inside a Node.absent ≡ none
inside-none Node.absent b h = refl
inside-none Node.directory b h = refl
inside-none (holding c m) b h = refl

pub put_absent-none :
    (p : FilePath) (s : Memory) (q : FilePath)
    → file s q ≡ none
    → file (put p Node.absent s) q ≡ none
put_absent-none p s [] h = refl
put_absent-none p s (n ∷ d) h = elim (same_path d p) [
  | inl (b', h') ↦ rw b' refl
  | inr (b', h') ↦ elim (same_path (n ∷ d) p) [
    | inl (b, k) ↦ rw (b, b') (inside-none (s.at d) (s.at (n ∷ d)) h)
    | inr (b, k) ↦ rw (b, b') h
  ]
]

pub create_temp-Same_from :
    (d : FilePath) (s : Memory) (a b : Node) {e : Errno}
    → (create_at d s a b).0 ≡ err e
    → Same memory s (create_at d s a b).1
create_temp-Same_from d s Node.directory Node.absent h = cc
create_temp-Same_from d s Node.directory Node.directory h = λ q. refl
create_temp-Same_from d s Node.directory (holding c m) h = λ q. refl
create_temp-Same_from d s Node.absent b h = λ q. refl
create_temp-Same_from d s (holding c m) b h = λ q. refl

pub create_temp-new_from :
    (d : FilePath) (s : Memory) (a b : Node) {t : FilePath}
    → s.at d ≡ a
    → s.at (temp_in d) ≡ b
    → (create_at d s a b).0 ≡ ok t
    → (is_temp t ≡ true)
      × (file s t ≡ none)
      × (file (create_at d s a b).1 t ≡ some ([], 384))
      × SameBut memory t s (create_at d s a b).1
unfolding is_temp has_prefix has_suffix
create_temp-new_from d s Node.directory Node.absent da ta h =
    subst
      (λ t.
        (is_temp t ≡ true)
        × (file s t ≡ none)
        × (file (put (temp_in d) (holding [] 384) s) t ≡ some ([], 384))
        × SameBut memory t s (put (temp_in d) (holding [] 384) s))
      (ok-injective h)
      (
        refl,
        rw (da, ta) refl,
        rw (beq_ne d (temp_in d) (in_itself (str ".crei-0.tmp") d), beq_refl d, da) refl,
        put-file s (temp_in d) (holding [] 384) (rw ta refl) refl,
      )
create_temp-new_from d s Node.directory Node.directory da ta h = cc
create_temp-new_from d s Node.directory (holding c m) da ta h = cc
create_temp-new_from d s Node.absent b da ta h = cc
create_temp-new_from d s (holding c m) b da ta h = cc

pub write-SameBut_from :
    (t : FilePath) (c : Str) (s : Memory) (b : Node)
    → s.at t ≡ b
    → SameBut memory t s (write_at t c s b).1
write-SameBut_from t c s (holding old m) e = elim (Bool-cases (leb (length c) s.room)) [
  | inl fits ↦ rw fits (put-file s t (holding (old ++ c) m) (rw e refl) refl)
  | inr full ↦ rw full (λ q ne. refl)
]
write-SameBut_from t c s Node.absent e = λ q ne. refl
write-SameBut_from t c s Node.directory e = λ q ne. refl

pub file-put :
    (s : Memory) (t : FilePath) {f : Str × ℕ} (c : Str) (m : ℕ)
    → file s t ≡ some f
    → file (put t (holding c m) s) t ≡ some (c, m)
file-put s [] c m h = cc
file-put s (n ∷ d) c m h =
    rw
      (
        beq_ne d (n ∷ d) (in_itself n d),
        beq_refl (n ∷ d),
        (file-parent (s.at d) (s.at (n ∷ d)) h).0,
      )
      refl

pub file-at :
    (s : Memory) (p : FilePath) {f : Str × ℕ} → file s p ≡ some f → s.at p ≡ holding f.0 f.1
file-at s [] h = cc
file-at s (n ∷ d) h = (file-parent (s.at d) (s.at (n ∷ d)) h).1

pub file-put_absent : (s : Memory) (p : FilePath) → file (put p Node.absent s) p ≡ none
file-put_absent s [] = refl
file-put_absent s (n ∷ d) = rw (beq_refl (n ∷ d)) (inside_no_file _ Node.absent)

pub write-all_from :
    (t : FilePath) (c : Str) (s : Memory) {old : Str} {m : ℕ}
    → file s t ≡ some (old, m)
    → (memory.write t c s).0 ≡ ok tt
    → file (memory.write t c s).1 t ≡ some (old ++ c, m)
write-all_from t c s {old} {m} h was =
    let now : (write_at t c s (holding old m)).0 ≡ ok tt =
      subst (λ v. (write_at t c s v).0 ≡ ok tt) (file-at s t h) was in
    elim (Bool-cases (leb (length c) s.room)) [
      | inl fits ↦ rw (file-at s t h, fits) (file-put s t (old ++ c) m h)
      | inr full ↦ absurd (ground arith)
    ]
