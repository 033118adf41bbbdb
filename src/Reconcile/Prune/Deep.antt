-- ===== src/Reconcile/Prune/Deep.antt =====
-- The walk of `PruneEmptyDirs` ends: fuel beyond the depth of the tree changes nothing.
use creidhne.Base.{
  ℕ, zero, suc, ◌≡◌, refl, ◌∙◌, ap, ◌<◌, true, List, [], ◌∷◌, Result, ok, err, All, inl, inr,
  Bool-cases, list_eq, nat_eq, arith,
}
use creidhne.Base.Str.{Str}
use creidhne.Base.Paths.{FilePath}
use creidhne.Reconcile.Disk.{Errno, FileKind, FileInfo, is_dir}
use creidhne.Reconcile.Mode.{PlanError, lift_os}
use creidhne.Reconcile.Os.{Os, Trail, Action, ◌>>=◌, ◌>>◌, answer}
use creidhne.Reconcile.Prune.{read_dir, walk_entries, leave, walk, prune_from, prune_empty_dirs}

-- Each directory that is listed in a directory has a lower rank.
abbrev pub Shrinks : {S : Type 0} → Os S → (FilePath → ℕ) → Type 0
Shrinks {S} sys rank =
    (s : S) (path : FilePath) (entries : List (Str × FileKind))
    → (sys.view s).read_dir path ≡ ok entries
    → All (λ e. is_dir e.1 ≡ true → rank (e.0 ∷ path) < rank path) entries

module _ {S : Type 0} where
  after_cong :
      {A B : Type 0} (k k' : A → Action S B) (r : Result PlanError A) (w : Trail S)
      → ((a : A) → k a w ≡ k' a w)
      → ((λ v. (r, w)) >>= k) w ≡ ((λ v. (r, w)) >>= k') w
  after_cong k k' (ok a) w h = h a
  after_cong k k' (err e) w h = refl

  pub then_cong :
      (m m' k k' : Action S (Unit {0})) (w : Trail S)
      → m w ≡ m' w
      → ((v : Trail S) → k v ≡ k' v)
      → (m >> k) w ≡ (m' >> k') w
  then_cong m m' k k' w h later =
      after_cong (λ a. k) (λ a. k') (m w).0 (m w).1 (λ a. later (m w).1)
      ∙ ap (λ out. ((λ v. out) >> k') w) h

module _ {S : Type 0} (sys : Os S) (rank : FilePath → ℕ) (shrinks : Shrinks sys rank) where
  walk_entries_cong :
      (step step' : FilePath → Action S (Unit {0})) (path : FilePath)
      (entries : List (Str × FileKind)) (w : Trail S)
      → ((p : FilePath) (v : Trail S) → rank p < rank path → step p v ≡ step' p v)
      → All (λ e. is_dir e.1 ≡ true → rank (e.0 ∷ path) < rank path) entries
      → walk_entries sys step path entries w ≡ walk_entries sys step' path entries w
  unfolding walk_entries
  walk_entries_cong step step' path [] w same low = refl
  walk_entries_cong step step' path ((name, kind) ∷ entries) w same (low, lows) =
      elim (Bool-cases (is_dir kind)) [
        | inl d ↦ rw d (
            then_cong (step (name ∷ path)) (step' (name ∷ path)) _ _ w
              (same (name ∷ path) w (low d))
              (λ v. walk_entries_cong step step' path entries v same lows))
        | inr d ↦ rw d (walk_entries_cong step step' path entries w same lows)
      ]

  walk_from_cong :
      (dir path : FilePath) (step step' : FilePath → Action S (Unit {0}))
      (r : Result Errno (List (Str × FileKind))) (w : Trail S)
      → (sys.view w.now).read_dir path ≡ r
      → ((p : FilePath) (v : Trail S) → rank p < rank path → step p v ≡ step' p v)
      → ((answer (lift_os r) >>= λ entries.
            walk_entries sys step path entries >> leave sys dir path)
          w)
        ≡ ((answer (lift_os r) >>= λ entries.
              walk_entries sys step' path entries >> leave sys dir path)
            w)
  walk_from_cong dir path step step' (ok entries) w e same =
      then_cong (walk_entries sys step path entries) (walk_entries sys step' path entries)
        (leave sys dir path) (leave sys dir path) w
        (walk_entries_cong step step' path entries w same (shrinks w.now path entries e))
        (λ v. refl)
  walk_from_cong dir path step step' (err why) w e same = refl

  walk-enough :
      (fuel fuel' : ℕ) (dir path : FilePath) (w : Trail S)
      → rank path < fuel
      → rank path < fuel'
      → walk sys fuel dir path w ≡ walk sys fuel' dir path w
  unfolding walk read_dir
  walk-enough zero fuel' dir path w h k = absurd (omega arith)
  walk-enough (suc fuel) zero dir path w h k = absurd (omega arith)
  walk-enough (suc fuel) (suc fuel') dir path w h k =
      walk_from_cong dir path (walk sys fuel dir) (walk sys fuel' dir)
        ((sys.view w.now).read_dir path) w refl
        (λ p v low. walk-enough fuel fuel' dir p v (omega arith) (omega arith))

  prune_from-enough :
      (fuel fuel' : ℕ) (dir : FilePath) (r : Result Errno FileInfo) (w : Trail S)
      → rank dir < fuel
      → rank dir < fuel'
      → prune_from sys fuel dir r w ≡ prune_from sys fuel' dir r w
  unfolding prune_from
  prune_from-enough fuel fuel' dir (ok info) w h k = elim (Bool-cases (is_dir info.kind)) [
    | inl d ↦ rw d (walk-enough fuel fuel' dir dir w h k)
    | inr d ↦ rw d refl
  ]
  prune_from-enough fuel fuel' dir (err Errno.not_exist) w h k = refl
  prune_from-enough fuel fuel' dir (err Errno.not_dir) w h k = refl
  prune_from-enough fuel fuel' dir (err (Errno.other why)) w h k = refl

  -- The recursion of `PruneEmptyDirs` is bounded by the depth of the tree: if there is a rank that is
  -- lower at each directory that is ever listed in a directory, any two amounts of fuel above the
  -- rank of the pruned directory give the same run, so that neither of them cuts it.
  pub prune_empty_dirs-enough :
      (fuel fuel' : ℕ) (dir : FilePath) (w : Trail S)
      → rank dir < fuel
      → rank dir < fuel'
      → prune_empty_dirs sys fuel dir w ≡ prune_empty_dirs sys fuel' dir w
  unfolding prune_empty_dirs
  prune_empty_dirs-enough fuel fuel' dir w h k =
      prune_from-enough fuel fuel' dir ((sys.view w.now).stat dir) w h k
