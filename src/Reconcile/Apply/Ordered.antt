-- ===== src/Reconcile/Apply/Ordered.antt =====
-- What `crei apply` runs, and in which order.
use creidhne.Base.{ℕ, ◌≡◌, refl, Bool, true, false, List, [], ◌∷◌, select, if◌then◌else◌}
use creidhne.Base.Str.{str}
use creidhne.Base.Paths.{FilePath, join_name}
use creidhne.Reconcile.Plan.{ActionKind, Change}
use creidhne.Reconcile.Os.{Os, Trail, Action, ◌>>◌, pure}
use creidhne.Reconcile.Write.{remove_file, write_file}
use creidhne.Reconcile.Prune.{prune_empty_dirs}
use creidhne.Reconcile.Prune.Deep.{then_cong}
use creidhne.Reconcile.Apply.{apply_change, apply_pass, apply_changes}

abbrev pub is_removal : ActionKind → Bool
is_removal ActionKind.remove = true
is_removal _ = false

abbrev pub is_write : ActionKind → Bool
is_write ActionKind.add = true
is_write ActionKind.change = true
is_write _ = false

module _ {S : Type 0} (sys : Os S) where
  -- One after the other, up to the first that fails.
  unfoldable pub in_order : {A : Type 0} → (A → Action S (Unit {0})) → List A → Action S (Unit {0})
  in_order run [] = pure tt
  in_order run (x ∷ xs) = run x >> in_order run xs

  abbrev pub removing : FilePath → Change → Action S (Unit {0})
  removing dir c = remove_file sys (join_name dir c.name)

  abbrev pub writing : FilePath → Change → Action S (Unit {0})
  writing dir c = write_file sys (join_name dir c.name) c.content c.mode

  removal_step :
      (dir : FilePath) (c : Change) (k : ActionKind) (m : Action S (Unit {0})) (cs : List Change)
      (w : Trail S)
      → ((v : Trail S) → m v ≡ in_order (removing dir) cs v)
      → (apply_change sys true dir k c >> m) w
        ≡ in_order (removing dir) (if is_removal k then c ∷ cs else cs) w
  unfolding apply_change in_order
  removal_step dir c ActionKind.add m cs w h = h w
  removal_step dir c ActionKind.change m cs w h = h w
  removal_step dir c ActionKind.unchanged m cs w h = h w
  removal_step dir c ActionKind.remove m cs w h =
      then_cong (removing dir c) (removing dir c) m (in_order (removing dir) cs) w refl h

  write_step :
      (dir : FilePath) (c : Change) (k : ActionKind) (m : Action S (Unit {0})) (cs : List Change)
      (w : Trail S)
      → ((v : Trail S) → m v ≡ in_order (writing dir) cs v)
      → (apply_change sys false dir k c >> m) w
        ≡ in_order (writing dir) (if is_write k then c ∷ cs else cs) w
  unfolding apply_change in_order
  write_step dir c ActionKind.add m cs w h =
      then_cong (writing dir c) (writing dir c) m (in_order (writing dir) cs) w refl h
  write_step dir c ActionKind.change m cs w h =
      then_cong (writing dir c) (writing dir c) m (in_order (writing dir) cs) w refl h
  write_step dir c ActionKind.unchanged m cs w h = h w
  write_step dir c ActionKind.remove m cs w h = h w

  apply_pass-removals :
      (dir : FilePath) (cs : List Change) (w : Trail S)
      → apply_pass sys true dir cs w
        ≡ in_order (removing dir) (select (λ c. is_removal c.action) cs) w
  unfolding apply_pass apply_change in_order select
  apply_pass-removals dir [] w = refl
  apply_pass-removals dir (c ∷ cs) w =
      removal_step dir c c.action (apply_pass sys true dir cs)
        (select (λ d. is_removal d.action) cs) w (apply_pass-removals dir cs)

  apply_pass-writes :
      (dir : FilePath) (cs : List Change) (w : Trail S)
      → apply_pass sys false dir cs w
        ≡ in_order (writing dir) (select (λ c. is_write c.action) cs) w
  unfolding apply_pass apply_change in_order select
  apply_pass-writes dir [] w = refl
  apply_pass-writes dir (c ∷ cs) w =
      write_step dir c c.action (apply_pass sys false dir cs) (select (λ d. is_write d.action) cs) w
        (apply_pass-writes dir cs)

  -- Applying a plan runs all of its removals in the order of the plan, then all of its additions and
  -- changes in that order, then the removal of the empty directories of the images, and stops at the
  -- first of these that fails: no removal follows a write.
  pub apply_changes-in_order :
      (fuel : ℕ) (dir : FilePath) (cs : List Change) (w : Trail S)
      → apply_changes sys fuel dir cs w ≡ (
          (in_order (removing dir) (select (λ c. is_removal c.action) cs)
              >> (in_order (writing dir) (select (λ c. is_write c.action) cs)
                  >> prune_empty_dirs sys fuel (str "images" ∷ dir)))
            w)
  unfolding apply_changes
  apply_changes-in_order fuel dir cs w =
      let prune = prune_empty_dirs sys fuel (str "images" ∷ dir) in
      let removals = in_order (removing dir) (select (λ c. is_removal c.action) cs) in
      let writes = in_order (writing dir) (select (λ c. is_write c.action) cs) in
      then_cong (apply_pass sys true dir cs) removals (apply_pass sys false dir cs >> prune)
        (writes >> prune) w (apply_pass-removals dir cs w)
        (λ v.
          then_cong (apply_pass sys false dir cs) writes prune prune v (apply_pass-writes dir cs v)
            (λ u. refl))
