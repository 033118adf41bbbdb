-- ===== src/Status/Applied.antt =====
-- The status right after an apply.
use mathlib.Core.Path.{subst}
use creidhne.Base.{
  ◌≡◌, refl, ◌∙◌, sym, ap, Bool, true, false, ◌||◌, Option, none, some, List, [], ◌∷◌, list_eq,
  nat_eq, is_nil, contains, arith, All, map, inl, inr, Bool-cases, Option-cases, if◌then◌else◌,
}
use creidhne.Base.Str.{Str}
use creidhne.Base.Dict
use creidhne.Base.Dict.{Dict, is_some}
use creidhne.Eval.Data.{Quadlet}
use creidhne.State.Types.{Time, FileInput, File, State}
use creidhne.State.Build.{build}
use creidhne.State.Query.{file_record, Recorded, file_record-Recorded}
use creidhne.Systemd.Show.{UnitStatus}
use creidhne.Status.Label
use creidhne.Status.Types.{StatusRow}
use creidhne.Status.Input.{StatusInput, files_or_nil}
use creidhne.Status.Rows.{disk_state, desired_hashes, desired_hash, row_at, unblocked_rows}
use creidhne.Status.Rows.Each.{is_shown, unblocked_rows-All, row_at-disk}
use creidhne.Status.Rows.Rendered.{rendered, one_owner, Fresh, build_loop-Fresh, synced_when}
use creidhne.Status.Rows.Content.{content_in, hashed, content_in-rendered, desired_hashes-hashed}
use creidhne.Status.Rows.Shown.{paths_of, unblocked_rows-paths}
use creidhne.Status.Blocked.{
  failed_units, whole_project, block_row, is_down, annotate_with, annotate_blocked, classify_rows,
}

-- The state that an apply has just written, and a disk that holds what was desired.
pub record IsApplied (sha256 : Str → Str) (now : Time) (s : StatusInput) : Type 0 where
  pub desired : Dict Str (Dict Str FileInput)
  pub prev : Option State
  pub crei_version : Str
  pub quads : List Quadlet
  pub evaluated : s.desired ≡ some desired
  pub recorded : s.recorded ≡ some (build sha256 now crei_version prev quads desired)
  pub single : one_owner desired ≡ true
  pub written : (p : Str) → Dict.lookup p s.disk ≡ hashed sha256 (content_in p desired)

module _ (sha256 : Str → Str) (now : Time) (s : StatusInput) (i : IsApplied sha256 now s) where
  on_disk : (p : Str) → Dict.lookup p s.disk ≡ Dict.lookup p (desired_hashes sha256 i.desired [])
  on_disk p = i.written p ∙ sym (desired_hashes-hashed sha256 p i.desired i.single)

  hash_at : (p : Str) → Dict.lookup p (desired_hash sha256 s) ≡ Dict.lookup p s.disk
  unfolding desired_hash
  hash_at p =
      ap (λ o. Dict.lookup p (desired_hashes sha256 (files_or_nil o) [])) i.evaluated
      ∙ sym (on_disk p)

  none_shown : (p : Str) → Dict.lookup p s.disk ≡ none → is_shown sha256 s p ≡ true → ⊥
  unfolding Dict.has
  none_shown p gone shown = absurd (cc (ap is_some (hash_at p ∙ gone), ap is_some gone, shown))

  shown-hash : (p : Str) → is_shown sha256 s p ≡ true → (h : Str) × (Dict.lookup p s.disk ≡ some h)
  shown-hash p shown = elim (Option-cases (Dict.lookup p s.disk)) [
    | inl gone ↦ absurd (none_shown p gone shown)
    | inr known ↦ known
  ]

  abbrev built : State
  built = build sha256 now i.crei_version i.prev i.quads i.desired

  same_hash :
      (p h : Str)
      → Dict.lookup p s.disk ≡ some h
      → (o : Option File) → Recorded (Fresh sha256 now i.desired i.single) p o
      → Recorded (λ f. some h ≡ some f.sha256) p o
  same_hash p h e none r = tt
  same_hash p h e (some f) (path, k) = (
    path,
    sym e ∙ on_disk p ∙ ap (λ x. Dict.lookup x (desired_hashes sha256 i.desired [])) (sym path) ∙ k,
  )

  recorded-Fresh :
      (p h : Str)
      → Dict.lookup p s.disk ≡ some h
      → Recorded (λ f. some h ≡ some f.sha256) p (file_record s.recorded p)
  unfolding build
  recorded-Fresh p h e =
      subst (λ o. Recorded (λ f. some h ≡ some f.sha256) p (file_record o p)) (sym i.recorded)
        (same_hash p h e (file_record (some built) p) (
          file_record-Recorded (Fresh sha256 now i.desired i.single) p built
            (build_loop-Fresh sha256 now i.desired i.single i.prev i.quads [] tt)))

  row-synced : (p : Str) → is_shown sha256 s p ≡ true → (row_at sha256 s p).disk ≡ Label.synced
  row-synced p shown =
      let (h, e) = shown-hash p shown in
      let rec = file_record s.recorded p in
      row_at-disk sha256 s p
      ∙ ap (λ d. disk_state (is_some s.desired) d (is_some s.recorded) rec (Dict.lookup p s.disk))
          (hash_at p ∙ e)
      ∙ ap (λ d. disk_state (is_some s.desired) (some h) (is_some s.recorded) rec d) e
      ∙ ap (λ o. disk_state (is_some o) (some h) (is_some s.recorded) rec (some h)) i.evaluated
      ∙ ap (λ o. disk_state true (some h) (is_some o) rec (some h)) i.recorded
      ∙ synced_when h p rec (recorded-Fresh p h e)

  has_hash : (p : Str) → Dict.has p (desired_hash sha256 s) ≡ Dict.has p s.disk
  unfolding Dict.has
  has_hash p = ap is_some (hash_at p)

  has_disk : (p : Str) → Dict.has p s.disk ≡ rendered p (files_or_nil s.desired)
  unfolding Dict.has
  has_disk p =
      ap is_some (i.written p)
      ∙ content_in-rendered sha256 p i.desired
      ∙ ap (λ o. rendered p (files_or_nil o)) (sym i.evaluated)

  shown-rendered : (p : Str) → is_shown sha256 s p ≡ rendered p (files_or_nil s.desired)
  shown-rendered p = rw (has_hash p, has_disk p) (ground arith)

abbrev Synced : StatusRow → Type 0
Synced r = r.disk ≡ Label.synced

if_Synced :
    (b : Bool) (rows rows' : List StatusRow)
    → All Synced rows
    → All Synced rows'
    → All Synced (if b then rows else rows')
if_Synced true rows rows' h k = h
if_Synced false rows rows' h k = k

module _ (adj : Dict Str (List Str)) (failed : Dict Str Bool) where
  block_row-disk : (r : StatusRow) → (block_row adj failed r).disk ≡ r.disk
  unfolding block_row
  block_row-disk r = elim (Bool-cases (is_down r)) [
    | inl down ↦ rw down refl
    | inr running ↦ rw running refl
  ]

  block_row-path : (r : StatusRow) → (block_row adj failed r).path ≡ r.path
  unfolding block_row
  block_row-path r = elim (Bool-cases (is_down r)) [
    | inl down ↦ rw down refl
    | inr running ↦ rw running refl
  ]

  block_rows-Synced :
      (rows : List StatusRow) → All Synced rows → All Synced (map (block_row adj failed) rows)
  block_rows-Synced [] h = tt
  block_rows-Synced (r ∷ rows) (h, hs) = (block_row-disk r ∙ h, block_rows-Synced rows hs)

annotate_with-Synced :
    (runtime : Option (Dict Str UnitStatus)) (s : StatusInput) (rows : List StatusRow)
    → All Synced rows
    → All Synced (annotate_with runtime s rows)
annotate_with-Synced none s rows h = h
annotate_with-Synced (some runtime) s rows h =
    if_Synced (is_nil s.desired_units || is_nil (failed_units runtime (whole_project s) [])) rows _
      h (block_rows-Synced _ (failed_units runtime (whole_project s) []) rows h)

block_rows-paths :
    (adj : Dict Str (List Str)) (failed : Dict Str Bool) (rows : List StatusRow)
    → paths_of (map (block_row adj failed) rows) ≡ paths_of rows
block_rows-paths adj failed [] = refl
block_rows-paths adj failed (r ∷ rows) =
    rw (block_row-path adj failed r, block_rows-paths adj failed rows) refl

annotate_with-paths :
    (runtime : Option (Dict Str UnitStatus)) (s : StatusInput) (rows : List StatusRow)
    → paths_of (annotate_with runtime s rows) ≡ paths_of rows
annotate_with-paths none s rows = refl
annotate_with-paths (some runtime) s rows =
    if_paths (is_nil s.desired_units || is_nil (failed_units runtime (whole_project s) [])) rows _
      (block_rows-paths _ (failed_units runtime (whole_project s) []) rows)
  where
    if_paths :
        (b : Bool) (rows rows' : List StatusRow)
        → paths_of rows' ≡ paths_of rows
        → paths_of (if b then rows else rows') ≡ paths_of rows
    if_paths true rows rows' h = refl
    if_paths false rows rows' h = h

-- Right after an apply, with the hash of each rendered file on disk and the state of the apply, the
-- status has a row for a path exactly if some quadlet renders it, and every row is synced: where no
-- two quadlets render one path, whatever state the apply started from.
pub classify_rows-synced :
    (sha256 : Str → Str) (now : Time) (s : StatusInput)
    → IsApplied sha256 now s
    → ((p : Str)
        → contains (paths_of (classify_rows sha256 s)) p ≡ rendered p (files_or_nil s.desired))
      × All (λ r. r.disk ≡ Label.synced) (classify_rows sha256 s)
unfolding classify_rows annotate_blocked
classify_rows-synced sha256 now s i = (
  λ p.
      ap (λ ps. contains ps p) (annotate_with-paths s.runtime s (unblocked_rows sha256 s))
      ∙ unblocked_rows-paths sha256 s p
      ∙ shown-rendered sha256 now s i p,
  annotate_with-Synced s.runtime s (unblocked_rows sha256 s)
      (unblocked_rows-All sha256 s Synced (row-synced sha256 now s i)),
)
