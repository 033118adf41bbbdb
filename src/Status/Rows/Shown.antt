-- ===== src/Status/Rows/Shown.antt =====
-- Which paths have a row.
use creidhne.Base.{
  ◌≡◌, refl, ◌∙◌, ap, Bool, true, ◌&&◌, ◌||◌, ◌==◌, List, [], ◌∷◌, list_eq, nat_eq, contains,
  select, beq→eq, inl, inr, arith, Bool-cases,
}
use creidhne.Base.Str.{Str}
use creidhne.Base.Dict
use creidhne.Base.Dict.{Dict}
use creidhne.State.Types.{File, QuadletRecord}
use creidhne.Status.Types.{StatusRow}
use creidhne.Status.Input.{StatusInput, quadlets_of, mark_all}
use creidhne.Status.Input.Filter.{mark_all-has}
use creidhne.Status.Rows.{
  file_paths, recorded_paths, desired_hash, all_paths, rows_at, row_le, insert_row, sort_rows,
  unblocked_rows,
}
use creidhne.Status.Rows.Each.{is_shown, row_at-path}

abbrev pub paths_of : List StatusRow → List Str
paths_of [] = []
paths_of (r ∷ rows) = r.path ∷ paths_of rows

insert_row-paths :
    (p : Str) (r : StatusRow) (rows : List StatusRow)
    → contains (paths_of (insert_row r rows)) p ≡ (p == r.path || contains (paths_of rows) p)
unfolding insert_row contains
insert_row-paths p r [] = refl
insert_row-paths p r (t ∷ rows) = elim (Bool-cases (row_le r t)) [
  | inl le ↦ rw le refl
  | inr gt ↦ rw (gt, insert_row-paths p r rows) (ground arith)
]

sort_rows-paths :
    (p : Str) (rows : List StatusRow)
    → contains (paths_of (sort_rows rows)) p ≡ contains (paths_of rows) p
unfolding sort_rows contains
sort_rows-paths p [] = refl
sort_rows-paths p (r ∷ rows) =
    insert_row-paths p r (sort_rows rows) ∙ ap (λ b. p == r.path || b) (sort_rows-paths p rows)

file_paths-has :
    (fs : List File) (m : Dict Str Bool) (p : Str)
    → Dict.has p m ≡ true
    → Dict.has p (file_paths fs m) ≡ true
unfolding file_paths
file_paths-has [] m p h = h
file_paths-has (f ∷ fs) m p h =
    file_paths-has fs (Dict.insert f.path true m) p
      (ground (arith, Dict.has-insert p f.path true m, h))

recorded_paths-has :
    (qs : Dict Str QuadletRecord) (m : Dict Str Bool) (p : Str)
    → Dict.has p m ≡ true
    → Dict.has p (recorded_paths qs m) ≡ true
unfolding recorded_paths
recorded_paths-has [] m p h = h
recorded_paths-has ((name, q) ∷ qs) m p h =
    recorded_paths-has qs (file_paths q.files m) p (file_paths-has q.files m p h)

module _ (hash_bytes : Str → Str) (s : StatusInput) where
  shown-listed :
      (p : Str) → is_shown hash_bytes s p ≡ true → contains (all_paths hash_bytes s) p ≡ true
  unfolding all_paths
  shown-listed p shown =
      let desired = mark_all (Dict.keys (desired_hash hash_bytes s)) [] in
      let recorded = recorded_paths (quadlets_of s.recorded) desired in
      let first = mark_all-has (Dict.keys (desired_hash hash_bytes s)) [] p in
      let keys = Dict.has-keys p (desired_hash hash_bytes s) in
      let kept = recorded_paths-has (quadlets_of s.recorded) desired p in
      let last = mark_all-has (Dict.keys s.disk) recorded p in
      let disk = Dict.has-keys p s.disk in
      Dict.has-keys p (mark_all (Dict.keys s.disk) recorded)
      ∙ ground (arith, shown, first, keys, kept, last, disk)

  rows_at-paths :
      (p : Str) (ps : List Str)
      → contains (paths_of (rows_at hash_bytes s ps)) p ≡ (contains ps p && is_shown hash_bytes s p)
  unfolding rows_at select contains
  rows_at-paths p [] = refl
  rows_at-paths p (q ∷ ps) =
      let same = (λ (k : (p == q) ≡ true). ap (is_shown hash_bytes s) (beq→eq {a = p} {b = q} k)) in
      elim (Bool-cases (is_shown hash_bytes s q)) [
        | inl h ↦ rw (h, row_at-path hash_bytes s q, rows_at-paths p ps) (ground (arith, same, h))
        | inr h ↦ rw (h, rows_at-paths p ps) (ground (arith, same, h))
      ]

  -- There is a row for a path exactly if it is desired or on disk.
  pub unblocked_rows-paths :
      (p : Str) → contains (paths_of (unblocked_rows hash_bytes s)) p ≡ is_shown hash_bytes s p
  unfolding unblocked_rows
  unblocked_rows-paths p =
      sort_rows-paths p (rows_at hash_bytes s (all_paths hash_bytes s))
      ∙ rows_at-paths p (all_paths hash_bytes s)
      ∙ ground (arith, shown-listed p)
