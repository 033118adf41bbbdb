-- ===== src/Status/Rows/Each.antt =====
-- What holds of the rows that are classified one by one.
use creidhne.Base.{
  ◌≡◌, refl, Bool, true, not, ◌&&◌, ◌||◌, ◌==◌, Option, none, some, List, [], ◌∷◌, list_eq, nat_eq,
  is_nil, ltb, select, All, inl, inr, Bool-cases,
}
use creidhne.Base.Str.{Str, str}
use creidhne.Base.Dict
use creidhne.Base.Dict.{Dict, is_some}
use creidhne.State.Types.{Time, File}
use creidhne.State.Query.{file_record}
use creidhne.Systemd.Show.{UnitStatus}
use creidhne.Status.Types.{StatusRow, sub}
use creidhne.Status.Input.{StatusInput}
use creidhne.Status.Rows.{
  mark_stale, with_times, with_status, with_known, with_runtime, row_at, rows_at, all_paths, row_le,
  insert_row, sort_rows, unblocked_rows, desired_hash, loaded_word, runtime_word, disk_state,
}

-- The runtime columns leave the others as they are.
record SameFile (row row' : StatusRow) : Type 0 where
  pub disk : row'.disk ≡ row.disk
  pub blocked : row'.blocked ≡ row.blocked
  pub path : row'.path ≡ row.path

module _ (now : Time) (path : Str) where
  mark_stale-SameFile :
      (rec : Option File) (started : Time) (row : StatusRow)
      → SameFile row (mark_stale path rec started row)
  mark_stale-SameFile none started row = record { disk = refl; blocked = refl; path = refl }
  mark_stale-SameFile (some rec) started row = elim (Bool-cases (ltb started rec.applied_at)) [
    | inl h ↦ rw h (record { disk = refl; blocked = refl; path = refl })
    | inr h ↦ rw h (record { disk = refl; blocked = refl; path = refl })
  ]

  with_times-SameFile :
      (rec : Option File) (rt : UnitStatus) (row : StatusRow)
      → SameFile row (with_times now path rec rt row)
  unfolding with_times
  with_times-SameFile rec rt row =
      elim (Bool-cases (not (rt.active_enter == 0) && rt.active_state == str "active")) [
        | inl h ↦ rw h (
            let m =
              mark_stale-SameFile rec rt.active_enter
                (record row { since = sub now rt.active_enter }) in
            record { disk = m.disk; blocked = m.blocked; path = m.path })
        | inr h ↦ elim (Bool-cases (row.runtime == str "done" && not (rt.inactive_exit == 0))) [
          | inl k ↦ rw (h, k) (mark_stale-SameFile rec rt.inactive_exit row)
          | inr k ↦ rw (h, k) (record { disk = refl; blocked = refl; path = refl })
        ]
      ]

  with_status-SameFile :
      (rec : Option File) (rt : UnitStatus) (row : StatusRow)
      → SameFile row (with_status now path rec rt row)
  unfolding with_status
  with_status-SameFile rec rt row =
      elim (Bool-cases (not (is_nil rt.load_state) && not (rt.load_state == str "not-found"))) [
        | inl h ↦ rw h (
            let m =
              with_times-SameFile rec rt
                (record row { loaded = loaded_word rt; runtime = runtime_word path rt }) in
            record { disk = m.disk; blocked = m.blocked; path = m.path })
        | inr h ↦ rw h (record { disk = refl; blocked = refl; path = refl })
      ]

  with_known-SameFile :
      (rec : Option File) (known : Option UnitStatus) (row : StatusRow)
      → SameFile row (with_known now path rec known row)
  with_known-SameFile rec none row = record { disk = refl; blocked = refl; path = refl }
  with_known-SameFile rec (some rt) row = with_status-SameFile rec rt row

  with_runtime-SameFile :
      (rec : Option File) (runtime : Option (Dict Str UnitStatus)) (row : StatusRow)
      → SameFile row (with_runtime now path rec runtime row)
  with_runtime-SameFile rec none row = record { disk = refl; blocked = refl; path = refl }
  with_runtime-SameFile rec (some runtime) row = elim (Bool-cases (is_nil row.service)) [
    | inl h ↦ rw h (record { disk = refl; blocked = refl; path = refl })
    | inr h ↦ rw h (with_known-SameFile rec (Dict.lookup row.service runtime) row)
  ]

insert_row-All :
    (P : StatusRow → Type 0) (r : StatusRow) (rows : List StatusRow)
    → P r
    → All P rows
    → All P (insert_row r rows)
unfolding insert_row
insert_row-All P r [] h hs = (h, tt)
insert_row-All P r (t ∷ rows) h (k, hs) = elim (Bool-cases (row_le r t)) [
  | inl le ↦ rw le (h, (k, hs))
  | inr gt ↦ rw gt (k, insert_row-All P r rows h hs)
]

sort_rows-All :
    (P : StatusRow → Type 0) (rows : List StatusRow) → All P rows → All P (sort_rows rows)
unfolding sort_rows
sort_rows-All P [] hs = tt
sort_rows-All P (r ∷ rows) (h, hs) = insert_row-All P r (sort_rows rows) h (sort_rows-All P rows hs)

module _ (hash_bytes : Str → Str) (s : StatusInput) where
  -- There is a row for each path that is desired or on disk.
  abbrev pub is_shown : Str → Bool
  is_shown p = Dict.has p (desired_hash hash_bytes s) || Dict.has p s.disk

module _ (hash_bytes : Str → Str) (s : StatusInput) (P : StatusRow → Type 0) where
  rows_at-All :
      ((p : Str) → is_shown hash_bytes s p ≡ true → P (row_at hash_bytes s p))
      → (ps : List Str) → All P (rows_at hash_bytes s ps)
  unfolding rows_at select
  rows_at-All each [] = tt
  rows_at-All each (p ∷ ps) = elim (Bool-cases (is_shown hash_bytes s p)) [
    | inl h ↦ rw h (each p h, rows_at-All each ps)
    | inr h ↦ rw h (rows_at-All each ps)
  ]

  pub unblocked_rows-All :
      ((p : Str) → is_shown hash_bytes s p ≡ true → P (row_at hash_bytes s p))
      → All P (unblocked_rows hash_bytes s)
  unfolding unblocked_rows
  unblocked_rows-All each =
      sort_rows-All P (rows_at hash_bytes s (all_paths hash_bytes s))
        (rows_at-All each (all_paths hash_bytes s))

module _ (hash_bytes : Str → Str) (s : StatusInput) (p : Str) where
  pub row_at-unblocked : (row_at hash_bytes s p).blocked ≡ []
  unfolding row_at
  row_at-unblocked = (with_runtime-SameFile s.now p _ s.runtime _).blocked

  pub row_at-disk :
      (row_at hash_bytes s p).disk
      ≡ disk_state
          (is_some s.desired)
          (Dict.lookup p (desired_hash hash_bytes s))
          (is_some s.recorded)
          (file_record s.recorded p)
          (Dict.lookup p s.disk)
  unfolding row_at
  row_at-disk = (with_runtime-SameFile s.now p _ s.runtime _).disk

  pub row_at-path : (row_at hash_bytes s p).path ≡ p
  unfolding row_at
  row_at-path = (with_runtime-SameFile s.now p _ s.runtime _).path
