-- ===== src/Status/Rows.antt =====
-- `classifyRows`, `inactiveWord`, `rowIsProblem`, `filterProblems` and `statusClean`. The hash of
-- the standard library is a parameter.
pub mod Each
pub mod Shown
pub mod Rendered
pub mod Content
use creidhne.Base.{
  ℕ, Bool, true, false, not, ◌&&◌, ◌||◌, ◌==◌, Option, none, some, List, [], ◌∷◌, list_eq, nat_eq,
  is_nil, ltb, select, all, contains, map, if◌then◌else◌,
}
use creidhne.Base.Str.{Str, str, ext, trim_prefix, has_prefix}
use creidhne.Base.Order.{str_le}
use creidhne.Base.Dict
use creidhne.Base.Dict.{Dict, is_some}
use creidhne.State.Types.{Time, FileInput, File, QuadletRecord}
use creidhne.State.Query.{file_record}
use creidhne.Systemd.Show.{UnitStatus, is_running}
use creidhne.Status.Label
use creidhne.Status.Types.{StatusRow, sub}
use creidhne.Status.Stale.{stale_note}
use creidhne.Status.Input.{StatusInput, quadlets_of, files_or_nil, mark_all, unit_meta}

-- The hash that a lookup gives, the empty text for a missing key.
abbrev pub hash_or : Option Str → Str
hash_or none = []
hash_or (some h) = h

abbrev pub sha_or : Option File → Str
sha_or none = []
sha_or (some rec) = rec.sha256

-- The switch: whether there are desired files at all, the hash of the desired content, whether
-- there is a state, the record, and the hash on disk.
unfoldable pub disk_state : Bool → Option Str → Bool → Option File → Option Str → Str
disk_state evaluated desired has_state rec on_disk =
    let in_desired = evaluated && is_some desired in
    let moved = is_some rec && not (sha_or rec == hash_or on_disk) in
    if in_desired && (is_some on_disk && hash_or desired == hash_or on_disk)
    then if moved then Label.tampered else Label.synced
    else if in_desired && is_some on_disk
    then if moved then Label.tampered else Label.pending
    else if in_desired
    then Label.missing
    else if not evaluated && (is_some rec && is_some on_disk)
    then if not (sha_or rec == hash_or on_disk) then Label.tampered else Label.applied
    else if not evaluated && is_some rec
    then Label.missing
    else if is_some on_disk && is_some rec
    then Label.orphan
    else if is_some on_disk && has_state
    then Label.foreign
    else if is_some on_disk && not evaluated
    then Label.unknown
    else Label.orphan

unfoldable pub inactive_word : Str → UnitStatus → Str
inactive_word path rt =
    let kind = trim_prefix (ext path) (str ".") in
    if kind == str "build"
      && (not (rt.inactive_exit == 0) && (rt.result == str "success" || is_nil rt.result))
    then str "done"
    else if contains (str "container" ∷ str "pod" ∷ str "kube" ∷ []) kind
    then if rt.inactive_exit == 0 then str "not started" else str "stopped"
    else str "inactive"

unfoldable pub loaded_word : UnitStatus → Str
loaded_word rt =
    if rt.load_state == str "not-found"
    then str "not loaded"
    else if rt.need_daemon_reload
    then str "reload needed"
    else if not (is_nil rt.load_state)
    then str "ok"
    else []

unfoldable pub runtime_word : Str → UnitStatus → Str
runtime_word path rt =
    if rt.active_state == str "inactive"
    then inactive_word path rt
    else if is_running rt
    then str "running"
    else rt.active_state

-- A record that was applied after the instant marks the row.
abbrev pub mark_stale : Str → Option File → Time → StatusRow → StatusRow
mark_stale path none started row = row
mark_stale path (some rec) started row =
    if ltb started rec.applied_at
    then record row { stale = true; stale_note = stale_note path rec started }
    else row

unfoldable pub with_times : Time → Str → Option File → UnitStatus → StatusRow → StatusRow
with_times now path rec rt row =
    if not (rt.active_enter == 0) && rt.active_state == str "active"
    then mark_stale path rec rt.active_enter (record row { since = sub now rt.active_enter })
    else if row.runtime == str "done" && not (rt.inactive_exit == 0)
    then mark_stale path rec rt.inactive_exit row
    else row

unfoldable pub with_status : Time → Str → Option File → UnitStatus → StatusRow → StatusRow
with_status now path rec rt row =
    let row' = record row { loaded = loaded_word rt } in
    if not (is_nil rt.load_state) && not (rt.load_state == str "not-found")
    then with_times now path rec rt (record row' { runtime = runtime_word path rt })
    else row'

abbrev pub with_known : Time → Str → Option File → Option UnitStatus → StatusRow → StatusRow
with_known now path rec none row = row
with_known now path rec (some rt) row = with_status now path rec rt row

abbrev pub with_runtime :
    Time → Str → Option File → Option (Dict Str UnitStatus) → StatusRow → StatusRow
with_runtime now path rec none row = row
with_runtime now path rec (some runtime) row =
    if is_nil row.service
    then row
    else with_known now path rec (Dict.lookup row.service runtime) row

module _ (hash_bytes : Str → Str) where
  -- The hashes of the desired contents, in the order of the loop: the last quadlet wins.
  unfoldable pub hash_files : Dict Str FileInput → Dict Str Str → Dict Str Str
  hash_files [] m = m
  hash_files ((p, f) ∷ files) m = hash_files files (Dict.insert p (hash_bytes f.content) m)

  unfoldable pub desired_hashes : Dict Str (Dict Str FileInput) → Dict Str Str → Dict Str Str
  desired_hashes [] m = m
  desired_hashes ((name, files) ∷ qs) m = desired_hashes qs (hash_files files m)

unfoldable pub file_paths : List File → Dict Str Bool → Dict Str Bool
file_paths [] m = m
file_paths (f ∷ fs) m = file_paths fs (Dict.insert f.path true m)

unfoldable pub recorded_paths : Dict Str QuadletRecord → Dict Str Bool → Dict Str Bool
recorded_paths [] m = m
recorded_paths ((name, q) ∷ qs) m = recorded_paths qs (file_paths q.files m)

module _ (hash_bytes : Str → Str) (s : StatusInput) where
  unfoldable pub desired_hash : Dict Str Str
  desired_hash = desired_hashes hash_bytes (files_or_nil s.desired) []

  -- `paths`; the keys of `desiredHash` are those of the desired files.
  unfoldable pub all_paths : List Str
  all_paths = Dict.keys (
      mark_all (Dict.keys s.disk)
        (recorded_paths (quadlets_of s.recorded) (mark_all (Dict.keys desired_hash) [])))

  unfoldable pub row_at : Str → StatusRow
  row_at path =
      let rec = file_record s.recorded path in
      let (quadlet, service, is_unit) = unit_meta s path in
      with_runtime s.now path rec s.runtime (record {
        quadlet = quadlet;
        path = path;
        service = service;
        disk =
            disk_state (is_some s.desired) (Dict.lookup path desired_hash) (is_some s.recorded) rec
              (Dict.lookup path s.disk);
        loaded = [];
        runtime = [];
        since = (false, 0);
        stale = false;
        stale_note = [];
        blocked = [];
        artifact = not is_unit;
      })

  -- The loop over the paths; a path that is neither desired nor on disk gives no row.
  unfoldable pub rows_at : List Str → List StatusRow
  rows_at paths = map row_at (select (λ p. Dict.has p desired_hash || Dict.has p s.disk) paths)

-- The order of the rows: unowned ones last, then by quadlet, units before artifacts, by path. No
-- two rows have one path.
unfoldable pub row_le : StatusRow → StatusRow → Bool
row_le r t =
    if not (is_nil r.quadlet) && is_nil t.quadlet
    then true
    else if is_nil r.quadlet && not (is_nil t.quadlet)
    then false
    else if not (r.quadlet == t.quadlet)
    then str_le r.quadlet t.quadlet
    else if not r.artifact && t.artifact
    then true
    else if r.artifact && not t.artifact
    then false
    else str_le r.path t.path

unfoldable pub insert_row : StatusRow → List StatusRow → List StatusRow
insert_row r [] = r ∷ []
insert_row r (t ∷ rows) = if row_le r t then r ∷ t ∷ rows else t ∷ insert_row r rows

unfoldable pub sort_rows : List StatusRow → List StatusRow
sort_rows [] = []
sort_rows (r ∷ rows) = insert_row r (sort_rows rows)

-- `classifyRows` before `annotateBlocked`.
unfoldable pub unblocked_rows : (Str → Str) → StatusInput → List StatusRow
unblocked_rows hash_bytes s = sort_rows (rows_at hash_bytes s (all_paths hash_bytes s))

unfoldable pub row_is_problem : StatusRow → Bool
row_is_problem r =
    if not (r.disk == Label.synced) && not (r.disk == Label.applied)
    then true
    else if r.loaded == str "reload needed" || r.loaded == str "not loaded"
    then true
    else r.runtime == str "failed"
      || (r.runtime == str "activating" || (r.stale || not (is_nil r.blocked)))

unfoldable pub filter_problems : List StatusRow → List StatusRow
filter_problems rows = select row_is_problem rows

unfoldable pub row_is_clean : StatusRow → Bool
row_is_clean r =
    if not (r.disk == Label.synced) && not (r.disk == Label.applied)
    then false
    else if r.loaded == str "reload needed" || r.loaded == str "not loaded"
    then false
    else if r.runtime == str "failed" || r.stale
    then false
    else true

unfoldable pub status_clean : List StatusRow → List Str → Bool
status_clean rows notes =
    if all (λ n. has_prefix n (str "runtime unavailable")) notes
    then all row_is_clean rows
    else false
