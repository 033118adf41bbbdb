-- ===== src/Status/Input.antt =====
-- `statusInput`, `filterStatusInput`, `ownedPaths`, `serviceSet` and `unitMeta`. A nil map or state
-- is `none`.
pub mod Filter
use creidhne.Base.{
  ℕ, Bool, true, false, not, ◌==◌, Option, none, some, List, [], ◌∷◌, ◌++◌, Result, ok, err,
  list_eq, nat_eq, is_nil, select, contains, if◌then◌else◌,
}
use creidhne.Base.Str.{Str}
use creidhne.Base.Order.{sort, str_order}
use creidhne.Base.Dict
use creidhne.Base.Dict.{Dict}
use creidhne.Eval.Data.{UnitRecord, Quadlet}
use creidhne.State.Types.{Time, FileInput, UnitState, QuadletRecord, State}
use creidhne.State.Query.{file_owner}
use creidhne.Systemd.Show.{UnitStatus}

pub record StatusInput : Type 0 where
  pub desired : Option (Dict Str (Dict Str FileInput))
  pub desired_units : List Quadlet
  pub all_units : List Quadlet
  pub recorded : Option State
  pub disk : Dict Str Str
  pub runtime : Option (Dict Str UnitStatus)
  pub now : Time

-- `in.Recorded.Quadlets` where there is a state, nothing to range over where there is none
abbrev pub quadlets_of : Option State → Dict Str QuadletRecord
quadlets_of none = []
quadlets_of (some s) = s.quadlets

abbrev pub files_or_nil : Option (Dict Str (Dict Str FileInput)) → Dict Str (Dict Str FileInput)
files_or_nil none = []
files_or_nil (some m) = m

-- Entries of a set that is filled from the keys of a loop.
unfoldable pub mark_all : List Str → Dict Str Bool → Dict Str Bool
mark_all [] m = m
mark_all (k ∷ ks) m = mark_all ks (Dict.insert k true m)

abbrev names_of : List Quadlet → List Str
names_of [] = []
names_of (q ∷ qs) = q.name ∷ names_of qs

unfoldable pub known_quadlets : StatusInput → Dict Str Bool
known_quadlets s =
    mark_all (Dict.keys (quadlets_of s.recorded)) (mark_all (names_of s.desired_units) [])

pub data FilterError : Type 0 where
  unknown_quadlet : Str → List Str → FilterError

-- The loop over `only`: the selected names, or the first name that is not known.
unfoldable pub select_names :
    Dict Str Bool → List Str → Dict Str Bool → Result FilterError (Dict Str Bool)
select_names known [] sel = ok sel
select_names known (name ∷ only) sel =
    let rest = select_names known only (Dict.insert name true sel) in
    if Dict.has name known then rest else err (unknown_quadlet name (sort (Dict.keys known)))

-- The entries of a map whose key is selected.
unfoldable pub restrict : {V : Type 0} → Dict Str Bool → Dict Str V → Dict Str V
restrict sel [] = []
restrict sel ((k, v) ∷ m) =
    let rest = restrict sel m in if Dict.has k sel then (k, v) ∷ rest else rest

abbrev pub restrict_desired :
    Dict Str Bool → Option (Dict Str (Dict Str FileInput)) → Option (Dict Str (Dict Str FileInput))
restrict_desired sel none = none
restrict_desired sel (some m) = some (restrict sel m)

abbrev pub restrict_state : Dict Str Bool → Option State → Option State
restrict_state sel none = none
restrict_state sel (some s) = some (record s { quadlets = restrict sel s.quadlets })

unfoldable pub narrow : StatusInput → Dict Str Bool → StatusInput
narrow s sel = record {
  desired = restrict_desired sel s.desired;
  desired_units = select (λ q. Dict.has q.name sel) s.desired_units;
  all_units = s.desired_units;
  recorded = restrict_state sel s.recorded;
  disk = s.disk;
  runtime = s.runtime;
  now = s.now;
}

abbrev pub narrow_by :
    StatusInput → Result FilterError (Dict Str Bool) → Result FilterError StatusInput
narrow_by s (err e) = err e
narrow_by s (ok sel) = ok (narrow s sel)

-- On an error the source leaves the input as it was.
unfoldable pub filter_status_input : StatusInput → List Str → Result FilterError StatusInput
filter_status_input s only = narrow_by s (select_names (known_quadlets s) only [])

unfoldable pub desired_paths : Dict Str (Dict Str FileInput) → Dict Str Bool → Dict Str Bool
desired_paths [] owned = owned
desired_paths ((name, files) ∷ m) owned = desired_paths m (mark_all (Dict.keys files) owned)

unfoldable pub owned_paths : StatusInput → Dict Str Bool
owned_paths s =
    mark_all (Dict.keys (file_owner s.recorded)) (desired_paths (files_or_nil s.desired) [])

unfoldable pub unit_services : List UnitRecord → Dict Str Bool → Dict Str Bool
unit_services [] seen = seen
unit_services (u ∷ us) seen =
    unit_services us (if is_nil u.service then seen else Dict.insert u.service true seen)

unfoldable pub quadlet_services : List Quadlet → Dict Str Bool → Dict Str Bool
quadlet_services [] seen = seen
quadlet_services (q ∷ qs) seen = quadlet_services qs (unit_services q.units seen)

unfoldable pub state_services : List UnitState → Dict Str Bool → Dict Str Bool
state_services [] seen = seen
state_services (u ∷ us) seen =
    state_services us (if is_nil u.service then seen else Dict.insert u.service true seen)

unfoldable pub recorded_services : Dict Str QuadletRecord → Dict Str Bool → Dict Str Bool
recorded_services [] seen = seen
recorded_services ((name, q) ∷ m) seen = recorded_services m (state_services q.units seen)

unfoldable pub service_set : StatusInput → List Str
service_set s = sort (
    Dict.keys (
      recorded_services (quadlets_of s.recorded)
        (quadlet_services (s.desired_units ++ s.all_units) [])))

-- A quadlet, a service, and whether the path is a unit file.
abbrev pub UnitMeta : Type 0
UnitMeta = Str × Str × Bool

unfoldable pub desired_unit : Str → Str → List UnitRecord → Option UnitMeta
desired_unit path name [] = none
desired_unit path name (u ∷ us) =
    if u.filename == path then some (name, u.service, true) else desired_unit path name us

-- The first result of two, where the second loop runs only if the first finds nothing.
abbrev pub or_else : {A : Type 0} → Option A → Option A → Option A
or_else none next = next
or_else (some a) next = some a

unfoldable pub find_desired : Str → List Quadlet → Option UnitMeta
find_desired path [] = none
find_desired path (q ∷ qs) = or_else (desired_unit path q.name q.units) (find_desired path qs)

unfoldable pub recorded_unit : Str → Str → List UnitState → Option UnitMeta
recorded_unit path name [] = none
recorded_unit path name (u ∷ us) =
    if u.filename == path then some (name, u.service, true) else recorded_unit path name us

unfoldable pub find_recorded : Str → Dict Str QuadletRecord → Option UnitMeta
find_recorded path [] = none
find_recorded path ((name, q) ∷ m) =
    or_else (recorded_unit path name q.units) (find_recorded path m)

unfoldable pub find_artifact : Str → Dict Str (Dict Str FileInput) → Option UnitMeta
find_artifact path [] = none
find_artifact path ((name, files) ∷ m) =
    if Dict.has path files then some (name, [], false) else find_artifact path m

abbrev pub owned_by : Option Str → UnitMeta
owned_by none = ([], [], false)
owned_by (some owner) = (owner, [], false)

abbrev pub meta_or : Option UnitMeta → UnitMeta → UnitMeta
meta_or none next = next
meta_or (some m) next = m

unfoldable pub unit_meta : StatusInput → Str → UnitMeta
unit_meta s path = meta_or (find_desired path s.desired_units) (
    meta_or (find_recorded path (quadlets_of s.recorded)) (
      meta_or (find_artifact path (files_or_nil s.desired))
        (owned_by (Dict.lookup path (file_owner s.recorded)))))
