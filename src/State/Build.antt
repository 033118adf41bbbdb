-- ===== src/State/Build.antt =====
-- `Build`: the new state, from the evaluated quadlets, their rendered files and the last state.
-- `sha256` is `HashBytes`, whose hash function belongs to the standard library.
use creidhne.Base.{
  ◌-◌, Option, none, some, List, [], ◌∷◌, ◌++◌, map, ◌==◌, list_eq, nat_eq, contains, length, drop,
  is_nil, if◌then◌else◌,
}
use creidhne.Base.Str.{Str}
use creidhne.Base.Order.{sort, str_order}
use creidhne.Base.Dict
use creidhne.Base.Dict.{Dict}
use creidhne.Eval.Data.{UnitRecord, Quadlet}
use creidhne.State.Types.{
  Time, UnitState, Revision, File, QuadletRecord, State, FileInput, history_cap, schema_version,
}

unfoldable pub unit_state : UnitRecord → UnitState
unit_state u = record {
  kind = u.kind;
  stem = u.stem;
  filename = u.filename;
  service = u.service;
  unit_data = u.unit_data;
}

-- The history of a changed file: a predecessor with no recorded content leaves nothing to retain.
unfoldable pub superseded : File → List Revision
superseded pf =
    if is_nil pf.content
    then pf.history
    else pf.history
      ++ (record { sha256 = pf.sha256; applied_at = pf.applied_at; content = pf.content } ∷ [])

-- `f.History = f.History[n:]` for the `n` that are too many
unfoldable pub cap_history : List Revision → List Revision
cap_history history = drop (length history - history_cap) history

-- A record carried on from its predecessor.
unfoldable pub carry : File → File → File
carry pf f =
    if pf.sha256 == f.sha256
    then record f { applied_at = pf.applied_at; history = pf.history }
    else record f { history = cap_history (superseded pf) }

unfoldable pub carry_from : Option File → File → File
carry_from none f = f
carry_from (some pf) f = carry pf f

-- `filesByQuadlet[q.Name][p]`
unfoldable pub input_at : Dict Str FileInput → Str → FileInput
input_at files path = elim (Dict.lookup path files) [
  | none ↦ record { content = []; mode = [] }
  | some file_in ↦ file_in
]

unfoldable pub index_files : Dict Str File → List File → Dict Str File
index_files m [] = m
index_files m (f ∷ fs) = index_files (Dict.insert f.path f m) fs

-- The files of the quadlet in the last state, by path; a nil map is an empty one.
unfoldable pub prev_files : Option State → Str → Dict Str File
prev_files none name = []
prev_files (some prev) name = elim (Dict.lookup name prev.quadlets) [
  | none ↦ []
  | some q ↦ index_files [] q.files
]

-- `filesByQuadlet[q.Name]`
unfoldable pub inputs_of : Dict Str (Dict Str FileInput) → Str → Dict Str FileInput
inputs_of files name = elim (Dict.lookup name files) [ none ↦ [] | some m ↦ m ]

module _ (sha256 : Str → Str) (now : Time) where
  -- The record of a file before its predecessor is looked up. Only top-level files keep content.
  unfoldable pub new_file : Str → FileInput → File
  new_file path file_in = record {
    path = path;
    sha256 = sha256 file_in.content;
    mode = file_in.mode;
    applied_at = now;
    content = if contains path b'/' then [] else file_in.content;
    history = [];
  }

  unfoldable pub build_file : Dict Str File → Str → FileInput → File
  unfolding carry_from
  build_file prev_files path file_in =
      carry_from (Dict.lookup path prev_files) (new_file path file_in)

  unfoldable pub build_files : Dict Str File → Dict Str FileInput → List File
  build_files prev_files files =
      map (λ path. build_file prev_files path (input_at files path)) (sort (Dict.keys files))

  unfoldable pub build_quadlet :
      Option State → Dict Str (Dict Str FileInput) → Quadlet → QuadletRecord
  build_quadlet prev files q = record {
    applied_at = now;
    units = map unit_state q.units;
    files = build_files (prev_files prev q.name) (inputs_of files q.name);
  }

  unfoldable pub build_loop :
      Option State
      → Dict Str (Dict Str FileInput)
      → Dict Str QuadletRecord
      → List Quadlet
      → Dict Str QuadletRecord
  build_loop prev files m [] = m
  build_loop prev files m (q ∷ qs) =
      build_loop prev files (Dict.insert q.name (build_quadlet prev files q) m) qs

  unfoldable pub build : Str → Option State → List Quadlet → Dict Str (Dict Str FileInput) → State
  build crei_version prev quads files = record {
    version = schema_version;
    crei_version = crei_version;
    quadlets = build_loop prev files [] quads;
  }
