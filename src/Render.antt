-- ===== src/Render.antt =====
-- The rendered files (internal/render/render.go). Text templates are parameters: which names the
-- set has, and what the execution of one gives on the root data.
pub mod Filled
pub mod Written
pub mod Project
pub mod Chosen
pub mod Planned
use creidhne.Base.{
  Bool, true, false, not, ◌==◌, Option, none, some, List, [], ◌∷◌, ◌++◌, Result, ok, err, ◌>>=◌,
  list_eq, nat_eq, is_nil, if◌then◌else◌,
}
use creidhne.Base.Str.{Str, str, has_prefix}
use creidhne.Base.Order.{sort, str_order}
use creidhne.Base.Paths.{is_local}
use creidhne.Base.Clean.{path_join}
use creidhne.Base.Dict
use creidhne.Base.Dict.{Dict}
use creidhne.Eval.Data.{Value, Fields, get_field, UnitRecord, Quadlet}

pub record FileContent : Type 0 where
  pub content : Str
  pub mode : Str

pub data RenderError : Type 0 where
  unsafe_output : Str → RenderError
  duplicate_output : Str → Str → Str → RenderError
  unknown_kind : Str → RenderError
  template_failed : Str → RenderError
  not_a_string not_a_map : Str → RenderError
  bad_entry : Str → RenderError
  escapes_context : Str → Str → RenderError

-- `ensureLocal`
unfoldable pub ensure_local : Str → Result RenderError (Unit {0})
ensure_local name = if is_local name then ok tt else err (unsafe_output name)

-- The two maps that `BuildFileSet` fills: the files, and the quadlet of each.
pub record Output : Type 0 where
  pub files : Dict Str FileContent
  pub owners : Dict Str Str

abbrev pub claim_from : Str → Str → Output → Option Str → Result RenderError Output
claim_from path owner o none = ok (record o { owners = Dict.insert path owner o.owners })
claim_from path owner o (some prev) = err (duplicate_output path prev owner)

-- The guards before a file: its path is local, and no unit has emitted it.
unfoldable pub claim : Str → Str → Output → Result RenderError Output
claim path owner o = do
  safe ← ensure_local path
  claim_from path owner o (Dict.lookup path o.owners)

unfoldable pub put : Str → FileContent → Output → Output
put path fc o = record o { files = Dict.insert path fc o.files }

-- The closure `add` of `addBuildArtifacts`.
unfoldable pub add_file : Str → FileContent → Str → Output → Result RenderError Output
add_file path fc owner o = do o' ← claim path owner o; ok (put path fc o')

abbrev pub entry_mode : Str → Str → Option Value → Result RenderError FileContent
entry_mode name content none = ok (record { content = content; mode = str "0644" })
entry_mode name content (some Value.null) = ok (record { content = content; mode = str "0644" })
entry_mode name content (some (Value.text m)) =
    ok (record { content = content; mode = if is_nil m then str "0644" else m })
entry_mode name content (some other) = err (bad_entry name)

abbrev pub entry_fields : Str → Fields → Option Value → Result RenderError FileContent
entry_fields name fields (some (Value.text c)) = entry_mode name c (get_field fields (str "mode"))
entry_fields name fields other = err (bad_entry name)

-- `contextEntry`; a missing entry is nil.
unfoldable pub context_entry : Str → Option Value → Result RenderError FileContent
context_entry name (some (Value.text c)) = ok (record { content = c; mode = str "0644" })
context_entry name (some (Value.dict fields)) =
    entry_fields name fields (get_field fields (str "content"))
context_entry name other = err (bad_entry name)

unfoldable pub field_names : Fields → List Str
field_names Fields.end = []
field_names (Fields.field k v fields) = k ∷ field_names fields

-- The cleaned path must stay below the context directory.
unfoldable pub add_below : Str → Str → FileContent → Str → Output → Result RenderError Output
add_below dir p fc owner o =
    if has_prefix (path_join dir p) (dir ++ str "/")
    then add_file (path_join dir p) fc owner o
    else err (escapes_context p dir)

-- The body of the loop over the context entries.
unfoldable pub add_entry : Str → Fields → Str → Str → Output → Result RenderError Output
add_entry dir ctx owner p o = do fc ← context_entry p (get_field ctx p); add_below dir p fc owner o

unfoldable pub add_entries : Str → Fields → Str → List Str → Output → Result RenderError Output
add_entries dir ctx owner [] o = ok o
add_entries dir ctx owner (p ∷ ps) o = do
  o' ← add_entry dir ctx owner p o
  add_entries dir ctx owner ps o'

abbrev pub add_containerfile : Str → Str → Option Value → Output → Result RenderError Output
add_containerfile stem owner none o = ok o
add_containerfile stem owner (some (Value.text cf)) o =
    add_file (path_join (str "images") (stem ++ str ".Containerfile"))
      (record { content = cf; mode = [] }) owner o
add_containerfile stem owner (some other) o = err (not_a_string (str "ContainerFile"))

abbrev pub add_context : Str → Str → Option Value → Output → Result RenderError Output
add_context stem owner none o = ok o
add_context stem owner (some (Value.dict ctx)) o =
    add_entries (path_join (str "images") (stem ++ str ".context")) ctx owner
      (sort (field_names ctx)) o
add_context stem owner (some other) o = err (not_a_map (str "Context"))

unfoldable pub add_build_artifacts : Str → UnitRecord → Output → Result RenderError Output
add_build_artifacts owner u o = do
  o' ← add_containerfile u.stem owner (get_field u.unit_data (str "ContainerFile")) o
  add_context u.stem owner (get_field u.unit_data (str "Context")) o'

-- `root[key] = v`
unfoldable pub set_field : Str → Value → Fields → Fields
set_field key v Fields.end = Fields.field key v Fields.end
set_field key v (Fields.field k w fields) =
    if key == k then Fields.field k v fields else Fields.field k w (set_field key v fields)

abbrev pub with_context : Str → Option Value → Fields → Fields
with_context stem (some (Value.dict (Fields.field k v fields))) root =
    set_field (str "contextPath") (Value.text (str "images/" ++ (stem ++ str ".context"))) root
with_context stem other root = root

abbrev pub with_paths : UnitRecord → Option Value → Fields
with_paths u none = u.unit_data
with_paths u (some v) = with_context u.stem (get_field u.unit_data (str "Context")) (
    set_field (str "containerfilePath")
      (Value.text (str "images/" ++ (u.stem ++ str ".Containerfile"))) u.unit_data)

-- The data that the template of a unit is executed on.
unfoldable pub template_root : UnitRecord → Fields
template_root u =
    if u.kind == str "build"
    then with_paths u (get_field u.unit_data (str "ContainerFile"))
    else u.unit_data

module _ (has_template : Str → Bool) (execute : Str → Fields → Result Str Str) where
  abbrev pub lift_template : Result Str Str → Result RenderError Str
  lift_template (ok content) = ok content
  lift_template (err why) = err (template_failed why)

  unfoldable pub render_unit : UnitRecord → Result RenderError Str
  render_unit u =
      if has_template (u.kind ++ str ".tpl")
      then lift_template (execute (u.kind ++ str ".tpl") (template_root u))
      else err (unknown_kind u.kind)

  -- The body of the loop over the units of a quadlet.
  unfoldable pub emit_unit : Str → UnitRecord → Output → Result RenderError Output
  emit_unit owner u o = do
    o' ← claim u.filename owner o
    content ← render_unit u
    let o'' = put u.filename (record { content = content; mode = [] }) o'
    if u.kind == str "build" then add_build_artifacts owner u o'' else ok o''

  unfoldable pub emit_units : Str → List UnitRecord → Output → Result RenderError Output
  emit_units owner [] o = ok o
  emit_units owner (u ∷ us) o = do o' ← emit_unit owner u o; emit_units owner us o'

  unfoldable pub emit_quadlets : List Quadlet → Output → Result RenderError Output
  emit_quadlets [] o = ok o
  emit_quadlets (q ∷ qs) o = do o' ← emit_units q.name q.units o; emit_quadlets qs o'

  -- `BuildFileSet`
  unfoldable pub build_file_set : List Quadlet → Result RenderError (Dict Str FileContent)
  build_file_set quadlets = do
    o ← emit_quadlets quadlets (record { files = []; owners = [] })
    ok o.files
