-- ===== src/Lifecycle/Rows.antt =====
-- `runnableRows`, `lifecycleSelection` and `isUp`.
pub mod Leaves
use creidhne.Base.{
  ℕ, Bool, true, false, not, ◌&&◌, ◌||◌, ◌==◌, List, [], ◌∷◌, Result, ok, err, list_eq, nat_eq,
  is_nil, contains, if◌then◌else◌,
}
use creidhne.Base.Str.{Str, str, ext}
use creidhne.Base.Dict
use creidhne.Base.Dict.{Dict}
use creidhne.Status.Types.{StatusRow}

unfoldable pub runnable_exts : List Str
runnable_exts = str ".container" ∷ str ".pod" ∷ str ".kube" ∷ []

unfoldable pub is_runnable : StatusRow → Bool
is_runnable r = contains runnable_exts (ext r.path)

-- The first loop: the quadlets that have a runnable unit.
unfoldable pub leaves_by_quad : List StatusRow → Dict Str Bool → Dict Str Bool
leaves_by_quad [] m = m
leaves_by_quad (r ∷ rows) m =
    leaves_by_quad rows (if is_runnable r then Dict.insert r.quadlet true m else m)

-- The second loop.
unfoldable pub keep_rows : Dict Str Bool → List StatusRow → List StatusRow
keep_rows leaves [] = []
keep_rows leaves (r ∷ rows) =
    let rest = keep_rows leaves rows in
    if is_runnable r || not (Dict.has r.quadlet leaves) then r ∷ rest else rest

unfoldable pub runnable_rows : List StatusRow → List StatusRow
runnable_rows rows = keep_rows (leaves_by_quad rows []) rows

pub data SelectionError : Type 0 where
  names_and_all nothing_named : SelectionError

unfoldable pub lifecycle_selection : List Str → Bool → Result SelectionError (Unit {0})
lifecycle_selection args all =
    if all && not (is_nil args)
    then err names_and_all
    else if not all && is_nil args
    then err nothing_named
    else ok tt

unfoldable pub is_up : Str → Bool
is_up runtime = runtime == str "running" || runtime == str "active"
