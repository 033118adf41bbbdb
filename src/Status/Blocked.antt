-- ===== src/Status/Blocked.antt =====
-- `hardDepRels`, `firstFailedDep`, `annotateBlocked` and `classifyRows`, which ends with it. The walk is on fuel: `none` is a walk that
-- runs out of it.
pub mod Walk
pub mod Cause
use creidhne.Base.{
  ℕ, zero, suc, ◌+◌, Bool, true, false, not, ◌&&◌, ◌||◌, Option, none, some, List, [], ◌∷◌, ◌++◌,
  ◌==◌, list_eq, nat_eq, length, contains, is_nil, map, if◌then◌else◌,
}
use creidhne.Base.Str.{Str, str}
use creidhne.Base.Dict
use creidhne.Base.Dict.{Dict}
use creidhne.Eval.Data.{UnitRecord, Quadlet}
use creidhne.Graph.Types.{GraphEdge, DepGraph}
use creidhne.Graph.Build.{build_graph}
use creidhne.Graph.Edges.{sorted_edges}
use creidhne.Systemd.Show.{UnitStatus}
use creidhne.Status.Types.{StatusRow}
use creidhne.Status.Input.{StatusInput}
use creidhne.Status.Rows.{unblocked_rows}

unfoldable pub hard_dep_rels : List Str
hard_dep_rels =
    str "Requires"
    ∷ str "Requisite"
    ∷ str "BindsTo"
    ∷ str "image"
    ∷ str "pod"
    ∷ str "network"
    ∷ str "volume"
    ∷ []

abbrev pub or_nil : Option (List Str) → List Str
or_nil none = []
or_nil (some ns) = ns

-- `adj[n]`
unfoldable pub adj_at : Dict Str (List Str) → Str → List Str
adj_at adj n = or_nil (Dict.lookup n adj)

unfoldable pub total : Dict Str (List Str) → ℕ
total [] = 0
total ((n, ns) ∷ adj) = length ns + total adj

-- The loop of `firstFailedDep`; the empty text where the queue runs empty.
unfoldable pub walk :
    ℕ → Dict Str (List Str) → Dict Str Bool → Dict Str Bool → List Str → Option Str
walk fuel adj failed seen [] = some []
walk zero adj failed seen (n ∷ queue) = none
walk (suc fuel) adj failed seen (n ∷ queue) =
    let rest =
      walk fuel adj failed (if Dict.has n seen then seen else Dict.insert n true seen)
        (if Dict.has n seen then queue else queue ++ adj_at adj n) in
    if not (Dict.has n seen) && Dict.has n failed then some n else rest

-- Every unit is taken from the queue at most once for each edge to it.
unfoldable pub first_failed_dep : Str → Dict Str (List Str) → Dict Str Bool → Option Str
first_failed_dep from adj failed =
    walk (length (adj_at adj from) + total adj) adj failed ((from, true) ∷ []) (adj_at adj from)

-- `adj`: the hard edges, in the order of the sorted edges.
unfoldable pub hard_edges : List GraphEdge → Dict Str (List Str) → Dict Str (List Str)
hard_edges [] adj = adj
hard_edges (e ∷ es) adj = hard_edges es (
    if contains hard_dep_rels e.rel
    then Dict.insert e.from (adj_at adj e.from ++ e.to ∷ []) adj
    else adj)

abbrev pub is_failed : Option UnitStatus → Bool
is_failed none = false
is_failed (some rt) = rt.active_state == str "failed"

unfoldable pub failed_in : Dict Str UnitStatus → List UnitRecord → Dict Str Bool → Dict Str Bool
failed_in runtime [] failed = failed
failed_in runtime (u ∷ us) failed = failed_in runtime us (
    if not (is_nil u.service) && is_failed (Dict.lookup u.service runtime)
    then Dict.insert u.filename true failed
    else failed)

unfoldable pub failed_units : Dict Str UnitStatus → List Quadlet → Dict Str Bool → Dict Str Bool
failed_units runtime [] failed = failed
failed_units runtime (q ∷ qs) failed = failed_units runtime qs (failed_in runtime q.units failed)

abbrev pub or_empty : Option Str → Str
or_empty none = []
or_empty (some n) = n

unfoldable pub is_down : StatusRow → Bool
is_down r = r.runtime == str "stopped" || r.runtime == str "not started"

unfoldable pub block_row : Dict Str (List Str) → Dict Str Bool → StatusRow → StatusRow
block_row adj failed r =
    if is_down r then record r { blocked = or_empty (first_failed_dep r.path adj failed) } else r

-- The whole project, where a filter narrowed the units.
unfoldable pub whole_project : StatusInput → List Quadlet
whole_project s = if is_nil s.all_units then s.desired_units else s.all_units

abbrev pub annotate_with :
    Option (Dict Str UnitStatus) → StatusInput → List StatusRow → List StatusRow
annotate_with none s rows = rows
annotate_with (some runtime) s rows =
    let every = whole_project s in
    let adj = hard_edges (sorted_edges (build_graph every every)) [] in
    let failed = failed_units runtime every [] in
    if is_nil s.desired_units || is_nil failed then rows else map (block_row adj failed) rows

unfoldable pub annotate_blocked : List StatusRow → StatusInput → List StatusRow
annotate_blocked rows s = annotate_with s.runtime s rows

unfoldable pub classify_rows : (Str → Str) → StatusInput → List StatusRow
classify_rows hash_bytes s = annotate_blocked (unblocked_rows hash_bytes s) s
