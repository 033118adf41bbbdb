-- ===== src/Graph/Build.antt =====
-- `buildGraph`: the dependency graph of the focus quadlets.
pub mod Steps
pub mod Closed
use creidhne.Base.{
  Bool, true, false, Option, none, some, List, [], ◌∷◌, ◌++◌, list_eq, nat_eq, is_nil,
  if◌then◌else◌,
}
use creidhne.Base.Str.{Str, str, cut_byte}
use creidhne.Base.Dict
use creidhne.Base.Dict.{Dict}
use creidhne.Eval.Data.{UnitRecord, Quadlet}
use creidhne.Eval.Access.{top_str, top_list, nested_list}
use creidhne.Graph.Types.{GraphNode, GraphEdge, DepGraph}

abbrev pub unit_directives : List Str
unit_directives =
    str "After"
    ∷ str "Before"
    ∷ str "Requires"
    ∷ str "Requisite"
    ∷ str "Wants"
    ∷ str "BindsTo"
    ∷ str "PartOf"
    ∷ str "Upholds"
    ∷ str "Conflicts"
    ∷ str "OnFailure"
    ∷ str "OnSuccess"
    ∷ str "PropagatesReloadTo"
    ∷ str "ReloadPropagatedFrom"
    ∷ str "PropagatesStopTo"
    ∷ str "StopPropagatedFrom"
    ∷ str "JoinsNamespaceOf"
    ∷ []

-- A loop over a slice that changes the state `s`.
unfoldable pub each : {A S : Type 0} → (A → S → S) → List A → S → S
each body [] s = s
each body (x ∷ xs) s = each body xs (body x s)

abbrev pub Catalog : Type 0
Catalog = Dict Str GraphNode

-- `catalog[id]`, the zero node for a missing key
unfoldable pub node_at : Catalog → Str → GraphNode
node_at catalog id = elim (Dict.lookup id catalog) [
  | none ↦ record { id = []; kind = []; quadlet = []; external = false }
  | some node ↦ node
]

-- Add a node unless there is one.
unfoldable pub ensure : Str → GraphNode → DepGraph → DepGraph
ensure id node g =
    if Dict.has id g.nodes then g else record g { nodes = Dict.insert id node g.nodes }

unfoldable pub ensure_managed : Catalog → Str → DepGraph → DepGraph
ensure_managed catalog id g = ensure id (node_at catalog id) g

unfoldable pub ensure_external : Str → DepGraph → DepGraph
ensure_external id g =
    ensure id (record { id = id; kind = str "external"; quadlet = []; external = true }) g

unfoldable pub add_edge : Str → Str → Str → DepGraph → DepGraph
add_edge from to rel g = record g {
  edges = g.edges ++ record { from = from; to = to; rel = rel } ∷ [];
}

-- One target of a directive, by what the map of services has for it.
unfoldable pub add_target : Catalog → Str → Str → Str → Option Str → DepGraph → DepGraph
add_target catalog from directive target none g =
    add_edge from target directive (ensure_external target g)
add_target catalog from directive target (some id) g =
    add_edge from id directive (ensure_managed catalog id g)

unfoldable pub add_unit_edges : UnitRecord → Dict Str Str → Catalog → DepGraph → DepGraph
add_unit_edges u services catalog g =
    each
      (λ directive.
        each
          (λ target. add_target catalog u.filename directive target (Dict.lookup target services))
          (nested_list u.unit_data (str "Unit") directive))
      unit_directives g

unfoldable pub first_field : Str → Str
first_field s = elim (cut_byte s b':') [ none ↦ s | some (front, rest) ↦ front ]

unfoldable pub resource_strings : UnitRecord → Str → List Str
resource_strings u key =
    let top = top_list u.unit_data key in
    if is_nil top then nested_list u.unit_data (str "Build") key else top

-- The closure `link`.
unfoldable pub link : Catalog → Str → Str → Str → DepGraph → DepGraph
link catalog from rel ref g =
    if Dict.has ref catalog then add_edge from ref rel (ensure_managed catalog ref g) else g

unfoldable pub link_if_set : Catalog → Str → Str → Str → DepGraph → DepGraph
link_if_set catalog from rel ref g = if is_nil ref then g else link catalog from rel ref g

unfoldable pub link_all : Catalog → Str → Str → List Str → DepGraph → DepGraph
link_all catalog from rel refs g = each (λ ref. link catalog from rel (first_field ref)) refs g

unfoldable pub add_resource_edges : UnitRecord → Catalog → DepGraph → DepGraph
add_resource_edges u catalog g =
    let fields = u.unit_data in
    let from = u.filename in
    let g1 = link_if_set catalog from (str "image") (top_str fields (str "imageString")) g in
    let g2 = link_if_set catalog from (str "pod") (top_str fields (str "podString")) g1 in
    let g3 = link_all catalog from (str "network") (resource_strings u (str "networkStrings")) g2 in
    let g4 = link_all catalog from (str "volume") (resource_strings u (str "volumeStrings")) g3 in
    link_all catalog from (str "network") (nested_list fields (str "Kube") (str "Network")) g4

-- The loop over all units of some quadlets.
unfoldable pub each_unit : {S : Type 0} → (Quadlet → UnitRecord → S → S) → List Quadlet → S → S
each_unit body quads s = each (λ q. each (body q) q.units) quads s

abbrev node_of : Quadlet → UnitRecord → GraphNode
node_of q u = record { id = u.filename; kind = u.kind; quadlet = q.name; external = false }

unfoldable pub catalog_of : List Quadlet → Catalog
catalog_of all = each_unit (λ q u c. Dict.insert u.filename (node_of q u) c) all []

unfoldable pub services_of : List Quadlet → Dict Str Str
services_of all =
    each_unit (λ q u m. if is_nil u.service then m else Dict.insert u.service u.filename m) all []

unfoldable pub add_node : Catalog → UnitRecord → DepGraph → DepGraph
add_node catalog u g = record g {
  nodes = Dict.insert u.filename (node_at catalog u.filename) g.nodes;
}

unfoldable pub add_edges_of : Dict Str Str → Catalog → UnitRecord → DepGraph → DepGraph
add_edges_of services catalog u g =
    add_resource_edges u catalog (add_unit_edges u services catalog g)

unfoldable pub build_graph : List Quadlet → List Quadlet → DepGraph
build_graph focus all =
    let catalog = catalog_of all in
    let services = services_of all in
    let g = each_unit (λ q. add_node catalog) focus (record { nodes = []; edges = [] }) in
    each_unit (λ q. add_edges_of services catalog) focus g
