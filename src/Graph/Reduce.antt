-- ===== src/Graph/Reduce.antt =====
-- `reduceGraph`: what the drawing hides, folds and sets apart (internal/cli/graphreduce.go).
pub mod Visible
use creidhne.Base.{
  ℕ, ◌+◌, Bool, true, false, not, ◌&&◌, ◌||◌, ◌==◌, ◌!=◌, Option, none, some, List, [], ◌∷◌,
  list_eq, nat_eq, is_nil, contains, select, length, if◌then◌else◌,
}
use creidhne.Base.Str.{Str, str, cut_last}
use creidhne.Base.Order.{sort, str_order}
use creidhne.Base.Dict
use creidhne.Base.Dict.{Dict}
use creidhne.Graph.Types.{GraphNode, GraphEdge, DepGraph}
use creidhne.Graph.Build.{node_at}
use creidhne.Graph.Edges.{sorted_node_ids, sorted_edges}

pub record ReduceCounts : Type 0 where
  pub units : ℕ
  pub relations : ℕ
  pub cross : ℕ
  pub folded : ℕ
  pub orphans : ℕ

-- A `map[string]bool` that only ever holds `true` is the map of its keys.
pub record ReducedGraph : Type 0 where
  pub g : DepGraph
  pub folded : Dict Str Str
  pub hidden_builds : Dict Str Bool
  pub orphans : List Str
  pub visible : Dict Str Bool
  pub counts : ReduceCounts

-- The part before the last dot, unless that is the first byte or there is none.
unfoldable pub stem_of : Str → Str
stem_of id = elim (cut_last id b'.') [
  | none ↦ id
  | some (front, rest) ↦ if is_nil front then id else front
]

unfoldable pub stack_of : GraphNode → Str
stack_of n = if is_nil n.quadlet then str "external" else n.quadlet

unfoldable pub cross_edge : DepGraph → Str → Str → Bool
cross_edge g from to = stack_of (node_at g.nodes from) != stack_of (node_at g.nodes to)

-- An edge from a container to its own build.
unfoldable pub is_own_build : DepGraph → GraphEdge → Bool
is_own_build g e =
    let to = node_at g.nodes e.to in
    let from = node_at g.nodes e.from in
    e.rel == str "image"
    && (to.kind == str "build" && (to.quadlet == from.quadlet && stem_of e.from == stem_of e.to))

-- `folded[id]`, the empty text for a missing key
unfoldable pub folded_at : Dict Str Str → Str → Str
folded_at folded id = elim (Dict.lookup id folded) [ none ↦ [] | some to ↦ to ]

unfoldable pub folded_edge : Dict Str Str → Dict Str Bool → GraphEdge → Bool
folded_edge folded hidden e =
    e.rel == str "image" && (folded_at folded e.from == e.to && Dict.has e.to hidden)

-- The loop that folds: the builds in the labels, and the builds to hide.
unfoldable pub fold_builds :
    DepGraph → List GraphEdge → Dict Str Str × Dict Str Bool → Dict Str Str × Dict Str Bool
fold_builds g [] m = m
fold_builds g (e ∷ es) (folded, hidden) = fold_builds g es (
    if is_own_build g e
    then (Dict.insert e.from e.to folded, Dict.insert e.to true hidden)
    else (folded, hidden))

-- The loop that shows the builds again that another edge touches.
unfoldable pub unhide : Dict Str Str → List GraphEdge → Dict Str Bool → Dict Str Bool
unhide folded [] hidden = hidden
unhide folded (e ∷ es) hidden =
    unhide folded es
      (if folded_edge folded hidden e then hidden else Dict.erase e.from (Dict.erase e.to hidden))

-- Whether no edge touches a node: its degree is zero.
unfoldable pub degree : List GraphEdge → Str → ℕ
degree [] id = 0
degree (e ∷ es) id = (if e.from == id then 1 else 0) + (if e.to == id then 1 else 0) + degree es id

unfoldable pub visible_of : Dict Str Bool → List Str → List Str → Dict Str Bool → Dict Str Bool
visible_of hidden orphans [] visible = visible
visible_of hidden orphans (id ∷ ids) visible = visible_of hidden orphans ids (
    if not (Dict.has id hidden) && not (contains orphans id)
    then Dict.insert id true visible
    else visible)

unfoldable pub kept_edges : DepGraph → Dict Str Str → Dict Str Bool → List GraphEdge
kept_edges g folded hidden = select (λ e. not (folded_edge folded hidden e)) (sorted_edges g)

unfoldable pub reduce_graph : DepGraph → ReducedGraph
reduce_graph g =
    let edges = sorted_edges g in
    let (folded, candidates) = fold_builds g edges ([], []) in
    let hidden = unhide folded edges candidates in
    let orphans = sort (select (λ id. degree edges id == 0) (sorted_node_ids g)) in
    let cross = select (λ e. cross_edge g e.from e.to) (kept_edges g folded hidden) in
    record {
      g = g;
      folded = folded;
      hidden_builds = hidden;
      orphans = orphans;
      visible = visible_of hidden orphans (Dict.keys g.nodes) [];
      counts = record {
        units = length g.nodes;
        relations = length edges;
        cross = length cross;
        folded = length hidden;
        orphans = length orphans;
      };
    }
