-- ===== src/Graph/Edges.antt =====
-- `sortedNodeIDs` and `sortedEdges`.
pub mod Strict
use mathlib.Core.Path.{subst}
use creidhne.Base.{
  Eq, ◌≡◌, refl, sym, ◌↔◌, list_beq, list_beq_iff, beq_comm, beq_refl, beq→eq, is_distinct, inl,
  inr, arith, Bool-cases, Bool, true, false, not, ◌&&◌, ◌||◌, ◌==◌, Option, none, some, List, [],
  ◌∷◌, ◌++◌, list_eq, nat_eq, is_nil, contains, map, ltb, if◌then◌else◌,
}
use creidhne.Base.Str.{Str}
use creidhne.Base.Order.{
  Order, sort, below_all, is_sorted, sort-is_sorted, contains-sort, str_order, str_le, str_le_total,
  str_le_antisymm, str_le_trans,
}
use creidhne.Base.Dict
use creidhne.Base.Dict.{Dict}
use creidhne.Graph.Types.{GraphNode, GraphEdge, DepGraph}
use creidhne.Graph.Build.{node_at}

unfoldable pub sorted_node_ids : DepGraph → List Str
sorted_node_ids g = sort (Dict.keys g.nodes)

abbrev pub edge_eq : GraphEdge → GraphEdge → Bool
edge_eq e f = e.from == f.from && (e.to == f.to && e.rel == f.rel)

pub edge_eq_iff : (e f : GraphEdge) → (edge_eq e f ≡ true) ↔ (e ≡ f)
edge_eq_iff e f =
    ground (arith, list_beq_iff e.from f.from, list_beq_iff e.to f.to, list_beq_iff e.rel f.rel)

instance abbrev pub edge_has_eq : Eq GraphEdge
edge_has_eq = record { same = edge_eq; same_iff = edge_eq_iff }

-- The order of `sort.Slice`: by `From`, then `Rel`, then `To`.
unfoldable pub edge_le : GraphEdge → GraphEdge → Bool
edge_le e f =
    if not (e.from == f.from)
    then str_le e.from f.from
    else if not (e.rel == f.rel)
    then str_le e.rel f.rel
    else str_le e.to f.to

pub edge_le_total : (e f : GraphEdge) → (edge_le e f || edge_le f e) ≡ true
unfolding edge_le
edge_le_total e f = ground (
  arith,
  beq_comm e.from f.from,
  beq_comm e.rel f.rel,
  str_le_total e.from f.from,
  str_le_total e.rel f.rel,
  str_le_total e.to f.to,
)

pub edge_le_antisymm : (e f : GraphEdge) → edge_le e f ≡ true → edge_le f e ≡ true → e ≡ f
unfolding edge_le
edge_le_antisymm e f h k = ground (
  arith,
  list_beq_iff e.from f.from,
  list_beq_iff e.rel f.rel,
  beq_comm e.from f.from,
  beq_comm e.rel f.rel,
  str_le_antisymm e.from f.from,
  str_le_antisymm e.rel f.rel,
  str_le_antisymm e.to f.to,
)

pub edge_le_trans :
    (e f g : GraphEdge) → edge_le e f ≡ true → edge_le f g ≡ true → edge_le e g ≡ true
unfolding edge_le
edge_le_trans e f g h k = ground (
  arith,
  list_beq_iff e.from f.from,
  list_beq_iff f.from g.from,
  list_beq_iff e.from g.from,
  list_beq_iff e.rel f.rel,
  list_beq_iff f.rel g.rel,
  list_beq_iff e.rel g.rel,
  str_le_trans e.from f.from g.from,
  str_le_trans e.rel f.rel g.rel,
  str_le_trans e.to f.to g.to,
  str_le_antisymm e.from f.from,
  str_le_antisymm e.rel f.rel,
)

instance abbrev pub edge_order : Order GraphEdge
edge_order = record {
  le = edge_le;
  le_total = edge_le_total;
  le_antisymm = edge_le_antisymm;
  le_trans = edge_le_trans;
}

-- An edge that equals the last one kept is dropped.
unfoldable pub drop_repeated : GraphEdge → List GraphEdge → List GraphEdge
drop_repeated last [] = []
drop_repeated last (e ∷ es) = let rest = drop_repeated e es in if last == e then rest else e ∷ rest

unfoldable pub drop_duplicates : List GraphEdge → List GraphEdge
drop_duplicates [] = []
drop_duplicates (e ∷ es) = e ∷ drop_repeated e es

unfoldable pub sorted_edges : DepGraph → List GraphEdge
sorted_edges g = drop_duplicates (sort g.edges)
