-- ===== src/Graph/Reduce/Visible.antt =====
-- The reduction hides and sets apart, and loses no node.
use creidhne.Base.{
  any, beq_refl, beq_comm, sym, ◌≡◌, refl, ap, ◌∙◌, Bool, true, false, not, ◌&&◌, ◌||◌, ◌==◌, List,
  [], ◌∷◌, list_eq, nat_eq, beq→eq, contains, contains-select, inl, inr, arith, Bool-cases,
}
use creidhne.Base.Str.{Str, str}
use creidhne.Base.Order.{str_order, contains-sort}
use creidhne.Base.Dict
use creidhne.Base.Dict.{Dict}
use creidhne.Graph.Types.{GraphNode, GraphEdge, DepGraph}
use creidhne.Graph.Edges.{sorted_node_ids, sorted_edges, edge_has_eq}
use creidhne.Graph.Edges.Strict.{sorted_edges-is_distinct}
use creidhne.Graph.Reduce.{degree, folded_edge, unhide, visible_of, reduce_graph}

abbrev is_drawn : Dict Str Bool → List Str → Str → Bool
is_drawn hidden orphans id = not (Dict.has id hidden) && not (contains orphans id)

is_drawn-eq :
    (hidden : Dict Str Bool) (orphans : List Str) (id j : Str)
    → (id == j) ≡ true
    → is_drawn hidden orphans id ≡ is_drawn hidden orphans j
is_drawn-eq hidden orphans id j h = ap (is_drawn hidden orphans) (beq→eq {a = id} {b = j} h)

has-visible_of :
    (hidden : Dict Str Bool) (orphans ids : List Str) (visible : Dict Str Bool) (id : Str)
    → Dict.has id (visible_of hidden orphans ids visible)
      ≡ (Dict.has id visible || (contains ids id && is_drawn hidden orphans id))
unfolding visible_of contains
has-visible_of hidden orphans [] visible id = ground arith
has-visible_of hidden orphans (j ∷ ids) visible id = elim (Bool-cases (is_drawn hidden orphans j)) [
  | inl drawn ↦
      rw
        (
          drawn,
          has-visible_of hidden orphans ids (Dict.insert j true visible) id,
          Dict.has-insert id j true visible,
        )
        (ground (arith, drawn, is_drawn-eq hidden orphans id j))
  | inr other ↦
      rw (other, has-visible_of hidden orphans ids visible id)
        (ground (arith, other, is_drawn-eq hidden orphans id j))
]

drawn_nodes :
    (nodes : Dict Str GraphNode) (hidden : Dict Str Bool) (orphans : List Str) (id : Str)
    → Dict.has id (visible_of hidden orphans (Dict.keys nodes) [])
      ≡ (Dict.has id nodes && is_drawn hidden orphans id)
unfolding Dict.has Dict.lookup
drawn_nodes nodes hidden orphans id =
    has-visible_of hidden orphans (Dict.keys nodes) [] id
    ∙ ap (λ b. b && is_drawn hidden orphans id) (Dict.has-keys id nodes)

-- An edge starts or ends at the node.
abbrev pub touches : Str → GraphEdge → Bool
touches id e = e.from == id || e.to == id

degree-touches : (es : List GraphEdge) (id : Str) → (degree es id == 0) ≡ not (any (touches id) es)
unfolding degree any
degree-touches [] id = refl
degree-touches (e ∷ es) id = ground (arith, degree-touches es id)

module _ (p : GraphEdge → Bool) where
  any-contains :
      (es : List GraphEdge) (e : GraphEdge) → contains es e ≡ true → p e ≡ true → any p es ≡ true
  unfolding contains any
  any-contains [] e m h = absurd (cc m)
  any-contains (x ∷ es) e m h = elim (Bool-cases (e == x)) [
    | inl same ↦ rw (sym (ap p (beq→eq {a = e} {b = x} same)) ∙ h) refl
    | inr other ↦ ground (arith, any-contains es e)
  ]

  any_found :
      (es : List GraphEdge)
      → any p es ≡ true
      → (e : GraphEdge) × (contains es e ≡ true) × (p e ≡ true)
  unfolding contains any
  any_found [] h = absurd (cc h)
  any_found (x ∷ es) h = elim (Bool-cases (p x)) [
    | inl here ↦ (x, ground (arith, beq_refl x), here)
    | inr not_here ↦ (let (e, m, k) = any_found es (ground arith) in (e, ground arith, k))
  ]

  any-same :
      (es fs : List GraphEdge)
      → ((e : GraphEdge) → contains es e ≡ contains fs e)
      → any p es ≡ any p fs
  any-same es fs same = elim (Bool-cases (any p es)) [
    | inl h ↦ let (e, m, k) = any_found es h in h ∙ sym (any-contains fs e (sym (same e) ∙ m) k)
    | inr h ↦ elim (Bool-cases (any p fs)) [
      | inl h' ↦
          (let (e, m, k) = any_found fs h' in
            absurd (cc (sym h ∙ any-contains es e (same e ∙ m) k)))
      | inr h' ↦ h ∙ sym h'
    ]
  ]

has-erase :
    (j k : Str) (m : Dict Str Bool) → Dict.has j (Dict.erase k m) ≡ (Dict.has j m && not (j == k))
unfolding Dict.has
has-erase j k m = rw (Dict.lookup-erase j k m) (ground arith)

unhide-has :
    (folded : Dict Str Str) (es : List GraphEdge) (hidden : Dict Str Bool) (id : Str)
    → Dict.has id (unhide folded es hidden) ≡ true
    → Dict.has id hidden ≡ true
unfolding unhide
unhide-has folded [] hidden id h = h
unhide-has folded (e ∷ es) hidden id h = elim (Bool-cases (folded_edge folded hidden e)) [
  | inl k ↦ unhide-has folded es hidden id (rw k at h)
  | inr k ↦
      let rest = unhide-has folded es (Dict.erase e.from (Dict.erase e.to hidden)) id (rw k at h) in
      let outer = has-erase id e.from (Dict.erase e.to hidden) in
      let inner = has-erase id e.to hidden in ground (arith, rest, outer, inner)
]

-- What touches a node that stays hidden.
unhide-touches :
    (folded : Dict Str Str) (es : List GraphEdge) (hidden : Dict Str Bool) (id : Str)
    (e : GraphEdge)
    → Dict.has id (unhide folded es hidden) ≡ true
    → contains es e ≡ true
    → touches id e ≡ true
    → (e.rel == str "image") ≡ true
unfolding unhide contains folded_edge
unhide-touches folded [] hidden id e h m t = absurd (cc m)
unhide-touches folded (x ∷ es) hidden id e h m t = elim (Bool-cases (folded_edge folded hidden x)) [
  | inl k ↦ elim (Bool-cases (e == x)) [
    | inl same ↦ rw (beq→eq {a = e} {b = x} same) (ground arith)
    | inr other ↦ unhide-touches folded es hidden id e (rw k at h) (ground arith) t
  ]
  | inr k ↦ elim (Bool-cases (e == x)) [
    | inl same ↦
        let rest =
          unhide-has folded es (Dict.erase x.from (Dict.erase x.to hidden)) id (rw k at h) in
        let outer = has-erase id x.from (Dict.erase x.to hidden) in
        let inner = has-erase id x.to hidden in
        let t' : touches id x ≡ true = rw (← beq→eq {a = e} {b = x} same) t in
        absurd (ground (arith, rest, outer, inner, t', beq_comm id x.from, beq_comm id x.to))
    | inr other ↦
        unhide-touches folded es (Dict.erase x.from (Dict.erase x.to hidden)) id e (rw k at h)
          (ground arith) t
  ]
]

abbrev pub touches_otherwise : Str → GraphEdge → Bool
touches_otherwise id e = touches id e && not (e.rel == str "image")

hidden-touches :
    (folded : Dict Str Str) (g : DepGraph) (hidden : Dict Str Bool) (id : Str)
    → (Dict.has id (unhide folded (sorted_edges g) hidden) && any (touches_otherwise id) g.edges)
      ≡ false
hidden-touches folded g hidden id =
    elim (Bool-cases (Dict.has id (unhide folded (sorted_edges g) hidden))) [
      | inr k ↦ rw k refl
      | inl k ↦ elim (Bool-cases (any (touches_otherwise id) g.edges)) [
        | inr no_edge ↦ rw (k, no_edge) refl
        | inl found ↦
            let (e, m, t) = any_found (touches_otherwise id) g.edges found in
            let (_, same) = sorted_edges-is_distinct g in
            let r =
              unhide-touches folded (sorted_edges g) hidden id e k (same e ∙ m)
                (ground (arith, t)) in
            absurd (ground (arith, t, r))
      ]
    ]

-- A node of the graph is drawn exactly if it is neither hidden nor an orphan. The orphans are the
-- nodes that no edge of the graph starts or ends at, and an edge that starts or ends at a hidden node
-- has the relation `image`.
pub reduce_graph-visible :
    (g : DepGraph) (id : Str)
    → let r = reduce_graph g in
      (Dict.has id r.visible ≡ (
        Dict.has id g.nodes && (not (Dict.has id r.hidden_builds) && not (contains r.orphans id))))
      × (contains r.orphans id ≡ (Dict.has id g.nodes && not (any (touches id) g.edges)))
      × ((Dict.has id r.hidden_builds && any (touches_otherwise id) g.edges) ≡ false)
unfolding reduce_graph sorted_node_ids
reduce_graph-visible g id =
    let (_, same) = sorted_edges-is_distinct g in
    (
      drawn_nodes g.nodes (reduce_graph g).hidden_builds (reduce_graph g).orphans id,
      rw
          (
            contains-sort,
            contains-select,
            contains-sort,
            Dict.has-keys id g.nodes,
            degree-touches (sorted_edges g) id,
            any-same (touches id) (sorted_edges g) g.edges same,
          )
          refl,
      hidden-touches _ g _ id,
    )
