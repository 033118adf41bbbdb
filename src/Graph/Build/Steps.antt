-- ===== src/Graph/Build/Steps.antt =====
-- A unit adds its edges: no node is lost, and no edge is left dangling.
use creidhne.Base.{
  ◌≡◌, sym, true, Option, none, some, List, [], ◌∷◌, ◌++◌, list_eq, nat_eq, beq_refl, ◌⊎◌, inl, inr,
  In, arith, Bool-cases,
}
use mathlib.Core.Path.{subst}
use creidhne.Base.Str.{Str, str}
use creidhne.Base.Dict
use creidhne.Base.Dict.{Dict}
use creidhne.Eval.Data.{UnitRecord}
use creidhne.Eval.Access.{nested_list}
use creidhne.Graph.Types.{GraphNode, GraphEdge, DepGraph}
use creidhne.Graph.Build.{
  Catalog, unit_directives, each, ensure, ensure_managed, ensure_external, add_edge, add_target,
  add_unit_edges, first_field, link, link_if_set, link_all, add_resource_edges, add_edges_of,
}

abbrev pub HasNode : DepGraph → Str → Type 0
HasNode g id = Dict.has id g.nodes ≡ true

-- Both ends of every edge are nodes.
pub record IsClosed (g : DepGraph) : Type 0 where
  pub ends : (e : GraphEdge) → In e g.edges → HasNode g e.from × HasNode g e.to

-- A change of the graph on behalf of the unit `from`: no node is lost, and a closed graph stays so.
pub record IsStep (from : Str) (g g' : DepGraph) : Type 0 where
  pub keeps : (id : Str) → HasNode g id → HasNode g' id
  pub closes : HasNode g from → IsClosed g → IsClosed g'

IsStep-refl : (from : Str) (g : DepGraph) → IsStep from g g
IsStep-refl from g = record { keeps = λ id h. h; closes = λ h c. c }

IsStep-trans :
    (from : Str) {g g' g'' : DepGraph} → IsStep from g g' → IsStep from g' g'' → IsStep from g g''
IsStep-trans from s t = record {
  keeps = λ id h. t.keeps id (s.keeps id h);
  closes = λ h c. t.closes (s.keeps from h) (s.closes h c);
}

each-IsStep :
    {A : Type 0} (from : Str) (body : A → DepGraph → DepGraph)
    → ((x : A) (g : DepGraph) → IsStep from g (body x g))
    → (xs : List A) (g : DepGraph) → IsStep from g (each body xs g)
unfolding each
each-IsStep from body step [] g = IsStep-refl from g
each-IsStep from body step (x ∷ xs) g =
    IsStep-trans from (step x g) (each-IsStep from body step xs (body x g))

pub insert-keeps :
    (k : Str) (v : GraphNode) (g : DepGraph) (id : Str)
    → HasNode g id
    → HasNode (record g { nodes = Dict.insert k v g.nodes }) id
insert-keeps k v g id h = rw (Dict.has-insert id k v g.nodes, h) (ground arith)

insert-IsStep :
    (from k : Str) (v : GraphNode) (g : DepGraph)
    → IsStep from g (record g { nodes = Dict.insert k v g.nodes })
insert-IsStep from k v g = record {
  keeps = insert-keeps k v g;
  closes = λ h c. record {
    ends =
        λ e m. (insert-keeps k v g e.from (c.ends e m).0, insert-keeps k v g e.to (c.ends e m).1);
  };
}

ensure-HasNode : (id : Str) (node : GraphNode) (g : DepGraph) → HasNode (ensure id node g) id
unfolding ensure
ensure-HasNode id node g = elim (Bool-cases (Dict.has id g.nodes)) [
  | inl h ↦ rw h h
  | inr h ↦ rw (h, Dict.has-insert id id node g.nodes, beq_refl id)
]

ensure-IsStep : (from id : Str) (node : GraphNode) (g : DepGraph) → IsStep from g (ensure id node g)
unfolding ensure
ensure-IsStep from id node g = elim (Bool-cases (Dict.has id g.nodes)) [
  | inl h ↦ rw h (IsStep-refl from g)
  | inr h ↦ rw h (insert-IsStep from id node g)
]

In-snoc : (e last : GraphEdge) (es : List GraphEdge) → In e (es ++ last ∷ []) → In e es ⊎ (e ≡ last)
In-snoc e last [] h = elim h [ inl same ↦ inr same | inr none_left ↦ absurd none_left ]
In-snoc e last (x ∷ es) h = elim h [
  | inl same ↦ inl (inl same)
  | inr m ↦ elim (In-snoc e last es m) [ inl m' ↦ inl (inr m') | inr same ↦ inr same ]
]

add_edge-IsStep :
    (from to rel : Str) (g : DepGraph) → HasNode g to → IsStep from g (add_edge from to rel g)
unfolding add_edge
add_edge-IsStep from to rel g there = record {
  keeps = λ id h. h;
  closes = λ here c. record {
    ends = λ e m. elim (In-snoc e _ g.edges m) [
      | inl old ↦ c.ends e old
      | inr same ↦ subst (λ x. HasNode g x.from × HasNode g x.to) (sym same) (here, there)
    ];
  };
}

-- An edge to a node that is there from then on.
connect-IsStep :
    (from to rel : Str) (node : GraphNode) (g : DepGraph)
    → IsStep from g (add_edge from to rel (ensure to node g))
connect-IsStep from to rel node g =
    IsStep-trans from (ensure-IsStep from to node g)
      (add_edge-IsStep from to rel (ensure to node g) (ensure-HasNode to node g))

add_target-IsStep :
    (catalog : Catalog) (from directive target : Str) (o : Option Str) (g : DepGraph)
    → IsStep from g (add_target catalog from directive target o g)
unfolding add_target ensure_managed ensure_external
add_target-IsStep catalog from directive target none g = connect-IsStep from target directive _ g
add_target-IsStep catalog from directive target (some id) g = connect-IsStep from id directive _ g

add_unit_edges-IsStep :
    (u : UnitRecord) (services : Dict Str Str) (catalog : Catalog) (g : DepGraph)
    → IsStep u.filename g (add_unit_edges u services catalog g)
unfolding add_unit_edges
add_unit_edges-IsStep u services catalog g =
    each-IsStep u.filename _
      (λ directive.
        each-IsStep u.filename _
          (λ target.
            add_target-IsStep catalog u.filename directive target (Dict.lookup target services))
          (nested_list u.unit_data (str "Unit") directive))
      unit_directives g

link-IsStep :
    (catalog : Catalog) (from rel ref : Str) (g : DepGraph)
    → IsStep from g (link catalog from rel ref g)
unfolding link ensure_managed
link-IsStep catalog from rel ref g = elim (Bool-cases (Dict.has ref catalog)) [
  | inl h ↦ rw h (connect-IsStep from ref rel _ g)
  | inr h ↦ rw h (IsStep-refl from g)
]

link_if_set-IsStep :
    (catalog : Catalog) (from rel ref : Str) (g : DepGraph)
    → IsStep from g (link_if_set catalog from rel ref g)
unfolding link_if_set
link_if_set-IsStep catalog from rel [] g = IsStep-refl from g
link_if_set-IsStep catalog from rel (c ∷ ref) g = link-IsStep catalog from rel (c ∷ ref) g

link_all-IsStep :
    (catalog : Catalog) (from rel : Str) (refs : List Str) (g : DepGraph)
    → IsStep from g (link_all catalog from rel refs g)
unfolding link_all
link_all-IsStep catalog from rel refs g =
    each-IsStep from _ (λ ref. link-IsStep catalog from rel (first_field ref)) refs g

add_resource_edges-IsStep :
    (u : UnitRecord) (catalog : Catalog) (g : DepGraph)
    → IsStep u.filename g (add_resource_edges u catalog g)
unfolding add_resource_edges
add_resource_edges-IsStep u catalog g =
    let f = u.filename in
    IsStep-trans f (link_if_set-IsStep catalog f _ _ g) (
      IsStep-trans f (link_if_set-IsStep catalog f _ _ _) (
        IsStep-trans f (link_all-IsStep catalog f _ _ _)
          (IsStep-trans f (link_all-IsStep catalog f _ _ _) (link_all-IsStep catalog f _ _ _))))

pub add_edges_of-IsStep :
    (services : Dict Str Str) (catalog : Catalog) (u : UnitRecord) (g : DepGraph)
    → IsStep u.filename g (add_edges_of services catalog u g)
unfolding add_edges_of
add_edges_of-IsStep services catalog u g =
    IsStep-trans u.filename (add_unit_edges-IsStep u services catalog g)
      (add_resource_edges-IsStep u catalog (add_unit_edges u services catalog g))
