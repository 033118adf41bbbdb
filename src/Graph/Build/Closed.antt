-- ===== src/Graph/Build/Closed.antt =====
-- The graph has no dangling edge.
use creidhne.Base.{◌≡◌, refl, List, [], ◌∷◌, list_eq, nat_eq, beq_refl, In, All}
use mathlib.Core.Path.{subst}
use creidhne.Base.Str.{Str}
use creidhne.Base.Dict
use creidhne.Base.Dict.{Dict}
use creidhne.Eval.Data.{UnitRecord, Quadlet}
use creidhne.Graph.Types.{DepGraph}
use creidhne.Graph.Build.{
  Catalog, each, node_at, each_unit, catalog_of, services_of, add_node, add_edges_of, build_graph,
}
use creidhne.Graph.Build.Steps.{HasNode, IsClosed, insert-keeps, add_edges_of-IsStep}

abbrev Keeps : DepGraph → DepGraph → Type 0
Keeps g g' = (id : Str) → HasNode g id → HasNode g' id

-- A property of a graph and an element that no new node ends.
abbrev Lasts : {A : Type 0} → (DepGraph → A → Type 0) → A → Type 0
Lasts P x = (g g' : DepGraph) → Keeps g g' → P g x → P g' x

All-Lasts :
    {A : Type 0} (P : DepGraph → A → Type 0)
    → ((x : A) → Lasts P x)
    → (xs : List A) → Lasts (λ g. All (P g)) xs
All-Lasts P lasts [] g g' keeps h = tt
All-Lasts P lasts (x ∷ xs) g g' keeps (h, hs) =
    (lasts x g g' keeps h, All-Lasts P lasts xs g g' keeps hs)

-- A round that adds nodes: it has no edges to add, and `x` has the property from then on.
record IsPlacing (goal : DepGraph → Type 0) (g g' : DepGraph) : Type 0 where
  keeps : Keeps g g'
  placed : goal g'
  bare : g.edges ≡ [] → g'.edges ≡ []

each-IsPlacing :
    {A : Type 0} (P : DepGraph → A → Type 0) (body : A → DepGraph → DepGraph)
    → ((x : A) → Lasts P x)
    → ((x : A) (g : DepGraph) → IsPlacing (λ g'. P g' x) g (body x g))
    → (xs : List A) (g : DepGraph) → IsPlacing (λ g'. All (P g') xs) g (each body xs g)
unfolding each
each-IsPlacing P body lasts step [] g = record { keeps = λ id h. h; placed = tt; bare = λ h. h }
each-IsPlacing P body lasts step (x ∷ xs) g =
    let first = step x g in
    let rest = each-IsPlacing P body lasts step xs (body x g) in
    record {
      keeps = λ id h. rest.keeps id (first.keeps id h);
      placed = (lasts x (body x g) _ rest.keeps first.placed, rest.placed);
      bare = λ h. rest.bare (first.bare h);
    }

-- A loop whose rounds keep the graph closed while `P` holds of their element.
record IsClosing (g g' : DepGraph) : Type 0 where
  keeps : Keeps g g'
  closes : IsClosed g → IsClosed g'

each-IsClosing :
    {A : Type 0} (P : DepGraph → A → Type 0) (body : A → DepGraph → DepGraph)
    → ((x : A) → Lasts P x)
    → ((x : A) (g : DepGraph) → P g x → IsClosing g (body x g))
    → (xs : List A) (g : DepGraph) → All (P g) xs
    → IsClosing g (each body xs g)
unfolding each
each-IsClosing P body lasts step [] g h = record { keeps = λ id k. k; closes = λ c. c }
each-IsClosing P body lasts step (x ∷ xs) g (h, hs) =
    let first = step x g h in
    let later = All-Lasts P lasts xs g (body x g) first.keeps hs in
    let rest = each-IsClosing P body lasts step xs (body x g) later in
    record {
      keeps = λ id k. rest.keeps id (first.keeps id k);
      closes = λ c. rest.closes (first.closes c);
    }

abbrev UnitPlaced : DepGraph → UnitRecord → Type 0
UnitPlaced g u = HasNode g u.filename

abbrev QuadletPlaced : DepGraph → Quadlet → Type 0
QuadletPlaced g q = All (UnitPlaced g) q.units

UnitPlaced-Lasts : (u : UnitRecord) → Lasts UnitPlaced u
UnitPlaced-Lasts u g g' keeps h = keeps u.filename h

QuadletPlaced-Lasts : (q : Quadlet) → Lasts QuadletPlaced q
QuadletPlaced-Lasts q = All-Lasts UnitPlaced UnitPlaced-Lasts q.units

add_node-IsPlacing :
    (catalog : Catalog) (u : UnitRecord) (g : DepGraph)
    → IsPlacing (λ g'. UnitPlaced g' u) g (add_node catalog u g)
unfolding add_node
add_node-IsPlacing catalog u g = record {
  keeps = insert-keeps u.filename _ g;
  placed = rw (
    Dict.has-insert u.filename u.filename (node_at catalog u.filename) g.nodes,
    beq_refl u.filename,
  );
  bare = λ h. h;
}

nodes-IsPlacing :
    (catalog : Catalog) (focus : List Quadlet) (g : DepGraph)
    → IsPlacing (λ g'. All (QuadletPlaced g') focus) g (each_unit (λ q. add_node catalog) focus g)
unfolding each_unit
nodes-IsPlacing catalog focus g =
    each-IsPlacing QuadletPlaced _ QuadletPlaced-Lasts
      (λ q. each-IsPlacing UnitPlaced _ UnitPlaced-Lasts (add_node-IsPlacing catalog) q.units) focus
      g

edges-IsClosing :
    (services : Dict Str Str) (catalog : Catalog) (focus : List Quadlet) (g : DepGraph)
    → All (QuadletPlaced g) focus
    → IsClosing g (each_unit (λ q. add_edges_of services catalog) focus g)
unfolding each_unit
edges-IsClosing services catalog focus g h =
    each-IsClosing QuadletPlaced _ QuadletPlaced-Lasts
      (λ q.
        each-IsClosing UnitPlaced _ UnitPlaced-Lasts
          (λ u g' here.
            (let s = add_edges_of-IsStep services catalog u g' in
              record { keeps = s.keeps; closes = s.closes here }))
          q.units)
      focus g h

-- Both ends of every edge of a graph are nodes of it, also where the focus is a part of the
-- project and an edge leads to a unit outside, or to an external one.
pub build_graph-IsClosed : (focus all : List Quadlet) → IsClosed (build_graph focus all)
unfolding build_graph
build_graph-IsClosed focus all =
    let start : DepGraph = record { nodes = []; edges = [] } in
    let placing = nodes-IsPlacing (catalog_of all) focus start in
    (edges-IsClosing (services_of all) (catalog_of all) focus _ placing.placed).closes
      (record { ends = λ e m. absurd (subst (In e) (placing.bare refl) m) })
