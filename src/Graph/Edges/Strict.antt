-- ===== src/Graph/Edges/Strict.antt =====
-- The sorted edges are those of the graph, each once.
use mathlib.Core.Path.{subst}
use creidhne.Base.{
  ◌≡◌, refl, sym, ◌∙◌, true, false, ◌||◌, ◌==◌, List, [], ◌∷◌, beq→eq, contains, is_distinct, inl,
  inr, arith, Bool-cases,
}
use creidhne.Base.Order.{sort, below_all, is_sorted, sort-is_sorted, contains-sort}
use creidhne.Graph.Types.{GraphEdge, DepGraph}
use creidhne.Graph.Edges.{
  edge_eq_iff, edge_le, edge_le_antisymm, edge_has_eq, edge_order, drop_repeated, drop_duplicates,
  sorted_edges,
}

below_all-contains :
    (e x : GraphEdge) (es : List GraphEdge)
    → below_all e es ≡ true
    → contains es x ≡ true
    → edge_le e x ≡ true
unfolding contains
below_all-contains e x [] h m = absurd (cc m)
below_all-contains e x (y ∷ es) h m = elim (Bool-cases (x == y)) [
  | inl same ↦ subst (λ z. edge_le e z ≡ true) (sym (beq→eq {a = x} {b = y} same)) (ground arith)
  | inr other ↦ below_all-contains e x es (ground arith) (ground arith)
]

-- The edges are kept, up to the one that stands before them.
contains-drop_repeated :
    (last x : GraphEdge) (es : List GraphEdge)
    → (x == last || contains (drop_repeated last es) x) ≡ (x == last || contains es x)
unfolding drop_repeated contains
contains-drop_repeated last x [] = refl
contains-drop_repeated last x (e ∷ es) = elim (Bool-cases (last == e)) [
  | inl same ↦
      rw (same, beq→eq {a = last} {b = e} same) (ground (arith, contains-drop_repeated e x es))
  | inr other ↦ rw other (ground (arith, contains-drop_repeated e x es))
]

drop_repeated-absent :
    (last : GraphEdge) (es : List GraphEdge)
    → below_all last es ≡ true
    → is_sorted es ≡ true
    → contains (drop_repeated last es) last ≡ false
unfolding drop_repeated contains
drop_repeated-absent last [] h k = refl
drop_repeated-absent last (e ∷ es) h k = elim (Bool-cases (last == e)) [
  | inl same ↦
      rw (same, beq→eq {a = last} {b = e} same)
        (drop_repeated-absent e es (ground arith) (ground arith))
  | inr other ↦ elim (Bool-cases (contains (drop_repeated e es) last)) [
    | inl found ↦
        (let later = contains-drop_repeated e last es in
          let above = below_all-contains e last es (ground arith) (ground arith) in
          let eq = edge_le_antisymm last e (ground arith) above in
          absurd (cc (sym other ∙ (edge_eq_iff last e).1 eq)))
    | inr absent ↦ rw (other, other, absent) refl
  ]
]

drop_repeated-is_distinct :
    (last : GraphEdge) (es : List GraphEdge)
    → is_sorted es ≡ true
    → is_distinct (drop_repeated last es) ≡ true
unfolding drop_repeated
drop_repeated-is_distinct last [] k = refl
drop_repeated-is_distinct last (e ∷ es) k =
    let rest = drop_repeated-is_distinct e es (ground arith) in
    let absent = drop_repeated-absent e es (ground arith) (ground arith) in
    elim (Bool-cases (last == e)) [ inl same ↦ rw same rest | inr other ↦ rw (other, absent) rest ]

drop_duplicates-is_distinct :
    (es : List GraphEdge) → is_sorted es ≡ true → is_distinct (drop_duplicates es) ≡ true
unfolding drop_duplicates
drop_duplicates-is_distinct [] k = refl
drop_duplicates-is_distinct (e ∷ es) k =
    rw (drop_repeated-absent e es (ground arith) (ground arith))
      (drop_repeated-is_distinct e es (ground arith))

contains-drop_duplicates :
    (x : GraphEdge) (es : List GraphEdge) → contains (drop_duplicates es) x ≡ contains es x
unfolding drop_duplicates contains
contains-drop_duplicates x [] = refl
contains-drop_duplicates x (e ∷ es) = contains-drop_repeated e x es

-- The sorted edges of a graph hold each of its edges exactly once and nothing else.
pub sorted_edges-is_distinct :
    (g : DepGraph)
    → (is_distinct (sorted_edges g) ≡ true)
      × ((e : GraphEdge) → contains (sorted_edges g) e ≡ contains g.edges e)
unfolding sorted_edges
sorted_edges-is_distinct g = (
  drop_duplicates-is_distinct (sort g.edges) (sort-is_sorted g.edges),
  λ e. contains-drop_duplicates e (sort g.edges) ∙ contains-sort e g.edges,
)
