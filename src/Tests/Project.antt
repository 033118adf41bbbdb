-- ===== src/Tests/Project.antt =====
-- The graph and the lint levels of a small project.
use creidhne.Base.{
  false, any, ◌&&◌, is_distinct, true, ◌≡◌, refl, not, List, [], ◌∷◌, ok, list_eq, list_beq, nat_eq,
  contains,
}
use creidhne.Base.Str.{Str, str}
use creidhne.Base.Dict
use creidhne.Base.Dict.{Dict}
use creidhne.Eval.Data.{Value, Items, Fields, Quadlet}
use creidhne.Graph.Types.{GraphEdge}
use creidhne.Graph.Build.{build_graph}
use creidhne.Graph.Edges.{sorted_edges, edge_has_eq}
use creidhne.Graph.Reduce.{reduce_graph}
use creidhne.Graph.Reduce.Visible.{touches, touches_otherwise, reduce_graph-visible}
use creidhne.Graph.Edges.Strict.{sorted_edges-is_distinct}
use creidhne.Graph.Build.Closed.{build_graph-IsClosed}
use creidhne.Graph.Build.Steps.{IsClosed}
use creidhne.Lint.Levels.{
  LintLevels, RuleFinding, rule_defaults, override, override_all, levels_of, new_lint_levels,
}
use creidhne.Lint.Levels.Merged.{IsMerged, new_lint_levels-IsMerged}

abbrev after : Fields
after =
    Fields.field (str "After")
      (Value.list (
        Items.cons (Value.text (str "db.service"))
          (Items.cons (Value.text (str "network-online.target")) Items.nil)))
      Fields.end

abbrev app : Quadlet
app = record {
  name = str "app";
  units =
      record {
        kind = str "container";
        stem = str "app";
        filename = str "app.container";
        service = str "app.service";
        unit_data = Fields.field (str "Unit") (Value.dict after) Fields.end;
      }
      ∷ [];
}

abbrev db : Quadlet
db = record {
  name = str "db";
  units =
      record {
        kind = str "container";
        stem = str "db";
        filename = str "db.container";
        service = str "db.service";
        unit_data = Fields.end;
      }
      ∷ [];
}

build_graph-IsClosed_example : IsClosed (build_graph (app ∷ []) (app ∷ db ∷ []))
build_graph-IsClosed_example = build_graph-IsClosed (app ∷ []) (app ∷ db ∷ [])

abbrev overrides : Dict Str Str
overrides = (str "graph/orphan-network", str "off") ∷ (str "image/unpinned", str "error") ∷ []

abbrev levels : LintLevels
levels =
    Dict.insert (str "image/unpinned") (str "error")
      (Dict.insert (str "graph/orphan-network") (str "off") rule_defaults)

merged : new_lint_levels overrides ≡ ok levels
unfolding new_lint_levels override_all override levels_of Dict.has Dict.lookup rule_defaults
    Dict.insert list_beq
merged = refl

new_lint_levels-IsMerged_example : IsMerged overrides rule_defaults levels
unfolding Dict.keys list_beq contains
new_lint_levels-IsMerged_example = new_lint_levels-IsMerged overrides levels refl merged

abbrev findings : List RuleFinding
findings =
    record {
      rule = str "graph/orphan-network";
      unit = str "lan.network";
      severity = [];
      message = str "no unit attaches";
    }
    ∷ record {
      rule = str "image/unpinned";
      unit = str "app";
      severity = [];
      message = str "no digest";
    }
    ∷ []

sorted_edges-is_distinct_example :
    let g = build_graph (app ∷ []) (app ∷ db ∷ []) in
    (is_distinct (sorted_edges g) ≡ true)
    × ((e : GraphEdge) → contains (sorted_edges g) e ≡ contains g.edges e)
sorted_edges-is_distinct_example = sorted_edges-is_distinct (build_graph (app ∷ []) (app ∷ db ∷ []))

reduce_graph-visible_example :
    let g = build_graph (app ∷ []) (app ∷ db ∷ []) in
    let id = str "db.container" in
    let r = reduce_graph g in
    (Dict.has id r.visible
      ≡ (Dict.has id g.nodes && (not (Dict.has id r.hidden_builds) && not (contains r.orphans id))))
    × (contains r.orphans id ≡ (Dict.has id g.nodes && not (any (touches id) g.edges)))
    × ((Dict.has id r.hidden_builds && any (touches_otherwise id) g.edges) ≡ false)
reduce_graph-visible_example =
    reduce_graph-visible (build_graph (app ∷ []) (app ∷ db ∷ [])) (str "db.container")
