-- ===== src/Lint/Wiring.antt =====
-- The project graph of `graphRuleFindings`, and its rules on networks (internal/cli/graphrules.go).
pub mod Attachers
pub mod Scanned
pub mod Reported
pub mod Owners
pub mod Markers
pub mod Paired
use creidhne.Base.{
  select, Bool, true, false, not, ◌||◌, Option, none, some, List, [], ◌∷◌, ◌++◌, ◌==◌, list_eq,
  nat_eq, is_nil, length, ltb, contains, if◌then◌else◌,
}
use creidhne.Base.Str.{Str, str, cut_prefix, has_prefix, has_suffix, join}
use creidhne.Base.Text.{itoa}
use creidhne.Base.Dict
use creidhne.Base.Dict.{Dict}
use creidhne.Eval.Data.{UnitRecord, Quadlet}
use creidhne.Eval.Access.{top_list, nested_list}
use creidhne.Graph.Build.{each, each_unit, first_field, resource_strings}
use creidhne.Lint.Levels.{RuleFinding}

abbrev pub pair_marker_prefix : Str
pair_marker_prefix = str "creidhne.pair="

-- `attached` is a set of keys `network|unit`.
pub record Wiring : Type 0 where
  pub networks : List UnitRecord
  pub attachable : List UnitRecord
  pub attachers : Dict Str (List Str)
  pub attached : List Str
  pub owner : Dict Str Str

abbrev pub or_empty : Option (List Str) → List Str
or_empty none = []
or_empty (some units) = units

-- `attachers[ref]`
unfoldable pub attachers_at : Str → Wiring → List Str
attachers_at ref w = or_empty (Dict.lookup ref w.attachers)

abbrev pub attach_key : Str → Str → Str
attach_key ref unit = ref ++ str "|" ++ unit

-- The closure `attach`.
unfoldable pub attach : Str → Str → Wiring → Wiring
attach unit ref w =
    if not (has_suffix ref (str ".network")) || contains w.attached (attach_key ref unit)
    then w
    else record w {
      attached = attach_key ref unit ∷ w.attached;
      attachers = Dict.insert ref (attachers_at ref w ++ unit ∷ []) w.attachers;
    }

unfoldable pub attach_all : Str → List Str → Wiring → Wiring
attach_all unit refs w = each (λ ref. attach unit (first_field ref)) refs w

abbrev pub is_attachable : Str → Bool
is_attachable kind = kind == str "container" || kind == str "pod"

-- The body of the loops over all units.
unfoldable pub scan_unit : Quadlet → UnitRecord → Wiring → Wiring
scan_unit q u w =
    let w1 : Wiring = record w { owner = Dict.insert u.filename q.name w.owner } in
    let listed : Wiring = record w1 { attachable = w1.attachable ++ u ∷ [] } in
    if u.kind == str "network"
    then record w1 { networks = w1.networks ++ u ∷ [] }
    else if is_attachable u.kind
    then attach_all u.filename (resource_strings u (str "networkStrings")) listed
    else if u.kind == str "kube"
    then attach_all u.filename (nested_list u.unit_data (str "Kube") (str "Network")) w1
    else w1

abbrev pub unwired : Wiring
unwired = record { networks = []; attachable = []; attachers = []; attached = []; owner = [] }

unfoldable pub wiring : List Quadlet → Wiring
wiring all = each_unit scan_unit all unwired

abbrev pub finding : Str → Str → Str → RuleFinding
finding rule unit message = record { rule = rule; unit = unit; severity = []; message = message }

-- The value of the last label that is a pair marker.
unfoldable pub pair_in : Str → List Str → Str
pair_in pair [] = pair
pair_in pair (l ∷ labels) = elim (cut_prefix l pair_marker_prefix) [
  | none ↦ pair_in pair labels
  | some v ↦ pair_in v labels
]

unfoldable pub pair_of : UnitRecord → Str
pair_of n = pair_in [] (top_list n.unit_data (str "labelStrings"))

-- `owner[unit]`, the empty text for a missing key
abbrev pub owner_of : Option Str → Str
owner_of none = []
owner_of (some q) = q

unfoldable pub same_owner : Wiring → Str → Str → Bool
same_owner w a b = owner_of (Dict.lookup a w.owner) == owner_of (Dict.lookup b w.owner)

-- The attachers that are units of the owning quadlet, and the others.
unfoldable pub internal_of : Wiring → Str → List Str
internal_of w net = select (λ at. same_owner w at net) (attachers_at net w)

unfoldable pub external_of : Wiring → Str → List Str
external_of w net = select (λ at. not (same_owner w at net)) (attachers_at net w)

-- The `switch`, on the attachers from outside and from inside of the quadlet.
unfoldable pub pair_findings_of : Str → Str → List Str → List Str → List RuleFinding
pair_findings_of pair unit external internal =
    if ltb 1 (length external)
    then finding (str "graph/pair-cardinality") unit (
        str "pair network (creidhne.pair="
        ++ pair
        ++ str ") has "
        ++ itoa (length external)
        ++ str " external attachers ("
        ++ join external (str ", ")
        ++ str "); the contract allows exactly one, the proxy")
      ∷ []
    else if is_nil external
    then finding (str "graph/pair-unwired") unit (
        str "pair network (creidhne.pair="
        ++ pair
        ++ str ") has no external attacher; the proxy is not wired yet")
      ∷ []
    else if is_nil internal
    then finding (str "graph/pair-unwired") unit (
        str "pair network (creidhne.pair="
        ++ pair
        ++ str ") has no in-quadlet attacher; nothing serves behind the proxy")
      ∷ []
    else []

unfoldable pub pair_findings : Wiring → UnitRecord → List RuleFinding
pair_findings w n =
    if is_nil (pair_of n)
    then []
    else pair_findings_of (pair_of n) n.filename (external_of w n.filename)
        (internal_of w n.filename)

unfoldable pub has_marker : List Str → Bool
has_marker [] = false
has_marker (l ∷ labels) = has_prefix l pair_marker_prefix || has_marker labels

unfoldable pub orphan_findings : Wiring → UnitRecord → List RuleFinding
orphan_findings w n =
    if has_marker (top_list n.unit_data (str "labelStrings"))
    then []
    else if is_nil (attachers_at n.filename w)
    then finding (str "graph/orphan-network") n.filename
        (str "no container or pod in the project attaches this network")
      ∷ []
    else []
