-- ===== src/Tests/Wiring.antt =====
-- A project with a proxy network, an orphan, and the units that attach them.
use creidhne.Base.{
  false, ◌≡◌, refl, ◌⊎◌, ◌↔◌, true, List, [], ◌∷◌, list_eq, nat_eq, list_beq, contains, all,
}
use creidhne.Base.Str.{Str, str, has_suffix, cut_byte}
use creidhne.Eval.Data.{Value, Fields, Items, UnitRecord, Quadlet, get_field}
use creidhne.Eval.Access.{top_list, to_strings}
use creidhne.Graph.Build.{first_field, resource_strings}
use creidhne.Lint.Wiring.{wiring, pair_findings, orphan_findings, has_marker}
use creidhne.Lint.Wiring.Scanned.{refs_of, is_used_by, has_plain_refs}
use creidhne.Lint.Wiring.Reported.{orphan_findings-wiring}
use creidhne.Lint.Wiring.Markers.{is_marked}
use creidhne.Lint.Wiring.Paired.{IsWired, pair_findings-wiring}

abbrev texts : Str → Str → Fields
texts key s = Fields.field key (Value.list (Items.cons (Value.text s) Items.nil)) Fields.end

abbrev unit : Str → Str → Fields → UnitRecord
unit kind filename fields = record {
  kind = kind;
  stem = filename;
  filename = filename;
  service = [];
  unit_data = fields;
}

abbrev net : UnitRecord
net =
    unit (str "network") (str "web.network") (texts (str "labelStrings") (str "creidhne.pair=web"))

abbrev lone : UnitRecord
lone = unit (str "network") (str "lone.network") Fields.end

abbrev server : UnitRecord
server =
    unit (str "container") (str "web.container")
      (texts (str "networkStrings") (str "web.network:alias=w"))

abbrev proxy : UnitRecord
proxy =
    unit (str "container") (str "proxy.container")
      (texts (str "networkStrings") (str "web.network"))

abbrev project : List Quadlet
project =
    record { name = str "web"; units = net ∷ lone ∷ server ∷ [] }
    ∷ record { name = str "proxy"; units = proxy ∷ [] }
    ∷ []

orphan_findings-wiring_example : (orphan_findings (wiring project) lone ≡ []) ↔ (
    (has_marker (top_list lone.unit_data (str "labelStrings")) ≡ true)
    ⊎ ((user : Str) × (is_used_by project lone.filename user ≡ true)))
unfolding has_plain_refs all refs_of resource_strings top_list to_strings get_field first_field
    cut_byte contains list_beq has_suffix
orphan_findings-wiring_example = orphan_findings-wiring project lone refl refl refl

pair_findings-wiring_example : (pair_findings (wiring project) net ≡ []) ↔ (
    (is_marked (top_list net.unit_data (str "labelStrings")) ≡ false)
    ⊎ IsWired project net.filename)
unfolding has_plain_refs all refs_of resource_strings top_list to_strings get_field first_field
    cut_byte contains list_beq has_suffix
pair_findings-wiring_example = pair_findings-wiring project net refl refl refl
