-- ===== src/Tests/Rules.antt =====
-- The image and name rules on a small project.
use creidhne.Base.{◌≡◌, true, ◌↔◌, none, List, [], ◌∷◌, list_eq, nat_eq, is_distinct}
use creidhne.Base.Str.{str}
use creidhne.Eval.Data.{Value, Fields, UnitRecord, Quadlet, ImageEntry}
use creidhne.Registry.Reference.{Names}
use creidhne.Lint.Images.{Printer}
use creidhne.Lint.Names.{duplicate_findings}
use creidhne.Lint.Names.Claimed.{container_names, pod_names}
use creidhne.Lint.Names.Unique.{duplicate_findings-none}

abbrev printer : Printer
printer = record { quote = λ s. s; error_text = λ e. [] }

abbrev names : Names
names = record { is_repository = λ s. true; is_tag = λ s. true; is_digest = λ s. true }

abbrev entry : ImageEntry
entry = record {
  key = str "nginx";
  image = str "docker.io/library/nginx:1";
  digest = [];
  min_age = [];
  range = [];
  lock = none;
}

abbrev web : UnitRecord
web = record {
  kind = str "container";
  stem = str "web";
  filename = str "web.container";
  service = [];
  unit_data =
      Fields.field (str "imageString") (Value.text (str "docker.io/library/nginx:1")) Fields.end;
}

abbrev pod : UnitRecord
pod = record {
  kind = str "pod";
  stem = str "web";
  filename = str "web.pod";
  service = [];
  unit_data = Fields.end;
}

abbrev project : List Quadlet
project = record { name = str "web"; units = web ∷ pod ∷ [] } ∷ []

duplicate_findings-none_example : (duplicate_findings printer (web ∷ pod ∷ []) ≡ []) ↔ (
    (is_distinct (container_names (web ∷ pod ∷ [])) ≡ true)
    × (is_distinct (pod_names (web ∷ pod ∷ [])) ≡ true))
duplicate_findings-none_example = duplicate_findings-none printer (web ∷ pod ∷ [])
