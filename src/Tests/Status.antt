-- ===== src/Tests/Status.antt =====
-- The status of a project with a unit that waits for a failed one.
use creidhne.Base.{
  ◌≡◌, refl, Bool, true, false, all, none, some, List, [], ◌∷◌, All, list_eq, nat_eq, list_beq,
  contains,
}
use creidhne.Base.Str.{Str, str}
use creidhne.Base.Dict
use creidhne.Base.Dict.{Dict}
use creidhne.Eval.Data.{Value, Items, Fields, UnitRecord, Quadlet}
use creidhne.State.Types.{FileInput}
use creidhne.State.Build.{build}
use creidhne.Systemd.Show.{UnitStatus}
use creidhne.Status.Label
use creidhne.Status.Input.{StatusInput, filter_status_input}
use creidhne.Status.Input.Filter.{Outcome, filter_status_input-Outcome}
use creidhne.Status.Rows.{desired_hashes}
use creidhne.Status.Blocked.{walk, adj_at, total, first_failed_dep, classify_rows}
use creidhne.Status.Blocked.Walk.{Found, first_failed_dep-Found}
use creidhne.Status.Blocked.Cause.{Explained, classify_rows-Explained}
use creidhne.Status.Rows.Rendered.{rendered}
use creidhne.Status.Rows.Shown.{paths_of}
use creidhne.Status.Rows.Content.{content_in, hashed, desired_hashes-hashed}
use creidhne.Status.Applied.{IsApplied, classify_rows-synced}

abbrev adj : Dict Str (List Str)
adj = (str "web", str "net" ∷ str "web" ∷ []) ∷ (str "net", str "web" ∷ str "img" ∷ []) ∷ []

abbrev failed : Dict Str Bool
failed = (str "img", true) ∷ []

first_failed_dep-Found_example :
    (r : Str) × (first_failed_dep (str "web") adj failed ≡ some r) × Found adj failed (str "web") r
first_failed_dep-Found_example = first_failed_dep-Found (str "web") adj failed

nearest : first_failed_dep (str "web") adj failed ≡ some (str "img")
unfolding first_failed_dep walk adj_at total Dict.has Dict.lookup Dict.insert list_beq
nearest = refl

abbrev unit_of : Str → Str → Fields → UnitRecord
unit_of filename service fields = record {
  kind = str "container";
  stem = [];
  filename = filename;
  service = service;
  unit_data = fields;
}

abbrev requires_db : Fields
requires_db =
    Fields.field (str "Unit")
      (Value.dict (
        Fields.field (str "Requires")
          (Value.list (Items.cons (Value.text (str "db.service")) Items.nil)) Fields.end))
      Fields.end

abbrev units : List Quadlet
units =
    record {
      name = str "app";
      units =
          unit_of (str "web.container") (str "web.service") requires_db
          ∷ unit_of (str "db.container") (str "db.service") Fields.end
          ∷ [];
    }
    ∷ []

abbrev status_of : Str → Str → UnitStatus
status_of name active = record {
  name = name;
  load_state = str "loaded";
  active_state = active;
  sub_state = [];
  need_daemon_reload = false;
  active_enter = 0;
  inactive_exit = 0;
  result = [];
}

abbrev runtime : Dict Str UnitStatus
runtime =
    (str "web.service", status_of (str "web.service") (str "inactive"))
    ∷ (str "db.service", status_of (str "db.service") (str "failed"))
    ∷ []

abbrev files : Dict Str (Dict Str FileInput)
files =
    (
      str "app",
      (str "web.container", record { content = str "[Container]"; mode = [] })
          ∷ (str "db.container", record { content = str "[Unit]"; mode = [] })
          ∷ [],
    )
    ∷ []

abbrev same_text : Str → Str
same_text s = s

abbrev project : StatusInput
project = record {
  desired = some files;
  desired_units = units;
  all_units = [];
  recorded = some (build same_text 5 (str "1.0") none units files);
  disk = desired_hashes same_text files [];
  runtime = some runtime;
  now = 9;
}

classify_rows-Explained_example : All (Explained project runtime) (classify_rows same_text project)
classify_rows-Explained_example = classify_rows-Explained same_text project runtime refl refl

written : (p : Str) → Dict.lookup p project.disk ≡ hashed same_text (content_in p files)
unfolding Dict.keys contains list_beq all
written p = desired_hashes-hashed same_text p files refl

project-IsApplied : IsApplied same_text 5 project
unfolding Dict.keys contains list_beq all
project-IsApplied = record {
  desired = files;
  prev = none;
  crei_version = str "1.0";
  quads = units;
  evaluated = refl;
  recorded = refl;
  single = refl;
  written = written;
}

classify_rows-synced_example :
    ((p : Str) → contains (paths_of (classify_rows same_text project)) p ≡ rendered p files)
    × All (λ r. r.disk ≡ Label.synced) (classify_rows same_text project)
classify_rows-synced_example = classify_rows-synced same_text 5 project project-IsApplied

filter_status_input-Outcome_example :
    Outcome project
      (str "app" ∷ str "gone" ∷ [])
      (filter_status_input project (str "app" ∷ str "gone" ∷ []))
filter_status_input-Outcome_example =
    filter_status_input-Outcome project (str "app" ∷ str "gone" ∷ [])
