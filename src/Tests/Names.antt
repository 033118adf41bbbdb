-- ===== src/Tests/Names.antt =====
-- The uniqueness checks on two quadlets, and the variables of a compose file.
use creidhne.Base.{
  ◌↔◌, ok, is_distinct, ◌++◌, ◌≡◌, refl, true, none, some, List, [], ◌∷◌, list_eq, nat_eq, list_beq,
  any,
}
use creidhne.Base.Str.{Str, str}
use creidhne.Base.Dict
use creidhne.Eval.Data.{UnitRecord, Quadlet, Fields}
use creidhne.Eval.Unique.{
  check_unique_filenames, check_unique_services, filenames_of, services_of,
  check_unique_filenames_iff, check_unique_services_iff,
}
use creidhne.Importer.Vars.{fields, new_env_set}
use creidhne.Importer.Tokens.{plain, parse_var_token}
use creidhne.Importer.Tokens.Printed.{braces, with_default, parse_var_token-braces_forms}
use creidhne.Importer.Vars.Defaults.{Occurrences, record_all, record_all-common_default}

container : Str → UnitRecord
container stem = record {
  kind = str "container";
  stem = stem;
  filename = stem;
  service = stem;
  unit_data = Fields.end;
}

abbrev quads : List Quadlet
quads =
    record { name = str "web"; units = container (str "app") ∷ container (str "db") ∷ [] }
    ∷ record { name = str "mail"; units = container (str "app") ∷ [] }
    ∷ []

abbrev occurrences : Occurrences
occurrences =
    (str "TAG", some (str "latest"))
    ∷ (str "HOST", none)
    ∷ (str "TAG", some (str "edge"))
    ∷ (str "HOST", some (str "localhost"))
    ∷ []

record_all-common_default_example :
    Dict.lookup (str "TAG") (fields (record_all occurrences new_env_set))
    ≡ some (some (str "latest"))
unfolding list_beq any
record_all-common_default_example = record_all-common_default (str "TAG") occurrences refl

parse_var_token-braces_forms_example :
    (parse_var_token (braces (str "TAG" ++ (str ":-" ++ str "1.2")))
      ≡ with_default (str "TAG") (str "1.2"))
    × (parse_var_token (braces (str "TAG" ++ (str "-" ++ str "1.2")))
        ≡ with_default (str "TAG") (str "1.2"))
    × (parse_var_token (braces (str "TAG" ++ (str ":+" ++ str "1.2")))
        ≡ record (plain (str "TAG")) { alt = true })
    × (parse_var_token (braces (str "TAG" ++ [])) ≡ plain (str "TAG"))
    × (parse_var_token (braces (str "TAG" ++ (str ":?" ++ str "1.2"))) ≡ plain (str "TAG"))
unfolding any
parse_var_token-braces_forms_example = parse_var_token-braces_forms (str "TAG") (str "1.2") refl

check_unique_filenames_iff_example :
    (check_unique_filenames quads ≡ ok tt) ↔ (is_distinct (filenames_of quads) ≡ true)
check_unique_filenames_iff_example = check_unique_filenames_iff quads

check_unique_services_iff_example :
    (check_unique_services quads ≡ ok tt) ↔ (is_distinct (services_of quads) ≡ true)
check_unique_services_iff_example = check_unique_services_iff quads
