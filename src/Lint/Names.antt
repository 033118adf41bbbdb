-- ===== src/Lint/Names.antt =====
-- The rule of `graphRuleFindings` on runtime names (internal/cli/graphrules.go).
pub mod Claimed
pub mod Unique
use mathlib.Core.List.{reverse}
use creidhne.Base.{
  ℕ, suc, Bool, true, false, not, ◌||◌, ◌&&◌, Option, none, some, List, [], ◌∷◌, ◌++◌, ◌==◌,
  list_eq, nat_eq, is_nil, length, ltb, if◌then◌else◌,
}
use creidhne.Base.Str.{Str, str, has_prefix, trim_prefix, join}
use creidhne.Base.Text.{fields}
use creidhne.Base.Order.{sort, str_order}
use creidhne.Base.Dict
use creidhne.Base.Dict.{Dict}
use creidhne.Eval.Data.{Value, Fields, Items, UnitRecord, get_field}
use creidhne.Eval.Access.{as_fields, as_text}
use creidhne.Lint.Levels.{RuleFinding}
use creidhne.Lint.Wiring.{finding, or_empty}
use creidhne.Lint.Images.{Printer}

unfoldable pub nested_str : Fields → Str → Str → Str
nested_str unit_data section key = elim (as_fields (get_field unit_data section)) [
  | none ↦ []
  | some inner ↦ as_text (get_field inner key)
]

unfoldable mutual
  pub flatten_args : Value → List Str
  flatten_args (Value.text s) = fields s
  flatten_args (Value.list items) = flatten_items items
  flatten_args _ = []

  pub flatten_items : Items → List Str
  flatten_items Items.nil = []
  flatten_items (Items.cons v items) = flatten_args v ++ flatten_items items

-- One layer of matching quotes around the text.
abbrev unquoted : ℕ → Str → Str → Str
unquoted c [] s = s
unquoted c (d ∷ inner) s = if (c == b'"' || c == b'\'') && d == c then reverse inner else s

unfoldable pub trim_quotes : Str → Str
trim_quotes [] = []
trim_quotes (c ∷ s) = unquoted c (reverse s) (c ∷ s)

-- The name of the infra container so far, and whether there is one.
abbrev pub Infra : Type 0
Infra = Str × Bool

unfoldable pub infra_step : Str → Str → Infra → Infra
infra_step a next (name, enabled) =
    if a == str "--infra=false" || a == str "--no-infra"
    then (name, false)
    else if a == str "--infra=true" || (a == str "--infra" && not (next == str "false"))
    then (name, true)
    else if a == str "--infra" && next == str "false"
    then (name, false)
    else if has_prefix a (str "--infra-name=")
    then (trim_quotes (trim_prefix a (str "--infra-name=")), enabled)
    else if a == str "--infra-name" && not (is_nil next)
    then (trim_quotes next, enabled)
    else (name, enabled)

abbrev next_of : List Str → Str
next_of [] = []
next_of (a ∷ args) = a

unfoldable pub infra_loop : List Str → Infra → Infra
infra_loop [] infra = infra
infra_loop (a ∷ args) infra = infra_loop args (infra_step a (next_of args) infra)

-- `sec["PodmanArgs"]` of the section, if it is one
abbrev args_in : Option Fields → List Str
args_in none = []
args_in (some inner) = elim (get_field inner (str "PodmanArgs")) [
  | none ↦ []
  | some v ↦ flatten_args v
]

abbrev enabled_name : Infra → Str
enabled_name (name, true) = name
enabled_name (name, false) = []

unfoldable pub pod_infra_name : Fields → Str → Str
unfolding flatten_args
pod_infra_name unit_data pod =
    enabled_name (
      infra_loop (args_in (as_fields (get_field unit_data (str "Pod"))))
        (pod ++ str "-infra", true))

abbrev or_stem : Str → Str → Str
or_stem [] stem = str "systemd-" ++ stem
or_stem (c ∷ name) stem = c ∷ name

-- The name and the filename that it is claimed by.
abbrev pub Claim : Type 0
Claim = Str × Str

-- What a unit claims among the containers.
unfoldable pub container_claims : UnitRecord → List Claim
container_claims u =
    let pod = or_stem (nested_str u.unit_data (str "Pod") (str "PodName")) u.stem in
    let infra = pod_infra_name u.unit_data pod in
    if u.kind == str "container"
    then (
      or_stem (nested_str u.unit_data (str "Container") (str "ContainerName")) u.stem,
      u.filename,
    )
      ∷ []
    else if u.kind == str "pod"
    then (if is_nil infra then [] else (infra, u.filename) ∷ [])
    else []

-- And among the pods.
unfoldable pub pod_claims : UnitRecord → List Claim
pod_claims u =
    if u.kind == str "pod"
    then (or_stem (nested_str u.unit_data (str "Pod") (str "PodName")) u.stem, u.filename) ∷ []
    else []

unfoldable pub each_claim : (UnitRecord → List Claim) → List UnitRecord → List Claim
each_claim claims [] = []
each_claim claims (u ∷ units) = claims u ++ each_claim claims units

-- `names[name] = append(names[name], filename)`, for each claim.
unfoldable pub collect : List Claim → Dict Str (List Str) → Dict Str (List Str)
collect [] m = m
collect ((name, filename) ∷ claims) m =
    collect claims (Dict.insert name (or_empty (Dict.lookup name m) ++ filename ∷ []) m)

abbrev first_of : List Str → Str
first_of [] = []
first_of (u ∷ units) = u

unfoldable pub shared_findings : Printer → Dict Str (List Str) → List RuleFinding
shared_findings printer [] = []
shared_findings printer ((name, units) ∷ m) =
    let rest = shared_findings printer m in
    if ltb 1 (length units)
    then finding (str "graph/duplicate-name") (first_of (sort units)) (
        str "effective runtime name "
        ++ printer.quote name
        ++ str " is shared by "
        ++ join (sort units) (str ", ")
        ++ str "; podman requires uniqueness and name-based references resolve arbitrarily")
      ∷ rest
    else rest

-- Containers and pods are separate name spaces.
unfoldable pub duplicate_findings : Printer → List UnitRecord → List RuleFinding
duplicate_findings printer units =
    shared_findings printer (collect (each_claim container_claims units) [])
    ++ shared_findings printer (collect (each_claim pod_claims units) [])
