-- ===== src/Lint/Levels.antt =====
-- `newLintLevels` and `apply`: the effective severity of each rule (internal/cli/lintconfig.go).
pub mod Merged
use creidhne.Base.{
  Bool, true, false, not, ◌||◌, ◌==◌, Option, none, some, List, [], ◌∷◌, ◌++◌, Result, ok, err,
  ◌>>=◌, list_eq, nat_eq, is_nil, if◌then◌else◌,
}
use creidhne.Base.Str.{Str, str}
use creidhne.Base.Order.{sort, str_order}
use creidhne.Base.Dict
use creidhne.Base.Dict.{Dict}

abbrev pub sev_error : Str
sev_error = str "error"

abbrev pub sev_warn : Str
sev_warn = str "warn"

abbrev pub sev_off : Str
sev_off = str "off"

unfoldable pub rule_defaults : Dict Str Str
rule_defaults =
    (str "graph/pair-cardinality", sev_error)
    ∷ (str "graph/pair-unwired", sev_warn)
    ∷ (str "graph/duplicate-name", sev_error)
    ∷ (str "graph/orphan-network", sev_warn)
    ∷ (str "graph/duplicate-router", sev_warn)
    ∷ (str "deps/redundant-resource", sev_warn)
    ∷ (str "deps/redundant-network-online", sev_warn)
    ∷ (str "service/stop-timeout", sev_error)
    ∷ (str "service/stop-timeout-default", sev_warn)
    ∷ (str "service/start-timeout", sev_warn)
    ∷ (str "service/restart-delay", sev_warn)
    ∷ (str "service/oneshot-restart", sev_error)
    ∷ (str "service/restart-flap", sev_warn)
    ∷ (str "image/unpinned", sev_warn)
    ∷ (str "image/unmanaged", sev_off)
    ∷ []

pub data LintError : Type 0 where
  invalid_severity : Str → Str → LintError
  unknown_rules : List Str → LintError

abbrev pub LintLevels : Type 0
LintLevels = Dict Str Str

abbrev pub is_severity : Str → Bool
is_severity sev = sev == sev_error || (sev == sev_warn || sev == sev_off)

-- The levels so far, and the names that no rule has.
abbrev pub Merging : Type 0
Merging = LintLevels × List Str

-- The body of the loop over the overrides.
unfoldable pub override : Str → Str → Merging → Result LintError Merging
override name sev (levels, unknown) =
    if not (Dict.has name rule_defaults)
    then ok (levels, unknown ++ name ∷ [])
    else if is_severity sev
    then ok (Dict.insert name sev levels, unknown)
    else err (LintError.invalid_severity name sev)

unfoldable pub override_all : Dict Str Str → Merging → Result LintError Merging
override_all [] m = ok m
override_all ((name, sev) ∷ overrides) m = override name sev m >>= override_all overrides

unfoldable pub levels_of : Merging → Result LintError LintLevels
levels_of (levels, unknown) =
    if is_nil unknown then ok levels else err (LintError.unknown_rules (sort unknown))

unfoldable pub new_lint_levels : Dict Str Str → Result LintError LintLevels
new_lint_levels overrides = override_all overrides (rule_defaults, []) >>= levels_of

pub record RuleFinding : Type 0 where
  pub rule : Str
  pub unit : Str
  pub severity : Str
  pub message : Str

-- The level of a rule; a rule that is not registered is an error.
unfoldable pub level_at : LintLevels → Str → Str
level_at levels rule = elim (Dict.lookup rule levels) [ none ↦ sev_error | some sev ↦ sev ]

unfoldable pub apply : LintLevels → List RuleFinding → List RuleFinding
apply levels [] = []
apply levels (f ∷ findings) =
    let rest = apply levels findings in
    let sev = level_at levels f.rule in
    if sev == sev_off then rest else record f { severity = sev } ∷ rest
