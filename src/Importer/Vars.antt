-- ===== src/Importer/Vars.antt =====
-- `envSet`, `record` and `fields`: the variables of a compose file (internal/importer/vars.go).
pub mod Defaults
use creidhne.Base.{
  Bool, true, false, not, ◌&&◌, ◌||◌, ◌!=◌, Option, none, some, List, [], ◌∷◌, ◌++◌, list_eq,
  nat_eq, if◌then◌else◌,
}
use creidhne.Base.Str.{Str}
use creidhne.Base.Dict
use creidhne.Base.Dict.{Dict}

pub record EnvVar : Type 0 where
  pub name : Str
  pub default : Str
  pub has_default : Bool
  pub bare : Bool
  pub warned : Bool

pub data Warning : Type 0 where
  conflicting_defaults : Str → Str → Str → Warning
  bare_and_default : Str → Warning

-- The warnings that `warnf` got are part of the state. `resolved` only stops the rewriting of strings.
pub record EnvSet : Type 0 where
  pub order : List Str
  pub vars : Dict Str EnvVar
  pub warnings : List Warning
  pub resolved : Bool

unfoldable pub new_env_set : EnvSet
new_env_set = record { order = []; vars = []; warnings = []; resolved = false }

unfoldable pub new_var : Str → EnvVar
new_var name = record {
  name = name;
  default = [];
  has_default = false;
  bare = false;
  warned = false;
}

-- The first chain of tests. An occurrence is its default, `none` for `hasDefault = false`.
unfoldable pub take_default : Option Str → EnvVar → EnvVar × List Warning
take_default none v = (record v { bare = true }, [])
take_default (some text) v =
    if not v.has_default && not v.bare
    then (record v { default = text; has_default = true }, [])
    else if v.has_default && v.default != text
    then (v, conflicting_defaults v.name v.default text ∷ [])
    else (v, [])

-- The last test: a variable that is bare somewhere and has a default somewhere.
unfoldable pub drop_mixed : Bool → EnvVar → EnvVar × List Warning
drop_mixed has_default v =
    if v.bare && ((v.has_default || has_default) && not v.warned)
    then (
      record v { warned = true; has_default = false; default = [] },
      bare_and_default v.name ∷ [],
    )
    else (v, [])

unfoldable pub update_var : Option Str → EnvVar → EnvVar × List Warning
update_var occurrence v =
    let (v1, w1) = take_default occurrence v in
    let (v2, w2) = drop_mixed (Dict.is_some occurrence) v1 in (v2, w1 ++ w2)

-- A variable that is not there yet is added, at the end of the order.
unfoldable pub record_with : Str → Option Str → Option EnvVar → EnvSet → EnvSet
record_with name occurrence none e =
    let (v, w) = update_var occurrence (new_var name) in
    record e {
      order = e.order ++ name ∷ [];
      vars = Dict.insert name v e.vars;
      warnings = e.warnings ++ w;
    }
record_with name occurrence (some found) e =
    let (v, w) = update_var occurrence found in
    record e { vars = Dict.insert name v e.vars; warnings = e.warnings ++ w }

-- The reference to the field that `record` returns is text made from the name, and is left out.
unfoldable pub record_var : Str → Option Str → EnvSet → EnvSet
record_var name occurrence e = record_with name occurrence (Dict.lookup name e.vars) e

-- The default of the field, or `none` for a required one.
unfoldable pub field_default : EnvVar → Option Str
field_default v = if v.has_default then some v.default else none

-- `fields`: the field of each variable, in the order of the first occurrences.
unfoldable pub fields_from : Dict Str EnvVar → List Str → List (Str × Option Str)
fields_from vars [] = []
fields_from vars (name ∷ names) =
    let rest = fields_from vars names in
    elim (Dict.lookup name vars) [ none ↦ rest | some v ↦ (name, field_default v) ∷ rest ]

unfoldable pub fields : EnvSet → List (Str × Option Str)
fields e = fields_from e.vars e.order
