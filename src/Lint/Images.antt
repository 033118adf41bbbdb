-- ===== src/Lint/Images.antt =====
-- `imageRuleFindings` (internal/cli/imagerules.go). Quoting (`%q`) and the texts of errors belong to
-- package `fmt`, and are a parameter.
pub mod Covered
use creidhne.Base.{
  Bool, true, false, not, ◌||◌, ◌&&◌, List, [], ◌∷◌, ◌++◌, map, Result, ok, err, ◌==◌, list_eq,
  nat_eq, is_nil, contains, if◌then◌else◌,
}
use creidhne.Base.Str.{Str, str}
use creidhne.Eval.Data.{UnitRecord, Quadlet, ImageEntry}
use creidhne.Eval.Access.{top_str}
use creidhne.Registry.Reference.{Ref, RefError, Names, parse}
use creidhne.Lint.Levels.{RuleFinding}
use creidhne.Lint.Wiring.{finding}

pub record Printer : Type 0 where
  pub quote : Str → Str
  pub error_text : RefError → Str

abbrev pub registry_file : Str
registry_file = str "registries/images.cue"

-- An em dash between spaces.
abbrev dash : Str
dash = str " " ++ (226 ∷ 128 ∷ 148 ∷ []) ++ str " "

-- What a container renders that consumes the entry.
unfoldable pub managed_ref : ImageEntry → Str
managed_ref e = if is_nil e.digest then e.image else e.image ++ str "@" ++ e.digest

abbrev pub is_built : Str → Bool
is_built kind = kind == str "build" || kind == str "image"

unfoldable pub built_in : List UnitRecord → List Str
built_in [] = []
built_in (u ∷ units) =
    let rest = built_in units in if is_built u.kind then u.filename ∷ rest else rest

unfoldable pub sibling_units : List Quadlet → List Str
sibling_units [] = []
sibling_units (q ∷ quads) = built_in q.units ++ sibling_units quads

module _ (names : Names) (printer : Printer) where
  unfoldable pub parsed_findings : ImageEntry → Result RefError Ref → List RuleFinding
  parsed_findings e (err why) =
      finding (str "image/unpinned") registry_file (
        e.key
        ++ str ": invalid image "
        ++ printer.quote e.image
        ++ str ": "
        ++ printer.error_text why)
      ∷ []
  parsed_findings e (ok r) =
      if not (is_nil r.tag) && is_nil e.digest
      then finding (str "image/unpinned") registry_file (
          e.key
          ++ str " ("
          ++ e.image
          ++ str ") has no digest"
          ++ dash
          ++ str "not reproducible until 'crei image pin'")
        ∷ []
      else []

  unfoldable pub entry_findings : List ImageEntry → List RuleFinding
  entry_findings [] = []
  entry_findings (e ∷ entries) = parsed_findings e (parse names e.image) ++ entry_findings entries

  -- The body of the loops over the units in focus.
  unfoldable pub unit_findings : List Str → List Str → UnitRecord → List RuleFinding
  unit_findings siblings managed u =
      let img = top_str u.unit_data (str "imageString") in
      if not (u.kind == str "container")
      then []
      else if is_nil img || (contains siblings img || contains managed img)
      then []
      else finding (str "image/unmanaged") u.filename (
          str "image "
          ++ printer.quote img
          ++ str " is not from the registry; it receives no update management (crei image add)")
        ∷ []

  unfoldable pub units_findings : List Str → List Str → List UnitRecord → List RuleFinding
  units_findings siblings managed [] = []
  units_findings siblings managed (u ∷ units) =
      unit_findings siblings managed u ++ units_findings siblings managed units

  unfoldable pub focus_findings : List Str → List Str → List Quadlet → List RuleFinding
  focus_findings siblings managed [] = []
  focus_findings siblings managed (q ∷ focus) =
      units_findings siblings managed q.units ++ focus_findings siblings managed focus

  unfoldable pub image_rule_findings :
      List Quadlet → List Quadlet → List ImageEntry → List RuleFinding
  image_rule_findings focus all entries =
      entry_findings entries ++ focus_findings (sibling_units all) (map managed_ref entries) focus
