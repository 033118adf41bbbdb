-- ===== src/Eval/Access.antt =====
-- The accessors over the decoded unit data: `topStr`, `topList`, `nestedList`, `nestedBool`.
use creidhne.Base.{Bool, Option, none, some, List, [], ◌∷◌}
use creidhne.Base.Str.{Str}
use creidhne.Eval.Data.{Value, Items, Fields, get_field}

-- `v.(string)`, the empty text if it is none
abbrev pub as_text : Option Value → Str
as_text (some (Value.text s)) = s
as_text _ = []

strings_in : Items → List Str
strings_in Items.nil = []
strings_in (Items.cons (Value.text s) items) = s ∷ strings_in items
strings_in (Items.cons _ items) = strings_in items

unfoldable pub to_strings : Option Value → List Str
unfolding strings_in
to_strings (some (Value.list items)) = strings_in items
to_strings _ = []

unfoldable pub top_str : Fields → Str → Str
top_str fields key = as_text (get_field fields key)

unfoldable pub top_list : Fields → Str → List Str
top_list fields key = to_strings (get_field fields key)

-- `data[section].(map[string]any)`
abbrev pub as_fields : Option Value → Option Fields
as_fields (some (Value.dict fields)) = some fields
as_fields _ = none

unfoldable pub nested_list : Fields → Str → Str → List Str
nested_list fields section key = elim (as_fields (get_field fields section)) [
  | none ↦ []
  | some inner ↦ to_strings (get_field inner key)
]

abbrev as_bool : Option Value → Option Bool
as_bool (some (Value.bool b)) = some b
as_bool _ = none

-- `none` for an absent field
unfoldable pub nested_bool : Fields → Str → Str → Option Bool
nested_bool fields section key = elim (as_fields (get_field fields section)) [
  | none ↦ none
  | some inner ↦ as_bool (get_field inner key)
]
