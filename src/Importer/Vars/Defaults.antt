-- ===== src/Importer/Vars/Defaults.antt =====
-- Which default a variable ends up with, after all its occurrences.
use creidhne.Base.{
  ◌≡◌, refl, sym, ap, ◌∙◌, Bool, true, false, not, ◌&&◌, ◌||◌, ◌==◌, Option, none, some, List, [],
  ◌∷◌, list_eq, nat_eq, any, is_nil, beq→eq, contains, contains-append, Option-cases, inl, inr,
  arith, Bool-cases, if◌then◌else◌,
}
use mathlib.Core.Path.{subst}
use creidhne.Base.Str.{Str}
use creidhne.Base.Dict
use creidhne.Base.Dict.{Dict}
use creidhne.Importer.Vars.{
  EnvVar, EnvSet, new_env_set, new_var, take_default, drop_mixed, update_var, record_with,
  record_var, field_default, fields, fields_from,
}

-- The occurrences of a run of the import: names with their defaults.
abbrev pub Occurrences : Type 0
Occurrences = List (Str × Option Str)

unfoldable pub record_all : Occurrences → EnvSet → EnvSet
record_all [] e = e
record_all ((name, o) ∷ os) e = record_all os (record_var name o e)

-- The defaults of one variable, in the order of its occurrences.
abbrev pub occurrences_of : Str → Occurrences → List (Option Str)
occurrences_of name [] = []
occurrences_of name ((n, o) ∷ os) =
    let rest = occurrences_of name os in if name == n then o ∷ rest else rest

abbrev pub is_bare : Option Str → Bool
is_bare none = true
is_bare (some text) = false

abbrev pub first_default : List (Option Str) → Option Str
first_default [] = none
first_default (none ∷ os) = first_default os
first_default (some text ∷ os) = some text

-- A default that stands for all occurrences: the first one, unless some occurrence has none.
abbrev pub common_default : List (Option Str) → Option Str
common_default os = if any is_bare os then none else first_default os

-- What holds of a variable between two occurrences.
abbrev is_settled : EnvVar → Bool
is_settled v = (not v.bare || not v.has_default) && (not v.warned || v.bare)

update_all : List (Option Str) → EnvVar → EnvVar
update_all [] v = v
update_all (o ∷ os) v = update_all os (update_var o v).0

update_var-is_settled :
    (o : Option Str) (v : EnvVar) → is_settled v ≡ true → is_settled (update_var o v).0 ≡ true
unfolding update_var take_default drop_mixed
update_var-is_settled none v h = ground arith
update_var-is_settled (some text) v h = ground arith

-- The default that a variable has after more occurrences.
abbrev default_after : EnvVar → List (Option Str) → Option Str
default_after v os =
    if v.bare || any is_bare os
    then none
    else if v.has_default
    then some v.default
    else first_default os

default_after-update_var :
    (o : Option Str) (v : EnvVar) (os : List (Option Str))
    → is_settled v ≡ true
    → default_after (update_var o v).0 os ≡ default_after v (o ∷ os)
unfolding update_var take_default drop_mixed any
default_after-update_var none v os h = ground arith
default_after-update_var (some text) v os h = ground arith

update_all-default :
    (os : List (Option Str)) (v : EnvVar)
    → is_settled v ≡ true
    → field_default (update_all os v) ≡ default_after v os
unfolding update_all field_default any
update_all-default [] v h = ground arith
update_all-default (o ∷ os) v h =
    update_all-default os (update_var o v).0 (update_var-is_settled o v h)
    ∙ default_after-update_var o v os h

-- The variable that an occurrence updates.
abbrev or_new : Str → Option EnvVar → EnvVar
or_new name none = new_var name
or_new name (some v) = v

record_with-lookup :
    (name n : Str) (o : Option Str) (found : Option EnvVar) (e : EnvSet)
    → Dict.lookup name (record_with n o found e).vars
      ≡ (if name == n then some (update_var o (or_new n found)).0 else Dict.lookup name e.vars)
unfolding record_with
record_with-lookup name n o none e = Dict.lookup-insert name n _ e.vars
record_with-lookup name n o (some v) e = Dict.lookup-insert name n _ e.vars

record_var-lookup :
    (name n : Str) (o : Option Str) (e : EnvSet)
    → Dict.lookup name (record_var n o e).vars ≡ (
        if name == n
        then some (update_var o (or_new n (Dict.lookup n e.vars))).0
        else Dict.lookup name e.vars)
unfolding record_var
record_var-lookup name n o e = record_with-lookup name n o (Dict.lookup n e.vars) e

-- A variable after some occurrences, from what the map has for it.
abbrev after_all : Str → Option EnvVar → List (Option Str) → Option EnvVar
after_all name found [] = found
after_all name found (o ∷ os) = some (update_all os (update_var o (or_new name found)).0)

after_all-cons :
    (name : Str) (o : Option Str) (found : Option EnvVar) (os : List (Option Str))
    → after_all name (some (update_var o (or_new name found)).0) os ≡ after_all name found (o ∷ os)
unfolding update_all
after_all-cons name o found [] = refl
after_all-cons name o found (o' ∷ os) = refl

record_all-lookup :
    (name : Str) (os : Occurrences) (e : EnvSet)
    → Dict.lookup name (record_all os e).vars
      ≡ after_all name (Dict.lookup name e.vars) (occurrences_of name os)
unfolding record_all
record_all-lookup name [] e = refl
record_all-lookup name ((n, o) ∷ os) e =
    let rest = record_all-lookup name os (record_var n o e) in
    let found = record_var-lookup name n o e in
    elim (Bool-cases (name == n)) [
      | inl same ↦
          (let eq = beq→eq {a = name} {b = n} same in
            let here = rw same at found in
            rw same (
              rest
              ∙ (ap (λ x. after_all name x (occurrences_of name os))
                    (here
                      ∙ ap (λ m. some (update_var o (or_new m (Dict.lookup m e.vars))).0) (sym eq))
                  ∙ after_all-cons name o (Dict.lookup name e.vars) (occurrences_of name os))))
      | inr other ↦
          rw other (rest ∙ ap (λ x. after_all name x (occurrences_of name os)) (rw other at found))
    ]

HasDefault : Option Str → Option EnvVar → Type 0
HasDefault default found = (v : EnvVar) × (found ≡ some v) × (field_default v ≡ default)

after_all-HasDefault :
    (name : Str) (os : List (Option Str))
    → is_nil os ≡ false
    → HasDefault (common_default os) (after_all name none os)
unfolding HasDefault new_var any
after_all-HasDefault name [] h = absurd (cc h)
after_all-HasDefault name (o ∷ os) h = (
  update_all os (update_var o (new_var name)).0,
  refl,
  update_all-default os (update_var o (new_var name)).0
        (update_var-is_settled o (new_var name) refl)
      ∙ default_after-update_var o (new_var name) os refl,
)

-- The order lists the keys of the map.
abbrev IsListed : EnvSet → Type 0
IsListed e = (name : Str) → contains e.order name ≡ Dict.has name e.vars

record_with-IsListed :
    (n : Str) (o : Option Str) (found : Option EnvVar) (e : EnvSet)
    → Dict.lookup n e.vars ≡ found
    → IsListed e
    → IsListed (record_with n o found e)
unfolding record_with contains
record_with-IsListed n o none e h listed name =
    contains-append name e.order (n ∷ [])
    ∙ ground (arith, listed name, Dict.has-insert name n (update_var o (new_var n)).0 e.vars)
record_with-IsListed n o (some v) e h listed name =
    let there : Dict.has n e.vars ≡ true = (unfold Dict.has in ap Dict.is_some h) in
    let same =
      (λ (k : (name == n) ≡ true). ap (λ x. Dict.has x e.vars) (beq→eq {a = name} {b = n} k)) in
    ground (arith, listed name, Dict.has-insert name n (update_var o v).0 e.vars, there, same)

record_all-IsListed : (os : Occurrences) (e : EnvSet) → IsListed e → IsListed (record_all os e)
unfolding record_all record_var
record_all-IsListed [] e h = h
record_all-IsListed ((n, o) ∷ os) e h =
    record_all-IsListed os (record_var n o e)
      (record_with-IsListed n o (Dict.lookup n e.vars) e refl h)

-- One round of `fields`.
lookup-field :
    (name n : Str) (o : Option EnvVar) (rest : List (Str × Option Str))
    → Dict.lookup name (elim o [ none ↦ rest | some v ↦ (n, field_default v) ∷ rest ]) ≡ elim o [
      | none ↦ Dict.lookup name rest
      | some v ↦ if name == n then some (field_default v) else Dict.lookup name rest
    ]
unfolding Dict.lookup
lookup-field name n none rest = refl
lookup-field name n (some v) rest = refl

lookup-fields_from :
    (vars : Dict Str EnvVar) (names : List Str) (name : Str) (v : EnvVar)
    → Dict.lookup name vars ≡ some v
    → contains names name ≡ true
    → Dict.lookup name (fields_from vars names) ≡ some (field_default v)
unfolding fields_from contains
lookup-fields_from vars [] name v h m = absurd (cc m)
lookup-fields_from vars (n ∷ names) name v h m =
    lookup-field name n (Dict.lookup n vars) (fields_from vars names)
    ∙ elim (Bool-cases (name == n)) [
      | inl same ↦
          let here : Dict.lookup n vars ≡ some v =
            ap (λ x. Dict.lookup x vars) (sym (beq→eq {a = name} {b = n} same)) ∙ h in
          rw (here, same) refl
      | inr other ↦
          let later = lookup-fields_from vars names name v h (ground arith) in
          elim (Option-cases (Dict.lookup n vars)) [
            | inl out ↦ rw out later
            | inr (w, found) ↦ rw (found, other) later
          ]
    ]

-- A variable that occurs anywhere ends up as a field, whose default is the first one of all its
-- occurrences, unless some occurrence has none: then the field is required.
pub record_all-common_default :
    (name : Str) (os : Occurrences)
    → is_nil (occurrences_of name os) ≡ false
    → Dict.lookup name (fields (record_all os new_env_set))
      ≡ some (common_default (occurrences_of name os))
unfolding new_env_set HasDefault Dict.lookup Dict.has fields contains
record_all-common_default name os h =
    let (v, found, default) =
      subst (HasDefault (common_default (occurrences_of name os)))
        (sym (record_all-lookup name os new_env_set))
        (after_all-HasDefault name (occurrences_of name os) h) in
    let listed = record_all-IsListed os new_env_set (λ n. refl) name in
    lookup-fields_from (record_all os new_env_set).vars (record_all os new_env_set).order name v
      found (listed ∙ ap Dict.is_some found)
    ∙ ap some default
