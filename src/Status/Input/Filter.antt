-- ===== src/Status/Input/Filter.antt =====
-- What the filter by quadlet names does.
use creidhne.Base.{
  ◌≡◌, refl, ◌∙◌, sym, ap, Bool, true, false, ◌||◌, ◌==◌, Option, none, some, if◌then◌else◌, select,
  beq→eq, List, [], ◌∷◌, ◌++◌, Result, ok, err, list_eq, nat_eq, contains, all, inl, inr, arith,
  Bool-cases,
}
use creidhne.Base.Str.{Str}
use creidhne.Base.Order.{sort, str_order}
use creidhne.Base.Dict
use creidhne.Base.Dict.{Dict}
use creidhne.Eval.Data.{Quadlet}
use creidhne.State.Types.{FileInput, State}
use creidhne.Status.Input.{
  StatusInput, FilterError, files_or_nil, restrict, restrict_desired, restrict_state,
  unknown_quadlet, quadlets_of, mark_all, names_of, known_quadlets, select_names, narrow, narrow_by,
  filter_status_input,
}

-- The quadlet was evaluated or is recorded.
abbrev pub is_known : StatusInput → Str → Bool
is_known s name = contains (names_of s.desired_units) name || Dict.has name (quadlets_of s.recorded)

pub mark_all-has :
    (ks : List Str) (m : Dict Str Bool) (k : Str)
    → Dict.has k (mark_all ks m) ≡ (contains ks k || Dict.has k m)
unfolding mark_all contains
mark_all-has [] m k = refl
mark_all-has (j ∷ ks) m k =
    rw (mark_all-has ks (Dict.insert j true m) k, Dict.has-insert k j true m) (ground arith)

no_marks : (k : Str) → Dict.has k (mark_all [] []) ≡ false
unfolding mark_all Dict.has Dict.lookup
no_marks k = refl

known_quadlets-has : (s : StatusInput) (k : Str) → Dict.has k (known_quadlets s) ≡ is_known s k
unfolding known_quadlets Dict.has Dict.lookup
known_quadlets-has s k =
    let outer =
      mark_all-has (Dict.keys (quadlets_of s.recorded)) (mark_all (names_of s.desired_units) [])
        k in
    let inner = mark_all-has (names_of s.desired_units) [] k in
    let keys = Dict.has-keys k (quadlets_of s.recorded) in ground (arith, outer, inner, keys)

-- What a map has for a name, if the name is one of those asked for.
abbrev pub asked {ℓ} : {V : Type ℓ} → List Str → Str → Option V → Option V
asked only name found = if contains only name then found else none

-- The recorded state without its quadlets.
abbrev pub emptied : Option State → Option State
emptied none = none
emptied (some st) = some (record st { quadlets = [] })

-- The second input is the first one, narrowed to the names.
pub record IsNarrowed (s : StatusInput) (only : List Str) (s' : StatusInput) : Type 0 where
  pub evaluated : Dict.is_some s'.desired ≡ Dict.is_some s.desired
  pub desired :
      (name : Str)
      → Dict.lookup name (files_or_nil s'.desired)
        ≡ asked only name (Dict.lookup name (files_or_nil s.desired))
  pub desired_units : s'.desired_units ≡ select (λ q. contains only q.name) s.desired_units
  pub all_units : s'.all_units ≡ s.desired_units
  pub state : emptied s'.recorded ≡ emptied s.recorded
  pub recorded :
      (name : Str)
      → Dict.lookup name (quadlets_of s'.recorded)
        ≡ asked only name (Dict.lookup name (quadlets_of s.recorded))
  pub disk : s'.disk ≡ s.disk
  pub runtime : s'.runtime ≡ s.runtime
  pub now : s'.now ≡ s.now

lookup-restrict :
    {V : Type 0} (sel : Dict Str Bool) (name : Str) (m : Dict Str V)
    → Dict.lookup name (restrict sel m) ≡ (if Dict.has name sel then Dict.lookup name m else none)
unfolding restrict Dict.lookup
lookup-restrict sel name [] = ground arith
lookup-restrict sel name ((k, v) ∷ m) = elim (Bool-cases (name == k)) [
  | inl same ↦
      let e : Dict.has name sel ≡ Dict.has k sel =
        ap (λ n. Dict.has n sel) (beq→eq {a = name} {b = k} same) in
      ground (arith, lookup-restrict sel name m, e)
  | inr other ↦ ground (arith, lookup-restrict sel name m)
]

select-same :
    (p q : Quadlet → Bool) (xs : List Quadlet)
    → ((x : Quadlet) → p x ≡ q x)
    → select p xs ≡ select q xs
unfolding select
select-same p q [] same = refl
select-same p q (x ∷ xs) same = rw (same x, select-same p q xs same) refl

module _ (only : List Str) where
  marked : (name : Str) → Dict.has name (mark_all only []) ≡ contains only name
  unfolding Dict.has Dict.lookup
  marked name = mark_all-has only [] name ∙ ground arith

  restrict-asked :
      {V : Type 0} (name : Str) (m : Dict Str V)
      → Dict.lookup name (restrict (mark_all only []) m) ≡ asked only name (Dict.lookup name m)
  restrict-asked name m =
      lookup-restrict (mark_all only []) name m
      ∙ ap (λ b. if b then Dict.lookup name m else none) (marked name)

  asked-none : {V : Type 0} (name : Str) → asked {V = V} only name none ≡ none
  asked-none name = ground arith

  restrict_desired-asked :
      (name : Str) (o : Option (Dict Str (Dict Str FileInput)))
      → Dict.lookup name (files_or_nil (restrict_desired (mark_all only []) o))
        ≡ asked only name (Dict.lookup name (files_or_nil o))
  unfolding Dict.lookup
  restrict_desired-asked name none = sym (asked-none name)
  restrict_desired-asked name (some m) = restrict-asked name m

  restrict_state-asked :
      (name : Str) (o : Option State)
      → Dict.lookup name (quadlets_of (restrict_state (mark_all only []) o))
        ≡ asked only name (Dict.lookup name (quadlets_of o))
  unfolding Dict.lookup
  restrict_state-asked name none = sym (asked-none name)
  restrict_state-asked name (some st) = restrict-asked name st.quadlets

  restrict_desired-is_some :
      (sel : Dict Str Bool) (o : Option (Dict Str (Dict Str FileInput)))
      → Dict.is_some (restrict_desired sel o) ≡ Dict.is_some o
  restrict_desired-is_some sel none = refl
  restrict_desired-is_some sel (some m) = refl

  restrict_state-emptied :
      (sel : Dict Str Bool) (o : Option State) → emptied (restrict_state sel o) ≡ emptied o
  restrict_state-emptied sel none = refl
  restrict_state-emptied sel (some st) = refl

  narrow-IsNarrowed : (s : StatusInput) → IsNarrowed s only (narrow s (mark_all only []))
  unfolding narrow
  narrow-IsNarrowed s = record {
    evaluated = restrict_desired-is_some (mark_all only []) s.desired;
    desired = λ name. restrict_desired-asked name s.desired;
    desired_units = select-same _ _ s.desired_units (λ q. marked q.name);
    all_units = refl;
    state = restrict_state-emptied (mark_all only []) s.recorded;
    recorded = λ name. restrict_state-asked name s.recorded;
    disk = refl;
    runtime = refl;
    now = refl;
  }

-- The outcome for the names: all are known, or the first that is not is reported.
pub data Outcome (s : StatusInput) (only : List Str) : Result FilterError StatusInput → Type 0 where
  narrowed :
      (s' : StatusInput)
      → all (is_known s) only ≡ true
      → IsNarrowed s only s'
      → Outcome s only (ok s')
  refused :
      (front : List Str) (name : Str) (back : List Str)
      → only ≡ front ++ name ∷ back
      → all (is_known s) front ≡ true
      → is_known s name ≡ false
      → Outcome s only (err (unknown_quadlet name (sort (Dict.keys (known_quadlets s)))))

-- The same of the loop over the names.
data Selected (is_in : Str → Bool) (known sel : Dict Str Bool) (only : List Str)
    : Result FilterError (Dict Str Bool) → Type 0 where
  every : all is_in only ≡ true → Selected is_in known sel only (ok (mark_all only sel))
  stopped :
      (front : List Str) (name : Str) (back : List Str)
      → only ≡ front ++ name ∷ back
      → all is_in front ≡ true
      → is_in name ≡ false
      → Selected is_in known sel only (err (unknown_quadlet name (sort (Dict.keys known))))

module _ (is_in : Str → Bool) (known : Dict Str Bool)
    (same : (n : Str) → Dict.has n known ≡ is_in n) where
  Selected-cons :
      (name : Str) (only : List Str) (sel : Dict Str Bool) (r : Result FilterError (Dict Str Bool))
      → is_in name ≡ true
      → Selected is_in known (Dict.insert name true sel) only r
      → Selected is_in known sel (name ∷ only) r
  unfolding all mark_all
  Selected-cons name only sel r k (every h) = every (rw k h)
  Selected-cons name only sel r k (stopped front n back e h g) =
      stopped (name ∷ front) n back (ap (λ xs. name ∷ xs) e) (rw k h) g

  select_names-Selected :
      (only : List Str) (sel : Dict Str Bool)
      → Selected is_in known sel only (select_names known only sel)
  unfolding select_names all mark_all
  select_names-Selected [] sel = every refl
  select_names-Selected (name ∷ only) sel = elim (Bool-cases (Dict.has name known)) [
    | inl h ↦ rw h (
        Selected-cons name only sel _ (sym (same name) ∙ h)
          (select_names-Selected only (Dict.insert name true sel)))
    | inr h ↦ rw h (stopped [] name only refl refl (sym (same name) ∙ h))
  ]

narrow_by-Outcome :
    (s : StatusInput) (only : List Str) (r : Result FilterError (Dict Str Bool))
    → Selected (is_known s) (known_quadlets s) [] only r
    → Outcome s only (narrow_by s r)
narrow_by-Outcome s only r (every h) =
    narrowed (narrow s (mark_all only [])) h (narrow-IsNarrowed only s)
narrow_by-Outcome s only r (stopped front name back e h g) = refused front name back e h g

-- The filter is all or nothing. If every name is that of an evaluated or a recorded quadlet, the
-- desired files and the recorded quadlets are those of the names and no others, the evaluated
-- quadlets are those with one of the names, all that were evaluated stay known as the whole
-- project, and the rest of the recorded state, the disk, the runtime states and the time are as
-- before. Otherwise the first name that is neither is refused.
pub filter_status_input-Outcome :
    (s : StatusInput) (only : List Str) → Outcome s only (filter_status_input s only)
unfolding filter_status_input
filter_status_input-Outcome s only =
    narrow_by-Outcome s only (select_names (known_quadlets s) only [])
      (select_names-Selected (is_known s) (known_quadlets s) (known_quadlets-has s) only [])
