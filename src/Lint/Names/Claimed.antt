-- ===== src/Lint/Names/Claimed.antt =====
-- Which runtime names the units of a project have.
use creidhne.Base.{
  ◌≡◌, refl, ◌∙◌, ap, Bool, true, false, not, ◌&&◌, ◌||◌, ◌==◌, Option, none, some, List, [], ◌∷◌,
  ◌++◌, list_eq, nat_eq, list_beq, beq→eq, is_nil, inl, inr, arith, Bool-cases, if◌then◌else◌,
}
use creidhne.Base.Str.{Str, str, has_prefix, trim_prefix, cut_prefix}
use creidhne.Eval.Data.{UnitRecord, get_field}
use creidhne.Eval.Access.{as_fields}
use creidhne.Lint.Names.{
  Claim, nested_str, trim_quotes, args_in, infra_step, infra_loop, next_of, pod_infra_name,
  enabled_name, or_stem, container_claims, pod_claims, each_claim,
}

-- The names that are claimed.
abbrev pub claimed : List Claim → List Str
claimed [] = []
claimed ((name, filename) ∷ claims) = name ∷ claimed claims

abbrev or_default {ℓ} : {A : Type ℓ} → A → Option A → A
or_default d none = d
or_default d (some a) = a

-- What an argument says about whether there is an infra container, if anything.
abbrev says_enabled : Str → Str → Option Bool
says_enabled a next =
    if a == str "--infra=false" || a == str "--no-infra"
    then some false
    else if a == str "--infra=true"
    then some true
    else if a == str "--infra"
    then some (not (next == str "false"))
    else none

-- What an argument says about its name, if anything.
abbrev says_name : Str → Str → Option Str
says_name a next =
    if has_prefix a (str "--infra-name=")
    then some (trim_quotes (trim_prefix a (str "--infra-name=")))
    else if a == str "--infra-name" && not (is_nil next)
    then some (trim_quotes next)
    else none

-- The last argument that says something wins.
abbrev last_said {ℓ} : {A : Type ℓ} → (Str → Str → Option A) → List Str → A → A
last_said says [] d = d
last_said says (a ∷ args) d = last_said says args (or_default d (says a (next_of args)))

abbrev arguments_of : UnitRecord → List Str
arguments_of u = args_in (as_fields (get_field u.unit_data (str "Pod")))

-- The name that is set, else the one made of the stem.
abbrev effective : Str → Str → Str
effective set stem = if is_nil set then str "systemd-" ++ stem else set

abbrev pod_name : UnitRecord → Str
pod_name u = effective (nested_str u.unit_data (str "Pod") (str "PodName")) u.stem

-- The name of the infra container of a pod, if it has one.
abbrev infra_names : UnitRecord → List Str
infra_names u =
    let name = last_said says_name (arguments_of u) (pod_name u ++ str "-infra") in
    if last_said says_enabled (arguments_of u) true && not (is_nil name) then name ∷ [] else []

abbrev names_of : UnitRecord → List Str
names_of u =
    if u.kind == str "container"
    then effective (nested_str u.unit_data (str "Container") (str "ContainerName")) u.stem ∷ []
    else if u.kind == str "pod"
    then infra_names u
    else []

-- The names of the containers, the infra containers of the pods included.
abbrev pub container_names : List UnitRecord → List Str
container_names [] = []
container_names (u ∷ units) = names_of u ++ container_names units

abbrev pub pod_names : List UnitRecord → List Str
pod_names [] = []
pod_names (u ∷ units) =
    let rest = pod_names units in if u.kind == str "pod" then pod_name u ∷ rest else rest

says_name-flag :
    (flag a next : Str) → says_name flag next ≡ none → (a == flag) ≡ true → says_name a next ≡ none
says_name-flag flag a next h same = rw (beq→eq {a = a} {b = flag} same) h

abbrev is_flag : Str → Bool
is_flag a =
    a == str "--infra=false"
    || (a == str "--no-infra" || (a == str "--infra=true" || a == str "--infra"))

says_name-none : (a next : Str) → is_flag a ≡ true → says_name a next ≡ none
unfolding has_prefix cut_prefix list_beq
says_name-none a next h = elim (Bool-cases (a == str "--infra=false")) [
  | inl k ↦ says_name-flag (str "--infra=false") a next refl k
  | inr k ↦ elim (Bool-cases (a == str "--no-infra")) [
    | inl k1 ↦ says_name-flag (str "--no-infra") a next refl k1
    | inr k1 ↦ elim (Bool-cases (a == str "--infra=true")) [
      | inl k2 ↦ says_name-flag (str "--infra=true") a next refl k2
      | inr k2 ↦ says_name-flag (str "--infra") a next refl (ground (arith, h, k, k1, k2))
    ]
  ]
]

infra_step-said :
    (a next name : Str) (enabled : Bool)
    → infra_step a next (name, enabled)
      ≡ (or_default name (says_name a next), or_default enabled (says_enabled a next))
unfolding infra_step
infra_step-said a next name enabled = elim (Bool-cases (is_flag a)) [
  | inl flag ↦ rw (says_name-none a next flag) (ground (arith, flag))
  | inr other ↦ ground (arith, other)
]

infra_loop-said :
    (args : List Str) (name : Str) (enabled : Bool)
    → infra_loop args (name, enabled)
      ≡ (last_said says_name args name, last_said says_enabled args enabled)
unfolding infra_loop
infra_loop-said [] name enabled = refl
infra_loop-said (a ∷ args) name enabled =
    ap (infra_loop args) (infra_step-said a (next_of args) name enabled)
    ∙ infra_loop-said args (or_default name (says_name a (next_of args)))
        (or_default enabled (says_enabled a (next_of args)))

or_stem-effective : (set stem : Str) → or_stem set stem ≡ effective set stem
or_stem-effective [] stem = refl
or_stem-effective (c ∷ set) stem = refl

enabled_claims :
    (name filename : Str) (enabled : Bool)
    → claimed (
        if is_nil (enabled_name (name, enabled))
        then []
        else (enabled_name (name, enabled), filename) ∷ [])
      ≡ (if enabled && not (is_nil name) then name ∷ [] else [])
enabled_claims [] filename true = refl
enabled_claims (c ∷ name) filename true = refl
enabled_claims name filename false = refl

pod_infra_name-said :
    (u : UnitRecord)
    → pod_infra_name u.unit_data
        (or_stem (nested_str u.unit_data (str "Pod") (str "PodName")) u.stem)
      ≡ enabled_name (
        last_said says_name (arguments_of u) (pod_name u ++ str "-infra"),
        last_said says_enabled (arguments_of u) true,
      )
unfolding pod_infra_name
pod_infra_name-said u =
    ap (λ n. enabled_name (infra_loop (arguments_of u) (n ++ str "-infra", true)))
      (or_stem-effective (nested_str u.unit_data (str "Pod") (str "PodName")) u.stem)
    ∙ ap enabled_name (infra_loop-said (arguments_of u) (pod_name u ++ str "-infra") true)

container_claims-names : (u : UnitRecord) → claimed (container_claims u) ≡ names_of u
unfolding container_claims
container_claims-names u = elim (Bool-cases (u.kind == str "container")) [
  | inl k ↦ rw k (
      ap (λ n. n ∷ [])
        (or_stem-effective (nested_str u.unit_data (str "Container") (str "ContainerName")) u.stem))
  | inr k ↦ elim (Bool-cases (u.kind == str "pod")) [
    | inl k1 ↦
        rw (k, k1)
          (ap (λ n. claimed (if is_nil n then [] else (n, u.filename) ∷ [])) (pod_infra_name-said u)
            ∙ enabled_claims _ u.filename _)
    | inr k1 ↦ rw (k, k1) refl
  ]
]

claimed-append : (xs ys : List Claim) → claimed (xs ++ ys) ≡ claimed xs ++ claimed ys
claimed-append [] ys = refl
claimed-append ((name, filename) ∷ xs) ys = ap (λ ns. name ∷ ns) (claimed-append xs ys)

pub claimed-container_names :
    (units : List UnitRecord) → claimed (each_claim container_claims units) ≡ container_names units
unfolding each_claim
claimed-container_names [] = refl
claimed-container_names (u ∷ units) =
    claimed-append (container_claims u) (each_claim container_claims units)
    ∙ rw (container_claims-names u, claimed-container_names units) refl

pub claimed-pod_names :
    (units : List UnitRecord) → claimed (each_claim pod_claims units) ≡ pod_names units
unfolding each_claim pod_claims
claimed-pod_names [] = refl
claimed-pod_names (u ∷ units) = elim (Bool-cases (u.kind == str "pod")) [
  | inl k ↦
      rw
        (
          k,
          or_stem-effective (nested_str u.unit_data (str "Pod") (str "PodName")) u.stem,
          claimed-pod_names units,
        )
        refl
  | inr k ↦ rw (k, claimed-pod_names units) refl
]
