-- ===== src/Eval/Unique.antt =====
-- `checkUniqueQuadletNames`, `checkUniqueFilenames` and `checkUniqueServices`.
use creidhne.Base.{
  ◌≡◌, refl, sym, ap, ◌∙◌, Bool, true, not, ◌&&◌, Option, none, some, List, [], ◌∷◌, ◌++◌, Result,
  ok, err, list_eq, nat_eq, is_nil, is_distinct, beq_comm, contains, select, Bool-cases, ◌↔◌, ◌>>=◌,
  inl, inr, arith, map, Option-cases, if◌then◌else◌,
}
use creidhne.Base.Str.{Str}
use creidhne.Base.Dict
use creidhne.Base.Dict.{Dict}
use creidhne.Eval.Data.{UnitRecord, Quadlet}

pub data DuplicateError : Type 0 where
  duplicate_name : Str → DuplicateError
  duplicate_file duplicate_service : Str → Str → Str → DuplicateError

-- One round: the key is claimed for a value, and a second claim is the error.
abbrev claim_at :
    (Str → Str → Str → DuplicateError)
    → Str
    → Str
    → Dict Str Str
    → Option Str
    → Result DuplicateError (Dict Str Str)
claim_at error key value owner (some prev) = err (error key prev value)
claim_at error key value owner none = ok (Dict.insert key value owner)

unfoldable pub claim_all :
    (Str → Str → Str → DuplicateError)
    → Dict Str Str
    → List (Str × Str)
    → Result DuplicateError (Unit {0})
claim_all error owner [] = ok tt
claim_all error owner ((key, value) ∷ claims) =
    claim_at error key value owner (Dict.lookup key owner) >>= λ owner'.
    claim_all error owner' claims

-- The units of all quadlets with the names of these, in the order of the nested loops.
unfoldable pub units_of : List Quadlet → List (Str × UnitRecord)
units_of [] = []
units_of (q ∷ quads) = map (λ u. (q.name, u)) q.units ++ units_of quads

abbrev file_claims : List (Str × UnitRecord) → List (Str × Str)
file_claims [] = []
file_claims ((name, u) ∷ us) = (u.filename, name) ∷ file_claims us

abbrev service_claims : List (Str × UnitRecord) → List (Str × Str)
service_claims [] = []
service_claims ((name, u) ∷ us) =
    let rest = service_claims us in
    if is_nil u.service then rest else (u.service, u.filename) ∷ rest

unfoldable pub check_unique_names : List Quadlet → Result DuplicateError (Unit {0})
check_unique_names quads =
    claim_all (λ name prev again. duplicate_name name) [] (map (λ q. (q.name, q.name)) quads)

unfoldable pub check_unique_filenames : List Quadlet → Result DuplicateError (Unit {0})
check_unique_filenames quads = claim_all duplicate_file [] (file_claims (units_of quads))

unfoldable pub check_unique_services : List Quadlet → Result DuplicateError (Unit {0})
check_unique_services quads = claim_all duplicate_service [] (service_claims (units_of quads))

abbrev is_fresh : Dict Str Str → List Str → Bool
is_fresh owner [] = true
is_fresh owner (k ∷ ks) = not (Dict.has k owner) && is_fresh owner ks

is_fresh-insert :
    (k v : Str) (owner : Dict Str Str) (ks : List Str)
    → is_fresh (Dict.insert k v owner) ks ≡ (not (contains ks k) && is_fresh owner ks)
unfolding contains
is_fresh-insert k v owner [] = refl
is_fresh-insert k v owner (j ∷ ks) =
    rw (Dict.has-insert j k v owner, is_fresh-insert k v owner ks)
      (rw (beq_comm j k) (ground arith))

is_fresh-nil : (ks : List Str) → is_fresh [] ks ≡ true
unfolding Dict.has Dict.lookup
is_fresh-nil [] = refl
is_fresh-nil (k ∷ ks) = is_fresh-nil ks

claimed :
    (k v : Str) (owner : Dict Str Str) (ks : List Str)
    → (is_fresh (Dict.insert k v owner) ks && is_distinct ks)
      ≡ (is_fresh owner ks && (not (contains ks k) && is_distinct ks))
claimed k v owner ks = rw (is_fresh-insert k v owner ks) (ground arith)

claim_all-is_distinct :
    (error : Str → Str → Str → DuplicateError) (owner : Dict Str Str) (claims : List (Str × Str))
    → (claim_all error owner claims ≡ ok tt)
      ↔ ((is_fresh owner (Dict.keys claims) && is_distinct (Dict.keys claims)) ≡ true)
unfolding claim_all Dict.keys Dict.has
claim_all-is_distinct error owner [] = (λ h. refl, λ h. refl)
claim_all-is_distinct error owner ((k, v) ∷ claims) = elim (Option-cases (Dict.lookup k owner)) [
  | inl e ↦
      (let rest = claim_all-is_distinct error (Dict.insert k v owner) claims in
        let same = claimed k v owner (Dict.keys claims) in
        let round = ap (λ o. claim_at error k v owner o >>= λ m. claim_all error m claims) e in
        let fresh = ap (λ o. not (Dict.is_some o)) e in
        (
          λ h. ground (arith, same, fresh, rest.0 (sym round ∙ h)),
          λ h. round ∙ rest.1 (same ∙ ground (arith, h, fresh)),
        ))
  | inr (prev, e) ↦
      (let round = ap (λ o. claim_at error k v owner o >>= λ m. claim_all error m claims) e in
        let taken = ap (λ o. not (Dict.is_some o)) e in
        (λ h. absurd (cc (sym round ∙ h)), λ h. absurd (ground (arith, h, taken))))
]

-- An empty owner map has nothing to collide with.
claim_all_iff :
    (error : Str → Str → Str → DuplicateError) (claims : List (Str × Str))
    → (claim_all error [] claims ≡ ok tt) ↔ (is_distinct (Dict.keys claims) ≡ true)
claim_all_iff error claims =
    let whole = claim_all-is_distinct error [] claims in
    let fresh = is_fresh-nil (Dict.keys claims) in
    (λ h. ground (arith, whole.0 h, fresh), λ h. whole.1 (rw (fresh, h) refl))

keys-file_claims :
    (us : List (Str × UnitRecord)) → Dict.keys (file_claims us) ≡ map (λ x. x.1.filename) us
unfolding Dict.keys
keys-file_claims [] = refl
keys-file_claims ((name, u) ∷ us) = rw (keys-file_claims us) refl

-- The filenames of the units of the project, quadlet after quadlet.
abbrev pub filenames_of : List Quadlet → List Str
filenames_of [] = []
filenames_of (q ∷ quads) = map (λ u. u.filename) q.units ++ filenames_of quads

-- The services of the units, where a unit has one.
abbrev pub services_of : List Quadlet → List Str
services_of [] = []
services_of (q ∷ quads) =
    select (λ s. not (is_nil s)) (map (λ u. u.service) q.units) ++ services_of quads

abbrev services : List (Str × UnitRecord) → List Str
services us = select (λ s. not (is_nil s)) (map (λ x. x.1.service) us)

-- What a project's units have in one field, unit by unit.
unit-fields :
    (f : UnitRecord → Str) (name : Str) (us : List UnitRecord) (rest : List (Str × UnitRecord))
    → map (λ x. f x.1) (map (λ u. (name, u)) us ++ rest) ≡ map f us ++ map (λ x. f x.1) rest
unit-fields f name [] rest = refl
unit-fields f name (u ∷ us) rest = ap (λ fs. f u ∷ fs) (unit-fields f name us rest)

filenames_of-units_of :
    (quads : List Quadlet) → map (λ x. x.1.filename) (units_of quads) ≡ filenames_of quads
unfolding units_of
filenames_of-units_of [] = refl
filenames_of-units_of (q ∷ quads) =
    unit-fields (λ u. u.filename) q.name q.units (units_of quads)
    ∙ ap (λ fs. map (λ u. u.filename) q.units ++ fs) (filenames_of-units_of quads)

select-append :
    (p : Str → Bool) (xs ys : List Str) → select p (xs ++ ys) ≡ select p xs ++ select p ys
unfolding select
select-append p [] ys = refl
select-append p (x ∷ xs) ys = elim (Bool-cases (p x)) [
  | inl h ↦ rw (h, select-append p xs ys) refl
  | inr h ↦ rw (h, select-append p xs ys) refl
]

services_of-units_of : (quads : List Quadlet) → services (units_of quads) ≡ services_of quads
unfolding units_of select
services_of-units_of [] = refl
services_of-units_of (q ∷ quads) =
    ap (select (λ s. not (is_nil s))) (unit-fields (λ u. u.service) q.name q.units (units_of quads))
    ∙ select-append (λ s. not (is_nil s)) (map (λ u. u.service) q.units)
        (map (λ x. x.1.service) (units_of quads))
    ∙ ap (λ fs. select (λ s. not (is_nil s)) (map (λ u. u.service) q.units) ++ fs)
        (services_of-units_of quads)

keys-service_claims : (us : List (Str × UnitRecord)) → Dict.keys (service_claims us) ≡ services us
unfolding Dict.keys select
keys-service_claims [] = refl
keys-service_claims ((name, u) ∷ us) = elim (Bool-cases (is_nil u.service)) [
  | inl h ↦ rw (h, keys-service_claims us) refl
  | inr h ↦ rw (h, keys-service_claims us) refl
]

-- The check of the filenames passes exactly if no two units of the project, of one quadlet or of
-- two, have one filename.
pub check_unique_filenames_iff :
    (quads : List Quadlet)
    → (check_unique_filenames quads ≡ ok tt) ↔ (is_distinct (filenames_of quads) ≡ true)
unfolding check_unique_filenames
check_unique_filenames_iff quads =
    rw (← filenames_of-units_of quads, ← keys-file_claims (units_of quads))
      (claim_all_iff duplicate_file (file_claims (units_of quads)))

-- The check of the services passes exactly if no two units of the project generate one service;
-- units without a service do not count.
pub check_unique_services_iff :
    (quads : List Quadlet)
    → (check_unique_services quads ≡ ok tt) ↔ (is_distinct (services_of quads) ≡ true)
unfolding check_unique_services
check_unique_services_iff quads =
    rw (← services_of-units_of quads, ← keys-service_claims (units_of quads))
      (claim_all_iff duplicate_service (service_claims (units_of quads)))
