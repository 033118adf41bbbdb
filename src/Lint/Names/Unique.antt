-- ===== src/Lint/Names/Unique.antt =====
-- When the rule on runtime names finds nothing.
use creidhne.Base.{
  beq_comm, ◌≡◌, refl, sym, ◌∙◌, ap, inl, inr, ◌↔◌, Bool, true, false, not, ◌&&◌, List, [], ◌∷◌,
  ◌++◌, ◌==◌, list_eq, nat_eq, is_nil, length, ltb, contains, is_distinct, all, Bool-cases, arith,
  if◌then◌else◌,
}
use creidhne.Base.Str.{Str}
use creidhne.Base.Dict
use creidhne.Base.Dict.{Dict}
use creidhne.Eval.Data.{UnitRecord}
use creidhne.Lint.Levels.{RuleFinding}
use creidhne.Lint.Wiring.{or_empty}
use creidhne.Lint.Images.{Printer}
use creidhne.Lint.Images.Covered.{append-none}
use creidhne.Lint.Names.Claimed.{
  claimed, container_names, pod_names, claimed-container_names, claimed-pod_names,
}
use creidhne.Lint.Names.{
  Claim, container_claims, pod_claims, each_claim, collect, shared_findings, duplicate_findings,
}

-- Every name has one claim.
abbrev is_single : Dict Str (List Str) → Bool
is_single [] = true
is_single ((name, units) ∷ m) = not (ltb 1 (length units)) && is_single m

-- Every name has some claim.
abbrev is_filled : Dict Str (List Str) → Bool
is_filled [] = true
is_filled ((name, units) ∷ m) = not (is_nil units) && is_filled m

abbrev with_claim : Str → Str → Dict Str (List Str) → Dict Str (List Str)
with_claim name filename m = Dict.insert name (or_empty (Dict.lookup name m) ++ filename ∷ []) m

longer :
    (units : List Str) (f : Str) → is_nil units ≡ false → ltb 1 (length (units ++ f ∷ [])) ≡ true
longer [] f h = cc
longer (u ∷ []) f h = refl
longer (u ∷ v ∷ units) f h = ground arith

insert-is_single :
    (name f : Str) (m : Dict Str (List Str)) (units : List Str)
    → is_filled m ≡ true
    → units ≡ or_empty (Dict.lookup name m) ++ f ∷ []
    → is_single (Dict.insert name units m) ≡ (is_single m && not (Dict.has name m))
unfolding Dict.insert Dict.lookup Dict.has
insert-is_single name f [] units h e = rw e refl
insert-is_single name f ((j, old) ∷ m) units h e = elim (Bool-cases (name == j)) [
  | inl same ↦
      let e1 : units ≡ old ++ f ∷ [] = e ∙ rw same refl in
      let long : ltb 1 (length units) ≡ true =
        ap (λ v. ltb 1 (length v)) e1 ∙ longer old f (ground arith) in
      rw same (ground arith)
  | inr other ↦
      let e1 : units ≡ or_empty (Dict.lookup name m) ++ f ∷ [] = e ∙ rw other refl in
      let later : is_single (Dict.insert name units m) ≡ (is_single m && not (Dict.has name m)) =
        insert-is_single name f m units (ground arith) e1 in
      rw other (ground arith)
]

insert-is_filled :
    (name f : Str) (m : Dict Str (List Str)) (units : List Str)
    → is_filled m ≡ true
    → is_nil units ≡ false
    → is_filled (Dict.insert name units m) ≡ true
unfolding Dict.insert
insert-is_filled name f [] units h e = rw e refl
insert-is_filled name f ((j, old) ∷ m) units h e = ground (arith, insert-is_filled name f m units)

append_not_nil : (xs : List Str) (x : Str) → is_nil (xs ++ x ∷ []) ≡ false
append_not_nil [] x = refl
append_not_nil (y ∷ xs) x = refl

-- None of the names is in `m`.
abbrev fresh : List Str → Dict Str (List Str) → Bool
fresh names m = all (λ j. not (Dict.has j m)) names

fresh-insert :
    (names : List Str) (name : Str) (units : List Str) (m : Dict Str (List Str))
    → fresh names (Dict.insert name units m) ≡ (not (contains names name) && fresh names m)
unfolding all contains
fresh-insert [] name units m = refl
fresh-insert (j ∷ names) name units m =
    ground (arith, fresh-insert names name units m, Dict.has-insert j name units m, beq_comm j name)

collect-is_single :
    (claims : List Claim) (m : Dict Str (List Str))
    → is_filled m ≡ true
    → is_single (collect claims m)
      ≡ (is_single m && (is_distinct (claimed claims) && fresh (claimed claims) m))
unfolding collect all
collect-is_single [] m h = ground arith
collect-is_single ((name, f) ∷ claims) m h =
    let units = or_empty (Dict.lookup name m) ++ f ∷ [] in
    let ih =
      collect-is_single claims (Dict.insert name units m)
        (insert-is_filled name f m units h (append_not_nil (or_empty (Dict.lookup name m)) f)) in
    let one = insert-is_single name f m units h refl in
    let new = fresh-insert (claimed claims) name units m in ih ∙ rw (one, new) (ground arith)

kept_if :
    (b : Bool) (f : RuleFinding) (rest : List RuleFinding) (p : Bool)
    → (rest ≡ []) ↔ (p ≡ true)
    → ((if b then f ∷ rest else rest) ≡ []) ↔ ((not b && p) ≡ true)
kept_if true f rest p h = (λ k. cc, λ k. cc)
kept_if false f rest p h = h

shared-none :
    (printer : Printer) (m : Dict Str (List Str))
    → (shared_findings printer m ≡ []) ↔ (is_single m ≡ true)
unfolding shared_findings
shared-none printer [] = (λ h. refl, λ h. refl)
shared-none printer ((name, units) ∷ m) =
    kept_if (ltb 1 (length units)) _ (shared_findings printer m) (is_single m)
      (shared-none printer m)

fresh-nil : (names : List Str) → fresh names [] ≡ true
unfolding all Dict.has Dict.lookup
fresh-nil [] = refl
fresh-nil (j ∷ names) = fresh-nil names

collected-none :
    (printer : Printer) (claims : List Claim)
    → (shared_findings printer (collect claims []) ≡ []) ↔ (is_distinct (claimed claims) ≡ true)
collected-none printer claims =
    let single = collect-is_single claims [] refl in
    let empty = fresh-nil (claimed claims) in
    let (to, from) = shared-none printer (collect claims []) in
    (λ h. ground (arith, to h), λ h. from (ground arith))

-- The rule on runtime names finds nothing exactly if no two containers, or infra containers of pods,
-- have one effective name, and no two pods have. The name of a container or a pod is the one that is
-- set, else `systemd-` and the stem. A pod has an infra container unless the last of its arguments
-- that says so, or not, turns it off; its name is `<pod>-infra`, or what the last argument that names
-- it says, and an empty one does not count.
pub duplicate_findings-none :
    (printer : Printer) (units : List UnitRecord)
    → (duplicate_findings printer units ≡ [])
      ↔ ((is_distinct (container_names units) ≡ true) × (is_distinct (pod_names units) ≡ true))
unfolding duplicate_findings
duplicate_findings-none printer units =
    let (to, from) = collected-none printer (each_claim container_claims units) in
    let (to', from') = collected-none printer (each_claim pod_claims units) in
    let names = ap is_distinct (claimed-container_names units) in
    let names' = ap is_distinct (claimed-pod_names units) in
    (
      λ h. (let (a, b) = (append-none _ _).0 h in (sym names ∙ to a, sym names' ∙ to' b)),
      λ (a, b). (append-none _ _).1 (from (names ∙ a), from' (names' ∙ b)),
    )
