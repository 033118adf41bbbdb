-- ===== src/Lint/Levels/Merged.antt =====
-- The overrides are merged over the defaults, or refused.
use creidhne.Base.{
  is_distinct, ◌≡◌, refl, ◌∙◌, sym, ap, true, false, not, ◌==◌, Option, none, some, List, [], ◌∷◌,
  ◌++◌, ok, >>=-eq-ok, ok-injective, list_eq, nat_eq, is_nil, contains, beq→eq, ◌⊎◌, inl, inr, All,
  select, map, arith, Bool-cases, Option-cases,
}
use mathlib.Core.Path.{subst}
use creidhne.Base.Str.{Str}
use creidhne.Base.Dict
use creidhne.Base.Dict.{Dict}
use creidhne.Lint.Levels.{
  LintLevels, Merging, RuleFinding, is_severity, sev_off, rule_defaults, override, override_all,
  levels_of, new_lint_levels, level_at, apply,
}

-- An override of a registered rule by a severity.
abbrev pub IsOverride : Str × Str → Type 0
IsOverride (name, sev) = (Dict.has name rule_defaults ≡ true) × (is_severity sev ≡ true)

abbrev pub or_else : Option Str → Option Str → Option Str
or_else none o = o
or_else (some s) o = some s

-- What a round does to the levels and the unknown names.
Outcome : Str → Str → Merging → Merging → Type 0
Outcome name sev m m' =
    (m' ≡ (m.0, m.1 ++ name ∷ []))
    ⊎ ((m' ≡ (Dict.insert name sev m.0, m.1)) × IsOverride (name, sev))

override-Outcome :
    (name sev : Str) (m m' : Merging) → override name sev m ≡ ok m' → Outcome name sev m m'
unfolding override Outcome
override-Outcome name sev (levels, unknown) m' h = elim (Bool-cases (Dict.has name rule_defaults)) [
  | inl known ↦ elim (Bool-cases (is_severity sev)) [
    | inl severity ↦ inr (sym (ok-injective (rw (known, severity) at h)), (known, severity))
    | inr other ↦ absurd (cc (rw (known, other) at h))
  ]
  | inr unknown_name ↦ inl (sym (ok-injective (rw unknown_name at h)))
]

snoc-is_nil : (xs : List Str) (x : Str) → is_nil (xs ++ x ∷ []) ≡ false
snoc-is_nil [] x = refl
snoc-is_nil (y ∷ xs) x = refl

-- A round that leaves no unknown name has met none, and has taken its override.
Outcome-known :
    (name sev : Str) (m m' : Merging)
    → Outcome name sev m m'
    → is_nil m'.1 ≡ true
    → (m' ≡ (Dict.insert name sev m.0, m.1)) × IsOverride (name, sev)
unfolding Outcome
Outcome-known name sev m m' o k = elim o [
  | inl same ↦
      (let z = sym (ap (λ x. is_nil x.1) same) ∙ k in absurd (cc (sym (snoc-is_nil m.1 name) ∙ z)))
  | inr taken ↦ taken
]

override_all-is_nil :
    (os : Dict Str Str) (m m' : Merging)
    → override_all os m ≡ ok m'
    → is_nil m'.1 ≡ true
    → is_nil m.1 ≡ true
unfolding override_all
override_all-is_nil [] m m' h k = subst (λ x. is_nil x.1 ≡ true) (sym (ok-injective h)) k
override_all-is_nil ((name, sev) ∷ os) m m' h k =
    let (m1, e, r) = >>=-eq-ok (override name sev m) (override_all os) h in
    let later = override_all-is_nil os m1 m' r k in
    let taken = Outcome-known name sev m m1 (override-Outcome name sev m m1 e) later in
    sym (ap (λ x. is_nil x.1) taken.0) ∙ later

lookup-none :
    (n : Str) (os : Dict Str Str) → contains (Dict.keys os) n ≡ false → Dict.lookup n os ≡ none
unfolding Dict.has
lookup-none n os fresh = elim (Option-cases (Dict.lookup n os)) [
  | inl e ↦ e
  | inr (v, e) ↦
      absurd (let z = sym (ap Dict.is_some e) ∙ (sym (Dict.has-keys n os) ∙ fresh) in cc z)
]

merged-step :
    (name n sev : Str) (os : Dict Str Str) (levels : LintLevels)
    → contains (Dict.keys os) n ≡ false
    → or_else (Dict.lookup name os) (Dict.lookup name (Dict.insert n sev levels))
      ≡ or_else (Dict.lookup name ((n, sev) ∷ os)) (Dict.lookup name levels)
unfolding Dict.lookup
merged-step name n sev os levels fresh = elim (Bool-cases (name == n)) [
  | inl same ↦
      (let eq = beq→eq {a = name} {b = n} same in
        let absent = ap (λ x. Dict.lookup x os) eq ∙ lookup-none n os fresh in
        rw (Dict.lookup-insert name n sev levels, absent, same) refl)
  | inr other ↦ rw (Dict.lookup-insert name n sev levels, other) refl
]

-- What the merge promises.
pub record IsMerged (os : Dict Str Str) (levels result : LintLevels) : Type 0 where
  pub overrides : All IsOverride os
  pub level :
      (name : Str)
      → Dict.lookup name result ≡ or_else (Dict.lookup name os) (Dict.lookup name levels)

override_all-IsMerged :
    (os : Dict Str Str) (m m' : Merging)
    → is_distinct (Dict.keys os) ≡ true
    → override_all os m ≡ ok m'
    → is_nil m'.1 ≡ true
    → IsMerged os m.0 m'.0
unfolding override_all Dict.keys Dict.lookup
override_all-IsMerged [] m m' d h k = record {
  overrides = tt;
  level = λ name. ap (λ x. Dict.lookup name x.0) (sym (ok-injective h));
}
override_all-IsMerged ((n, sev) ∷ os) m m' d h k =
    let (m1, e, r) = >>=-eq-ok (override n sev m) (override_all os) h in
    let taken =
      Outcome-known n sev m m1 (override-Outcome n sev m m1 e) (override_all-is_nil os m1 m' r k) in
    let rest = override_all-IsMerged os m1 m' (ground arith) r k in
    record {
      overrides = (taken.1, rest.overrides);
      level = λ name.
          rest.level name
          ∙ (ap (λ x. or_else (Dict.lookup name os) (Dict.lookup name x.0)) taken.0
              ∙ merged-step name n sev os m.0 (ground arith));
    }

levels_of-ok :
    (m : Merging) (levels : LintLevels)
    → levels_of m ≡ ok levels
    → (is_nil m.1 ≡ true) × (m.0 ≡ levels)
unfolding levels_of
levels_of-ok (ls, unknown) levels h = elim (Bool-cases (is_nil unknown)) [
  | inl e ↦ (e, ok-injective (rw e at h))
  | inr e ↦ absurd (cc (rw e at h))
]

-- If the overrides, whose names are distinct, are accepted, each of them names a registered rule
-- and a severity, and the level of any name is the one that overrides it, or else the default.
pub new_lint_levels-IsMerged :
    (overrides : Dict Str Str) (levels : LintLevels)
    → is_distinct (Dict.keys overrides) ≡ true
    → new_lint_levels overrides ≡ ok levels
    → IsMerged overrides rule_defaults levels
unfolding new_lint_levels
new_lint_levels-IsMerged overrides levels d h =
    let (m, e, r) = >>=-eq-ok (override_all overrides (rule_defaults, [])) levels_of h in
    let (known, same) = levels_of-ok m levels r in
    subst (IsMerged overrides rule_defaults) same
      (override_all-IsMerged overrides (rule_defaults, []) m d e known)

override_all-ok :
    (os : Dict Str Str) (levels : LintLevels)
    → All IsOverride os
    → (result : LintLevels) × (override_all os (levels, []) ≡ ok (result, []))
unfolding override_all override
override_all-ok [] levels h = (levels, refl)
override_all-ok ((name, sev) ∷ os) levels ((known, severity), hs) =
    rw (known, severity) (override_all-ok os (Dict.insert name sev levels) hs)

-- Overrides that all name a registered rule and a severity are accepted.
pub new_lint_levels-ok :
    (overrides : Dict Str Str)
    → All IsOverride overrides
    → (levels : LintLevels) × (new_lint_levels overrides ≡ ok levels)
unfolding new_lint_levels levels_of
new_lint_levels-ok overrides h =
    let (result, e) = override_all-ok overrides rule_defaults h in (result, rw e refl)

-- The findings of the rules that are not off are reported, in their order, each with the level of
-- its rule; all others are dropped.
pub apply-select :
    (levels : LintLevels) (findings : List RuleFinding)
    → apply levels findings
      ≡ map {A = RuleFinding}
          (λ f. record f { severity = level_at levels f.rule })
          (select (λ f. not (level_at levels f.rule == sev_off)) findings)
unfolding apply select
apply-select levels [] = refl
apply-select levels (f ∷ findings) = elim (Bool-cases (level_at levels f.rule == sev_off)) [
  | inl off ↦ rw off (apply-select levels findings)
  | inr kept ↦ rw (kept, apply-select levels findings) refl
]
