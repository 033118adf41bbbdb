-- ===== src/Registry/Pick/Newer.antt =====
-- The guards of the loop of `PickVersion`, and the range, as they are meant.
use creidhne.Base.{
  ℕ, zero, suc, ◌≡◌, refl, ◌∙◌, sym, ap, ◌≤◌, Bool, true, false, ◌&&◌, ◌||◌, ◌==◌, Option, none,
  some, List, [], ◌∷◌, ok, list_eq, nat_eq, leb, ltb, length, take, is_nil, inl, inr, arith,
  Bool-cases,
}
use creidhne.Base.Str.{Str}
use creidhne.Registry.Version.{Version, part_at, truncated}
use creidhne.Registry.Version.Above.{is_above, compare_versions-is_above}
use creidhne.Registry.Pick.{Constraint, in_range, allows, is_candidate, constraint_of}

-- What a range accepts of the first three components, missing ones being zero.
abbrev pub accepts : Option Constraint → List ℕ → Bool
accepts none ps = true
accepts (some check) [] = check 0 0 0
accepts (some check) (a ∷ []) = check a 0 0
accepts (some check) (a ∷ b ∷ []) = check a b 0
accepts (some check) (a ∷ b ∷ p ∷ ps) = check a b p

-- The first component, zero where there is none.
abbrev pub major : List ℕ → ℕ
major [] = 0
major (p ∷ ps) = p

-- The version has the suffix of the current one and at least its precision, does not leap from below
-- 1000 to 10000 or more in the first component, is above the current one at the precision of that,
-- and is in the range.
abbrev pub is_newer : Version → Option Constraint → Version → Bool
is_newer current c v =
    v.suffix == current.suffix
    && (leb (length current.parts) (length v.parts)
        && ((ltb (major v.parts) 10000 || leb 1000 (major current.parts))
            && (is_above (take (length current.parts) v.parts) current.parts && accepts c v.parts)))

major-part_at : (ps : List ℕ) → part_at ps 0 ≡ major ps
major-part_at [] = refl
major-part_at (p ∷ ps) = refl

accepts-allows : (c : Option Constraint) (v : Version) → allows c v ≡ accepts c v.parts
unfolding in_range
accepts-allows none v = refl
accepts-allows (some check) v = of_parts v.parts
  where
    of_parts :
        (ps : List ℕ) → check (part_at ps 0) (part_at ps 1) (part_at ps 2) ≡ accepts (some check) ps
    of_parts [] = refl
    of_parts (a ∷ []) = refl
    of_parts (a ∷ b ∷ []) = refl
    of_parts (a ∷ b ∷ p ∷ ps) = refl

take_all : (ps : List ℕ) (n : ℕ) → length ps ≤ n → take n ps ≡ ps
take_all [] zero h = refl
take_all [] (suc n) h = refl
take_all (p ∷ ps) zero h = absurd (omega arith)
take_all (p ∷ ps) (suc n) h = ap (λ qs. p ∷ qs) (take_all ps n (omega arith))

truncated-parts :
    (v : Version) (n : ℕ) → n ≤ length v.parts → (truncated v n).parts ≡ take n v.parts
unfolding truncated
truncated-parts v n h = elim (Bool-cases (leb (length v.parts) n)) [
  | inl short ↦ rw short (sym (take_all v.parts n (ground arith)))
  | inr long ↦ rw long refl
]

pub is_candidate-is_newer :
    (current : Version) (c : Option Constraint) (v : Version)
    → is_candidate current c v ≡ is_newer current c v
unfolding is_candidate
is_candidate-is_newer current c v =
    elim (Bool-cases (leb (length current.parts) (length v.parts))) [
      | inl long ↦
          let above = compare_versions-is_above (truncated v (length current.parts)) current in
          let cut =
            ap (λ ps. is_above ps current.parts)
              (truncated-parts v (length current.parts) (ground arith)) in
          ground (
            arith,
            above ∙ cut,
            accepts-allows c v,
            major-part_at v.parts,
            major-part_at current.parts,
          )
      | inr short ↦ ground arith
    ]

-- The range is the one of the text, where an empty text stands for none.
abbrev pub IsRange : (Str → Option Constraint) → Str → Option Constraint → Type 0
IsRange new_constraint range none = range ≡ []
IsRange new_constraint range (some check) =
    (is_nil range ≡ false) × (new_constraint range ≡ some check)

pub constraint_of-IsRange :
    (new_constraint : Str → Option Constraint) (range : Str) (c : Option Constraint)
    → constraint_of new_constraint range ≡ ok c
    → IsRange new_constraint range c
unfolding constraint_of
constraint_of-IsRange new_constraint [] none h = refl
constraint_of-IsRange new_constraint [] (some check) h = absurd (ground (arith, h))
constraint_of-IsRange new_constraint (x ∷ range) none h = absurd (ground (arith, h))
constraint_of-IsRange new_constraint (x ∷ range) (some check) h = (refl, ground (arith, h))
