-- ===== src/Lint/Wiring/Reported.antt =====
-- Which networks the rules on networks report.
use creidhne.Base.{
  ◌≡◌, refl, sym, ◌∙◌, ◌⊎◌, inl, inr, ◌↔◌, true, false, List, [], ◌∷◌, list_eq, nat_eq, contains,
  is_nil, beq_refl, Bool-cases, arith,
}
use creidhne.Base.Str.{Str, str, has_suffix}
use creidhne.Eval.Data.{UnitRecord, Quadlet}
use creidhne.Eval.Access.{top_list}
use creidhne.Lint.Wiring.{Wiring, attachers_at, wiring, has_marker, orphan_findings}
use creidhne.Lint.Wiring.Attachers.{is_plain}
use creidhne.Lint.Wiring.Scanned.{is_used_by, has_plain_refs, attachers_at-wiring}

pub head_in : (xs : List Str) → is_nil xs ≡ false → (x : Str) × (contains xs x ≡ true)
unfolding contains
head_in [] h = cc
head_in (x ∷ xs) h = (x, rw (beq_refl x) refl)

pub in_not_nil : (xs : List Str) (x : Str) → contains xs x ≡ true → is_nil xs ≡ false
unfolding contains
in_not_nil [] x h = cc
in_not_nil (y ∷ xs) x h = refl

orphan-none :
    (w : Wiring) (n : UnitRecord)
    → orphan_findings w n ≡ []
    → (has_marker (top_list n.unit_data (str "labelStrings")) ≡ true)
      ⊎ (is_nil (attachers_at n.filename w) ≡ false)
unfolding orphan_findings
orphan-none w n h = elim (Bool-cases (has_marker (top_list n.unit_data (str "labelStrings")))) [
  | inl m ↦ inl m
  | inr m ↦ elim (Bool-cases (is_nil (attachers_at n.filename w))) [
    | inl e ↦ absurd (ground arith)
    | inr e ↦ inr e
  ]
]

-- A network unit is left out of the orphan findings exactly if it has a label with the pair marker,
-- or some container, pod or kube unit of the project names it. No reference in the project has the
-- byte that joins the keys of the set of attachments, and the unit is named as a network.
pub orphan_findings-wiring :
    (quads : List Quadlet) (n : UnitRecord)
    → has_plain_refs quads ≡ true
    → is_plain n.filename ≡ true
    → has_suffix n.filename (str ".network") ≡ true
    → (orphan_findings (wiring quads) n ≡ []) ↔ (
        (has_marker (top_list n.unit_data (str "labelStrings")) ≡ true)
        ⊎ ((unit : Str) × (is_used_by quads n.filename unit ≡ true)))
unfolding orphan_findings
orphan_findings-wiring quads n plain k s = (
  λ h. elim (orphan-none (wiring quads) n h) [
    | inl m ↦ inl m
    | inr e ↦
        let (unit, has) = head_in (attachers_at n.filename (wiring quads)) e in
        inr (unit, sym (attachers_at-wiring quads n.filename unit plain k s) ∙ has)
  ],
  λ c. elim c [
    | inl m ↦ rw m refl
    | inr (unit, used) ↦
        let e : is_nil (attachers_at n.filename (wiring quads)) ≡ false =
          in_not_nil _ unit (attachers_at-wiring quads n.filename unit plain k s ∙ used) in
        elim (Bool-cases (has_marker (top_list n.unit_data (str "labelStrings")))) [
          | inl m ↦ rw m refl
          | inr m ↦ rw (m, e) refl
        ]
  ],
)
